-- ===== src/Restore.antt =====
-- src/do_restore.c: restoring a stream of chunks through an LRU cache of containers.
mod Defs
pub mod Stream
unfoldable pub use Defs.*
