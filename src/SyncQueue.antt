-- ===== src/SyncQueue.antt =====
-- src/utils/sync_queue.c: the bounded queue that the threads of the pipeline share.
mod Defs
pub mod Safety
unfoldable pub use Defs.*
