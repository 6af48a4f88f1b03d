-- ===== src/KvStore.antt =====
-- The in-memory key-value store of the fingerprint index: src/index/kvstore_htable.c.
mod Defs
pub mod Window
pub mod History
pub mod Delete
pub mod Dump
unfoldable pub use Defs.*
