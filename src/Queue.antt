-- ===== src/Queue.antt =====
-- src/utils/queue.c and src/utils/sync_queue.c: the linked queue on a heap, and the bounded queue
-- that the threads of the pipeline share.
mod Defs
pub mod Refine
pub mod Walk
unfoldable pub use Defs.*
