-- ===== src/Rewrite/Har.antt =====
-- The containers that src/har_rewrite.c watches: har_monitor_update, and the file that close_har
-- leaves for the next job.
mod Defs
pub mod Trim
pub mod Sparse
unfoldable pub use Defs.*
