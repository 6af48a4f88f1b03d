-- ===== src/Segment.antt =====
-- The segments of a backup stream: src/index/segmenting_method.c and src/dedup_phase.c.
mod Defs
pub mod Stream
pub mod Bounds
pub mod Dedup
unfoldable pub use Defs.*
