-- ===== src/Sampling.antt =====
-- src/index/sampling_method.c: how features of a segment or a container are chosen.
mod Defs
pub mod Smallest
pub mod Candidates
pub mod Features
unfoldable pub use Defs.*
