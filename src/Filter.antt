-- ===== src/Filter.antt =====
-- src/filter_phase.c: what happens to each chunk of a segment, and the recipe that is written.
mod Defs
mod Recipe
pub mod Watch
pub mod Store
pub mod Outcome
pub mod Files
unfoldable pub use Defs.*
unfoldable pub use Recipe.*
