-- ===== src/Rewrite.antt =====
-- The rewrite phase: src/rewrite_phase.c, src/cfl_rewrite.c, src/cap_rewrite.c, src/har_rewrite.c and
-- the monitor of src/restore_aware.c.
mod Defs
pub mod Records
pub mod Buffer
pub mod OneContainer
pub mod Stream
pub mod Capping
pub mod Har
pub mod RestoreAware
unfoldable pub use Defs.*
