-- ===== src/Assembly.antt =====
-- The forward assembly area of a restore: src/assembly_restore.c.
mod Defs
pub mod Fill
pub mod Issue
pub mod Stream
unfoldable pub use Defs.*
