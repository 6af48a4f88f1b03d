-- ===== src/Container.antt =====
-- Containers, the fixed-size units of storage, and the container pool on disk:
-- src/storage/containerstore.c.
mod Defs
pub mod Buffer
pub mod Add
pub mod Contents
unfoldable pub use Defs.*
