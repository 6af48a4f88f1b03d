-- ===== src/Pool.antt =====
-- The container pool on disk: the part of src/storage/containerstore.c that writes containers to
-- container.pool and reads them back.
mod Defs
pub mod File
pub mod Meta
pub mod RoundTrip
pub mod Apart
pub mod Metadata
unfoldable pub use Defs.*
