-- ===== src/Chunking.antt =====
-- Cutting the data of files into chunks: src/chunk_phase.c, and of src/chunking/ the functions
-- fastcdc_chunk_data and ae_chunk_data.
mod Defs
pub mod Bounds
pub mod Rabin
pub mod RabinBounds
pub mod Ae
pub mod File
pub mod Thread
unfoldable pub use Defs.*
