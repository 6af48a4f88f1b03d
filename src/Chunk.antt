-- ===== src/Chunk.antt =====
-- The chunk, the unit that every phase hands on, and its flags: `struct chunk` and the CHUNK_
-- macros of src/destor.h.
mod Defs
pub use Defs.*
