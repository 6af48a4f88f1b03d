-- ===== src/Index.antt =====
-- src/index/index.c, index_buffer.h, fingerprint_cache.c and similarity_detection.c: the index of
-- fingerprints with its buffer and its cache.
mod Cache
mod Defs
mod Lookup
pub mod Valid
pub mod Marks
pub mod Check
pub mod Buffer
unfoldable pub use Cache.*
unfoldable pub use Defs.*
unfoldable pub use Lookup.*
