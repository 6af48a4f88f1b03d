-- ===== src/LruCache.antt =====
-- The list-based cache of src/utils/lru_cache.c, behind which restore, prefetching and the restore
-- monitor keep containers and segments.
mod Defs
pub mod Invariant
pub mod Order
pub mod Elements
pub mod Kicks
unfoldable pub use Defs.*
