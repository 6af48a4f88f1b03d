-- ===== src/Rewrite/Capping.antt =====
-- src/cap_rewrite.c. g_sequence_sort is the interface Sorting; `top` is the list of its keys. The
-- records are searched only, so that they need not be sorted back. chunk_num counts for messages
-- only.
mod Defs
pub mod Top
pub mod Stream
unfoldable pub use Defs.*
