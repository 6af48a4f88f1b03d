-- ===== src/Marker.antt =====
-- src/cma.c: the container-marker algorithm, which tells the containers that can be reclaimed.
mod Defs
pub mod Reclaim
unfoldable pub use Defs.*
