-- ===== src/Serial.antt =====
-- src/utils/serial.c: integers and strings in network byte order.
mod Defs
pub mod Bytes
pub mod Wire
pub mod RoundTrip
unfoldable pub use Defs.*
