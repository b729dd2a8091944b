-- ===== src/Chapel.antt =====
-- chapel/client/convex_transport.c, the native part of the Chapel client.
pub mod Chars
pub mod Decimal
pub mod Json
pub mod Fields
pub mod Utf8
pub mod Timestamp
pub mod Command
pub mod Buffer
pub mod Socket
pub mod Lines
pub mod Send
pub mod Http
pub mod Url
pub mod Headers
