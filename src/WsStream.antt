-- ===== src/WsStream.antt =====
-- src/ws_stream.rs: a byte stream over the binary messages of a WebSocket.
mod Types
mod Reading
mod Writing
pub mod Fuel
pub mod Bytes
pub mod Buffered
pub mod Writes
unfoldable pub use Types.*
unfoldable pub use Reading.*
unfoldable pub use Writing.*
