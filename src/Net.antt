-- ===== src/Net.antt =====
-- src/net.rs: the handlers of the packets from the server, and the loops that read and write.
mod Handlers
mod Loops
mod KeepAlive
pub mod Publish
pub mod Acks
pub mod Subscribing
pub mod Unsubscribing
pub mod Reading
pub mod Writing
pub mod Pings
pub mod Sound
pub mod Handling
unfoldable pub use Handlers.*
unfoldable pub use Loops.*
unfoldable pub use KeepAlive.*
