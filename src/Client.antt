-- ===== src/Client.antt =====
-- src/client.rs: the operations of `MqttClient` on the state that it shares with its tasks.
mod Shared
mod Sending
mod Requests
mod Greeting
mod Dialing
mod Renewing
mod Blocking
pub mod Greetings
pub mod Outcomes
pub mod Publishing
pub mod Waiting
pub mod Subscribing
pub mod Connecting
pub mod Repeated
pub mod Renewed
pub mod Restored
pub mod Attempts
pub mod Retrying
pub mod Unsent
unfoldable pub use Shared.*
unfoldable pub use Sending.*
unfoldable pub use Requests.*
unfoldable pub use Greeting.*
unfoldable pub use Dialing.*
unfoldable pub use Renewing.*
unfoldable pub use Blocking.*
