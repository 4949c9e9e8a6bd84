-- ===== src/Token.antt =====
-- src/token/: the tokens that a caller awaits for the outcome of an operation.
mod Inner
mod Kinds
mod Heap
pub mod Laws
pub mod Runs
unfoldable pub use Inner.*
unfoldable pub use Kinds.*
unfoldable pub use Heap.*
