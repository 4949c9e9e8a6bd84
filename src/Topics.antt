-- ===== src/Topics.antt =====
-- src/topic_trie.rs: `TopicManager`, the trie behind topics written as texts.
mod Tokens
mod Manager
pub mod Laws
pub mod Abstract
pub mod Listed
unfoldable pub use Tokens.*
unfoldable pub use Manager.*
