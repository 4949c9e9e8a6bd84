-- ===== src/Trie.antt =====
-- src/topic_trie.rs: the trie of subscriptions. The nodes stand in `Arc<RwLock<…>>`, but each is
-- reached from its parent alone, so the trie is a tree, and a walk down that writes at its end is a
-- function that returns the new tree.
mod Nodes
pub mod Children
pub mod Paths
pub mod Matching
pub mod Pruned
unfoldable pub use Nodes.*
