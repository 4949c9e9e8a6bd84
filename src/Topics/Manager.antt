-- ===== src/Topics/Manager.antt =====
-- `TopicManager`. Its clones share one trie, which is its state.
use mesquitte_client.Base.{Bool, List, String}
use mesquitte_client.Subscription.{Subscription}
use mesquitte_client.Trie.{TrieNode, new_node, insert_at, remove_at, match_tokens, clear_node}
use mesquitte_client.Topics.Tokens.{tokenize_topic}

pub record TopicManager : Type 0 where
  pub root : TrieNode

unfoldable pub topic_manager_new : TopicManager
topic_manager_new = record { root = new_node }

unfoldable pub add : Subscription → TopicManager → TopicManager
add sub m = record { root = insert_at (tokenize_topic sub.topic) sub m.root }

unfoldable pub remove : String → TopicManager → TopicManager × Bool
remove topic m =
    let (root, found) = remove_at (tokenize_topic topic) m.root in (record { root = root }, found)

unfoldable pub match_topic : String → TopicManager → List Subscription
match_topic topic m = match_tokens (tokenize_topic topic) m.root

unfoldable pub clear : TopicManager → TopicManager
clear m = record { root = clear_node m.root }
