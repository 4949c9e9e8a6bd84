-- ===== src/Trie/Nodes.antt =====
-- The nodes and the operations of `MqttTopicTrie`.
use mesquitte_client.Base.{
  Bool, true, false, Option, none, some, List, [], ◌∷◌, ◌++◌, String, ◌==◌, string_key,
  if◌then◌else◌,
}
use mesquitte_client.Subscription.{Subscription}

-- The children are a `HashMap` from tokens, listed in some order.
mutual
  pub data TrieNode : Type 0 where
    node : Children → List Subscription → TrieNode

  pub data Children : Type 0 where
    nil : Children
    child : String → TrieNode → Children → Children

-- `TrieNode::new`
abbrev pub new_node : TrieNode
new_node = node nil []

abbrev pub children : TrieNode → Children
children (node cs subs) = cs

abbrev pub subscriptions : TrieNode → List Subscription
subscriptions (node cs subs) = subs

unfoldable pub get_child : String → Children → Option TrieNode
get_child t nil = none
get_child t (child u n cs) = if u == t then some n else get_child t cs

unfoldable pub set_child : String → TrieNode → Children → Children
set_child t n nil = child t n nil
set_child t n (child u m cs) = if u == t then child t n cs else child u m (set_child t n cs)

unfoldable pub remove_child : String → Children → Children
remove_child t nil = nil
remove_child t (child u m cs) = if u == t then remove_child t cs else child u m (remove_child t cs)

-- `entry(token).or_insert_with(…)`
unfoldable pub entry_or_new : String → Children → TrieNode
unfolding get_child
entry_or_new t cs = elim (get_child t cs) [ none ↦ new_node | some n ↦ n ]

-- `insert`, on the tokens of the path
unfoldable pub insert_at : List String → Subscription → TrieNode → TrieNode
unfolding entry_or_new set_child
insert_at [] sub (node cs subs) = node cs (subs ++ sub ∷ [])
insert_at (t ∷ ts) sub (node cs subs) =
    node (set_child t (insert_at ts sub (entry_or_new t cs)) cs) subs

-- `children.is_empty() && subscriptions.is_empty()`
abbrev pub is_bare : TrieNode → Bool
is_bare (node nil []) = true
is_bare _ = false

-- A round of the clean-up: the child at the token goes if nothing is left of it.
abbrev pub put_back : String → TrieNode → Children → Children
put_back t n cs = if is_bare n then remove_child t cs else set_child t n cs

-- `remove`: down the path, which may be missing, and back up with the clean-up.
unfoldable pub remove_at : List String → TrieNode → TrieNode × Bool
unfolding get_child set_child remove_child
remove_at [] (node cs subs) = (node cs [], true)
remove_at (t ∷ ts) (node cs subs) = elim (get_child t cs) [
  | none ↦ (node cs subs, false)
  | some n ↦
      let (n', found) = remove_at ts n in
      if found then (node (put_back t n' cs) subs, true) else (node cs subs, false)
]

-- What a child contributes, if it is there.
unfoldable pub via : String → (TrieNode → List Subscription) → Children → List Subscription
unfolding get_child
via t f cs = elim (get_child t cs) [ none ↦ [] | some n ↦ f n ]

-- `match_topic`, on the tokens from `level` on
unfoldable pub match_tokens : List String → TrieNode → List Subscription
unfolding via
match_tokens [] n = subscriptions n
match_tokens (t ∷ ts) n =
    via t (match_tokens ts) (children n)
    ++ (via "+" (match_tokens ts) (children n) ++ via "#" subscriptions (children n))

-- `clear_node`
unfoldable mutual
  pub clear_node : TrieNode → TrieNode
  clear_node (node cs subs) = node (clear_children cs) []

  pub clear_children : Children → Children
  clear_children nil = nil
  clear_children (child t n cs) = child t (clear_node n) (clear_children cs)
