-- ===== src/Trie/Children.antt =====
-- The children of a node as a map.
use mesquitte_client.Base.{
  ◌≡◌, refl, none, some, String, ◌==◌, string_key, if◌then◌else◌, arith, string_beq_iff,
}
use mesquitte_client.Trie.Nodes.{
  TrieNode, Children, nil, child, get_child, set_child, remove_child, is_bare, put_back, clear_node,
  clear_children,
}

pub get_child-set_child :
    (t u : String) (n : TrieNode) (cs : Children)
    → get_child u (set_child t n cs) ≡ (if t == u then some n else get_child u cs)
unfolding get_child set_child
get_child-set_child t u n nil = refl
get_child-set_child t u n (child v m cs) = ground (
  arith,
  string_beq_iff t u,
  string_beq_iff v t,
  string_beq_iff v u,
  get_child-set_child t u n cs,
)

pub get_child-remove_child :
    (t u : String) (cs : Children)
    → get_child u (remove_child t cs) ≡ (if t == u then none else get_child u cs)
unfolding get_child remove_child
get_child-remove_child t u nil = ground arith
get_child-remove_child t u (child v m cs) = ground (
  arith,
  string_beq_iff t u,
  string_beq_iff v t,
  string_beq_iff v u,
  get_child-remove_child t u cs,
)

pub get_child-put_back :
    (t u : String) (n : TrieNode) (cs : Children)
    → get_child u (put_back t n cs)
      ≡ (if t == u then (if is_bare n then none else some n) else get_child u cs)
get_child-put_back t u n cs =
    ground (arith, get_child-set_child t u n cs, get_child-remove_child t u cs)

pub get_child-clear_children :
    (t : String) (cs : Children)
    → get_child t (clear_children cs)
      ≡ elim (get_child t cs) [ none ↦ none | some n ↦ some (clear_node n) ]
unfolding get_child clear_children
get_child-clear_children t nil = refl
get_child-clear_children t (child u n cs) = ground (arith, get_child-clear_children t cs)
