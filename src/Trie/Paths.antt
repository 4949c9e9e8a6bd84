-- ===== src/Trie/Paths.antt =====
-- The trie as a map from filters to subscriptions: what each operation does to what stands at each
-- filter.
use mesquitte_client.Base.{
  ◌≡◌, ◌↔◌, refl, Bool, true, false, ◌&&◌, none, some, List, [], ◌∷◌, ◌++◌, String, ◌==◌,
  string_key, if◌then◌else◌, arith, string_beq_iff, Option-cases, inl, inr,
}
use mesquitte_client.Subscription.{Subscription}
use mesquitte_client.Trie.Nodes.{
  TrieNode, Children, node, nil, child, new_node, get_child, via, is_bare, clear_node, entry_or_new,
  insert_at, remove_at, children, subscriptions,
}
use mesquitte_client.Trie.Children.{
  get_child-set_child, get_child-put_back, get_child-clear_children,
}

-- The subscriptions at a path, oldest first; none where the path is missing.
unfoldable pub subs_at : List String → TrieNode → List Subscription
unfolding via
subs_at [] n = subscriptions n
subs_at (t ∷ ts) n = via t (subs_at ts) (children n)

-- Whether the path is there.
unfoldable pub has_path : List String → TrieNode → Bool
has_path [] n = true
has_path (t ∷ ts) n = elim (get_child t (children n)) [ none ↦ false | some c ↦ has_path ts c ]

abbrev pub tokens_beq : List String → List String → Bool
tokens_beq [] [] = true
tokens_beq (t ∷ ts) (u ∷ us) = t == u && tokens_beq ts us
tokens_beq _ _ = false

pub tokens_beq_iff : (ts us : List String) → (tokens_beq ts us ≡ true) ↔ (ts ≡ us)
tokens_beq_iff [] [] = ground arith
tokens_beq_iff [] (u ∷ us) = ground arith
tokens_beq_iff (t ∷ ts) [] = ground arith
tokens_beq_iff (t ∷ ts) (u ∷ us) = ground (arith, string_beq_iff t u, tokens_beq_iff ts us)

pub subs_at-new : (ts : List String) → subs_at ts new_node ≡ []
unfolding subs_at via get_child
subs_at-new [] = refl
subs_at-new (t ∷ ts) = refl

subs_at-entry :
    (t : String) (ts : List String) (cs : Children)
    → subs_at ts (entry_or_new t cs) ≡ via t (subs_at ts) cs
unfolding entry_or_new via
subs_at-entry t ts cs = ground (arith, subs_at-new ts)

-- `insert` appends the subscription at its path and changes nothing at any other.
pub subs_at-insert_at :
    (ts us : List String) (sub : Subscription) (n : TrieNode)
    → subs_at us (insert_at ts sub n)
      ≡ (if tokens_beq ts us then subs_at us n ++ sub ∷ [] else subs_at us n)
unfolding insert_at subs_at via
subs_at-insert_at [] [] sub (node cs subs) = refl
subs_at-insert_at [] (u ∷ us) sub (node cs subs) = refl
subs_at-insert_at (t ∷ ts) [] sub (node cs subs) = refl
subs_at-insert_at (t ∷ ts) (u ∷ us) sub (node cs subs) = ground (
  arith,
  string_beq_iff t u,
  get_child-set_child t u (insert_at ts sub (entry_or_new t cs)) cs,
  subs_at-insert_at ts us sub (entry_or_new t cs),
  subs_at-entry t us cs,
)

-- A bare node has no subscription at any path.
subs_at_bare : (us : List String) (n : TrieNode) → is_bare n ≡ true → subs_at us n ≡ []
unfolding subs_at via get_child
subs_at_bare us (node nil []) h = subs_at-new us
subs_at_bare us (node nil (s ∷ subs)) h = cc
subs_at_bare us (node (child t c cs) subs) h = cc

-- `remove` says whether the path was there.
pub remove_at-has_path : (ts : List String) (n : TrieNode) → (remove_at ts n).1 ≡ has_path ts n
unfolding remove_at has_path
remove_at-has_path [] (node cs subs) = refl
remove_at-has_path (t ∷ ts) (node cs subs) = elim (Option-cases (get_child t cs)) [
  | inl missing ↦ ground arith
  | inr (n, there) ↦ ground (arith, remove_at-has_path ts n)
]

-- Where the path is missing nothing changes.
pub remove_at_missing :
    (ts : List String) (n : TrieNode) → (remove_at ts n).1 ≡ false → (remove_at ts n).0 ≡ n
unfolding remove_at
remove_at_missing [] (node cs subs) h = cc
remove_at_missing (t ∷ ts) (node cs subs) h = elim (Option-cases (get_child t cs)) [
  | inl missing ↦ ground arith
  | inr (n, there) ↦ ground arith
]

pub subs_at-remove_at :
    (ts us : List String) (n : TrieNode)
    → subs_at us (remove_at ts n).0 ≡ (if tokens_beq ts us then [] else subs_at us n)
unfolding remove_at subs_at via
subs_at-remove_at [] [] (node cs subs) = refl
subs_at-remove_at [] (u ∷ us) (node cs subs) = refl
subs_at-remove_at (t ∷ ts) [] (node cs subs) = ground arith
subs_at-remove_at (t ∷ ts) (u ∷ us) (node cs subs) = elim (Option-cases (get_child t cs)) [
  | inl missing ↦ ground (arith, string_beq_iff t u)
  | inr (n, there) ↦ ground (
    arith,
    string_beq_iff t u,
    get_child-put_back t u (remove_at ts n).0 cs,
    subs_at-remove_at ts us n,
    remove_at_missing ts n,
    subs_at_bare us (remove_at ts n).0,
  )
]

pub subs_at-clear_node : (us : List String) (n : TrieNode) → subs_at us (clear_node n) ≡ []
unfolding clear_node subs_at via
subs_at-clear_node [] (node cs subs) = refl
subs_at-clear_node (u ∷ us) (node cs subs) = elim (Option-cases (get_child u cs)) [
  | inl missing ↦ ground (arith, get_child-clear_children u cs)
  | inr (n, there) ↦ ground (arith, get_child-clear_children u cs, subs_at-clear_node us n)
]
