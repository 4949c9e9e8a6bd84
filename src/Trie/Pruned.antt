-- ===== src/Trie/Pruned.antt =====
-- No dead branches: below the root every node leads to a subscription.
use mesquitte_client.Base.{
  ◌≡◌, ◌≢◌, ◌↔◌, refl, ◌∙◌, true, false, some, List, [], ◌∷◌, ◌++◌, String, ◌==◌, string_key, arith,
  same_refl, Option-cases, Bool-cases, inl, inr,
}
use mesquitte_client.Subscription.{Subscription}
use mesquitte_client.Trie.Nodes.{
  TrieNode, Children, node, nil, child, get_child, set_child, remove_child, via, is_bare, put_back,
  entry_or_new, insert_at, remove_at,
}
use mesquitte_client.Trie.Paths.{subs_at, has_path, remove_at-has_path}

abbrev mutual
  pub IsPruned : TrieNode → Type 0
  IsPruned (node cs subs) = ArePruned cs

  pub ArePruned : Children → Type 0
  ArePruned nil = Unit
  ArePruned (child t n cs) = (is_bare n ≡ false) × IsPruned n × ArePruned cs

get_child-IsPruned :
    (t : String) (cs : Children) (n : TrieNode)
    → ArePruned cs
    → get_child t cs ≡ some n
    → (is_bare n ≡ false) × IsPruned n
unfolding get_child
get_child-IsPruned t nil n p h = cc
get_child-IsPruned t (child u m cs) n p h = elim (Bool-cases (u == t)) [
  | inl same ↦ let e : m ≡ n = ground arith in rw (← e) (p.0, p.1)
  | inr other ↦ get_child-IsPruned t cs n p.2 (ground arith)
]

set_child-ArePruned :
    (t : String) (n : TrieNode) (cs : Children)
    → is_bare n ≡ false
    → IsPruned n
    → ArePruned cs
    → ArePruned (set_child t n cs)
unfolding set_child
set_child-ArePruned t n nil b q p = (b, q, tt)
set_child-ArePruned t n (child u m cs) b q p = elim (Bool-cases (u == t)) [
  | inl same ↦ rw same (b, q, p.2)
  | inr other ↦ rw other (p.0, p.1, set_child-ArePruned t n cs b q p.2)
]

remove_child-ArePruned : (t : String) (cs : Children) → ArePruned cs → ArePruned (remove_child t cs)
unfolding remove_child
remove_child-ArePruned t nil p = tt
remove_child-ArePruned t (child u m cs) p = elim (Bool-cases (u == t)) [
  | inl same ↦ rw same (remove_child-ArePruned t cs p.2)
  | inr other ↦ rw other (p.0, p.1, remove_child-ArePruned t cs p.2)
]

put_back-ArePruned :
    (t : String) (n : TrieNode) (cs : Children)
    → IsPruned n
    → ArePruned cs
    → ArePruned (put_back t n cs)
put_back-ArePruned t n cs q p = elim (Bool-cases (is_bare n)) [
  | inl bare ↦ rw (put_back, bare) (remove_child-ArePruned t cs p)
  | inr full ↦ rw (put_back, full) (set_child-ArePruned t n cs full q p)
]

is_bare-append :
    (cs : Children) (subs : List Subscription) (s : Subscription)
    → is_bare (node cs (subs ++ s ∷ [])) ≡ false
is_bare-append nil [] s = refl
is_bare-append nil (x ∷ subs) s = refl
is_bare-append (child t n cs) subs s = refl

is_bare-set_child :
    (t : String) (n : TrieNode) (cs : Children) (subs : List Subscription)
    → is_bare (node (set_child t n cs) subs) ≡ false
unfolding set_child
is_bare-set_child t n nil subs = refl
is_bare-set_child t n (child u m cs) subs = elim (Bool-cases (u == t)) [
  | inl same ↦ rw same
  | inr other ↦ rw other
]

is_bare-insert_at :
    (ts : List String) (s : Subscription) (n : TrieNode) → is_bare (insert_at ts s n) ≡ false
unfolding insert_at
is_bare-insert_at [] s (node cs subs) = is_bare-append cs subs s
is_bare-insert_at (t ∷ ts) s (node cs subs) = is_bare-set_child t _ cs subs

entry_or_new-IsPruned : (t : String) (cs : Children) → ArePruned cs → IsPruned (entry_or_new t cs)
unfolding entry_or_new
entry_or_new-IsPruned t cs p = elim (Option-cases (get_child t cs)) [
  | inl missing ↦ rw (missing, entry_or_new) tt
  | inr (n, there) ↦ rw (there, entry_or_new) (get_child-IsPruned t cs n p there).1
]

pub insert_at-IsPruned :
    (ts : List String) (s : Subscription) (n : TrieNode) → IsPruned n → IsPruned (insert_at ts s n)
unfolding insert_at
insert_at-IsPruned [] s (node cs subs) p = p
insert_at-IsPruned (t ∷ ts) s (node cs subs) p =
    set_child-ArePruned t _ cs (is_bare-insert_at ts s _)
      (insert_at-IsPruned ts s _ (entry_or_new-IsPruned t cs p)) p

pub remove_at-IsPruned :
    (ts : List String) (n : TrieNode) → IsPruned n → IsPruned (remove_at ts n).0
unfolding remove_at
remove_at-IsPruned [] (node cs subs) p = p
remove_at-IsPruned (t ∷ ts) (node cs subs) p = elim (Option-cases (get_child t cs)) [
  | inl missing ↦ rw (missing, remove_at) p
  | inr (n, there) ↦
      let (_, below) = get_child-IsPruned t cs n p there in
      let back = put_back-ArePruned t (remove_at ts n).0 cs (remove_at-IsPruned ts n below) p in
      elim (Bool-cases (remove_at ts n).1) [
        | inl found ↦ rw (there, remove_at, found) back
        | inr lost ↦ rw (there, remove_at, lost) p
      ]
]

-- In a trie without dead branches a node that is not bare leads to a subscription.
live : (n : TrieNode) → IsPruned n → is_bare n ≡ false → (q : List String) × (subs_at q n ≢ [])
unfolding subs_at via get_child
live (node nil []) p h = cc
live (node nil (s ∷ subs)) p h = ([], λ e. cc)
live (node (child t n cs) subs) p h =
    let (q, there) = live n p.1 p.0 in (t ∷ q, λ e. there (ground (arith, same_refl t)))

live_below :
    (ts : List String) (n : TrieNode)
    → IsPruned n
    → is_bare n ≡ false
    → has_path ts n ≡ true
    → (q : List String) × (subs_at (ts ++ q) n ≢ [])
unfolding subs_at via has_path
live_below [] n p b h = live n p b
live_below (t ∷ ts) (node cs subs) p b h = elim (Option-cases (get_child t cs)) [
  | inl missing ↦ absurd (ground arith)
  | inr (c, there) ↦
      let (full, below) = get_child-IsPruned t cs c p there in
      let (q, found) = live_below ts c below full (ground arith) in (q, λ e. found (ground arith))
]

has_path_of_subs :
    (ts q : List String) (n : TrieNode) → subs_at (ts ++ q) n ≢ [] → has_path ts n ≡ true
unfolding subs_at via has_path
has_path_of_subs [] q n h = refl
has_path_of_subs (t ∷ ts) q (node cs subs) h = elim (Option-cases (get_child t cs)) [
  | inl missing ↦ absurd (h (ground arith))
  | inr (c, there) ↦ ground (arith, has_path_of_subs ts q c (λ e. h (ground arith)))
]

has_path_bare :
    (t : String) (ts : List String) (n : TrieNode) → is_bare n ≡ true → has_path (t ∷ ts) n ≡ false
unfolding has_path get_child
has_path_bare t ts (node nil []) h = refl
has_path_bare t ts (node nil (s ∷ subs)) h = cc
has_path_bare t ts (node (child u c cs) subs) h = cc

-- In a trie without dead branches `remove` returns true exactly when a subscription stood at the
-- filter or at a filter that goes on from it.
pub remove_at-eq-true_iff :
    (t : String) (ts : List String) (n : TrieNode)
    → IsPruned n
    → ((remove_at (t ∷ ts) n).1 ≡ true) ↔ ((q : List String) × (subs_at ((t ∷ ts) ++ q) n ≢ []))
remove_at-eq-true_iff t ts n p =
    let path = remove_at-has_path (t ∷ ts) n in
    (
      λ h. elim (Bool-cases (is_bare n)) [
        | inl bare ↦ absurd (cc (has_path_bare t ts n bare, path))
        | inr full ↦ live_below (t ∷ ts) n p full (cc path)
      ],
      λ (q, there). path ∙ has_path_of_subs (t ∷ ts) q n there,
    )
