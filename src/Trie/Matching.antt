-- ===== src/Trie/Matching.antt =====
-- What a topic matches: the walk over the trie against the filters that match the topic.
use mathlib.Core.List.{append-nil, Memᴰ}
use mathlib.Core.List.Memᴰ
use mesquitte_client.Base.{
  ◌≤◌, ◌≡◌, ◌↔◌, refl, sym, subst, ◌∙◌, List, [], ◌∷◌, ◌++◌, String, string_key, arith,
  Option-cases, Bool-cases, inl, inr, map, length, length-append, gather, gather-append, gather_mem,
  mem_gather, gather_ext, mem_map, map_mem, All-of_mem,
}
use mesquitte_client.Subscription.{Subscription}
use mesquitte_client.Trie.Nodes.{
  TrieNode, Children, get_child, via, insert_at, children, match_tokens,
}
use mesquitte_client.Trie.Paths.{subs_at, tokens_beq, tokens_beq_iff, subs_at-insert_at}

-- When a filter matches a topic, level by level, as the walk has it.
pub data Matches : List String → List String → Type 0 where
  done : Matches [] []
  level : {f t : List String} (u : String) → Matches f t → Matches (u ∷ f) (u ∷ t)
  plus : {f t : List String} (u : String) → Matches f t → Matches ("+" ∷ f) (u ∷ t)
  hash : {t : List String} (u : String) → Matches ("#" ∷ []) (u ∷ t)

-- The filters that match a topic, in the order of the walk.
abbrev pub filters : List String → List (List String)
filters [] = [] ∷ []
filters (t ∷ ts) = map (◌∷◌ t) (filters ts) ++ (map (◌∷◌ "+") (filters ts) ++ (("#" ∷ []) ∷ []))

gather-subs_at :
    (t : String) (fs : List (List String)) (n : TrieNode)
    → gather (λ f. subs_at f n) (map (◌∷◌ t) fs)
      ≡ via t (λ c. gather (λ f. subs_at f c) fs) (children n)
unfolding subs_at via
gather-subs_at t [] n = ground arith
gather-subs_at t (f ∷ fs) n = elim (Option-cases (get_child t (children n))) [
  | inl missing ↦ ground (arith, gather-subs_at t fs n)
  | inr (c, there) ↦ ground (arith, gather-subs_at t fs n)
]

via_ext :
    (t : String) (f g : TrieNode → List Subscription) (cs : Children)
    → ((n : TrieNode) → f n ≡ g n)
    → via t f cs ≡ via t g cs
unfolding via
via_ext t f g cs h = elim (Option-cases (get_child t cs)) [
  | inl missing ↦ ground arith
  | inr (c, there) ↦ ground (arith, h c)
]

-- The walk collects, in order, what stands at the filters that it comes to: at each level the exact token
-- first, then "+", then "#". Where a level of the topic reads "+", or its last level reads "#", it comes to
-- some filters more than once, and collects what stands there each time.
pub match_tokens-filters :
    (ts : List String) (n : TrieNode) → match_tokens ts n ≡ gather (λ f. subs_at f n) (filters ts)
unfolding match_tokens subs_at via
match_tokens-filters [] n = sym (append-nil _)
match_tokens-filters (t ∷ ts) n =
    let at = λ (f : List String). subs_at f n in
    let rest = match_tokens-filters ts in
    rw (
      gather-append at (map (◌∷◌ t) (filters ts)) _,
      gather-append at (map (◌∷◌ "+") (filters ts)) _,
      gather-subs_at t (filters ts) n,
      gather-subs_at "+" (filters ts) n,
      append-nil (subs_at ("#" ∷ []) n),
      via_ext t _ _ (children n) rest,
      via_ext "+" _ _ (children n) rest,
    )

mem-filters : {f ts : List String} → Matches f ts → Memᴰ f (filters ts)
mem-filters done = Memᴰ.head refl
mem-filters (level {f} {t} u m) = Memᴰ.append_left _ (mem_map (◌∷◌ u) (mem-filters m))
mem-filters (plus {f} {t} u m) =
    Memᴰ.append_right (map (◌∷◌ u) (filters t))
      (Memᴰ.append_left _ (mem_map (◌∷◌ "+") (mem-filters m)))
mem-filters (hash {t} u) =
    Memᴰ.append_right (map (◌∷◌ u) (filters t))
      (Memᴰ.append_right (map (◌∷◌ "+") (filters t)) (Memᴰ.head refl))

Matches-filters : (f ts : List String) → Memᴰ f (filters ts) → Matches f ts
Matches-filters f [] (Memᴰ.head e) = rw e done
Matches-filters f [] (Memᴰ.tail m) = elim m [ ]
Matches-filters f (t ∷ ts) m = elim (Memᴰ.append_cases (map (◌∷◌ t) (filters ts)) m) [
  | inl exact ↦
      let (g, among, e) = map_mem (◌∷◌ t) f (filters ts) exact in
      rw e (level t (Matches-filters g ts among))
  | inr wild ↦ elim (Memᴰ.append_cases (map (◌∷◌ "+") (filters ts)) wild) [
    | inl one ↦
        let (g, among, e) = map_mem (◌∷◌ "+") f (filters ts) one in
        rw e (plus t (Matches-filters g ts among))
    | inr (Memᴰ.head e) ↦ rw e (hash t)
    | inr (Memᴰ.tail none_left) ↦ elim none_left [ ]
  ]
]

-- A subscription is delivered to exactly when it stands at a filter that matches the topic.
pub mem-match_tokens_iff :
    (s : Subscription) (ts : List String) (n : TrieNode)
    → Memᴰ s (match_tokens ts n) ↔ ((f : List String) × Matches f ts × Memᴰ s (subs_at f n))
mem-match_tokens_iff s ts n = (
  λ m.
      let (f, among, there) = gather_mem _ s (filters ts) (rw (match_tokens-filters ts n) at m) in
      (f, Matches-filters f ts among, there),
  λ (f, m, there).
      rw (match_tokens-filters ts n) (mem_gather _ s f (filters ts) (mem-filters m) there),
)

-- A filter that matches is no longer than the topic.
Matches-length : {f ts : List String} → Matches f ts → length f ≤ length ts
Matches-length done = omega arith
Matches-length (level u m) = omega (arith, Matches-length m)
Matches-length (plus u m) = omega (arith, Matches-length m)
Matches-length (hash u) = omega arith

-- A subscription to a filter that does not match a topic changes nothing of what the topic matches.
pub match_tokens-insert_at :
    (f ts : List String) (s : Subscription) (n : TrieNode)
    → ¬ Matches f ts
    → match_tokens ts (insert_at f s n) ≡ match_tokens ts n
match_tokens-insert_at f ts s n h =
    match_tokens-filters ts (insert_at f s n)
    ∙ gather_ext _ _ (filters ts)
        (All-of_mem _ (filters ts) (λ g m. apart g (Matches-filters g ts m)))
    ∙ sym (match_tokens-filters ts n)
  where
    apart : (g : List String) → Matches g ts → subs_at g (insert_at f s n) ≡ subs_at g n
    apart g m = elim (Bool-cases (tokens_beq f g)) [
      | inl same ↦ absurd (h (subst (λ x. Matches x ts) (sym ((tokens_beq_iff f g).0 same)) m))
      | inr other ↦ subs_at-insert_at f g s n ∙ (rw other)
    ]

-- Whatever the trie holds, a subscription to `topic/#` does not match `topic` itself.
pub parent_level_missed :
    (ts : List String) (s : Subscription) (n : TrieNode)
    → match_tokens ts (insert_at (ts ++ "#" ∷ []) s n) ≡ match_tokens ts n
parent_level_missed ts s n =
    match_tokens-insert_at (ts ++ "#" ∷ []) ts s n
      (λ m. omega (arith, Matches-length m, length-append ts ("#" ∷ [])))
