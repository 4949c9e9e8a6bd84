-- ===== src/Topics/Laws.antt =====
-- `TopicManager` against its abstract specification: the list of the subscriptions, oldest first.
use mathlib.Core.List.{Memᴰ}
use mathlib.Core.List.Memᴰ
use mesquitte_client.Base.{
  ◌≡◌, ◌↔◌, refl, ap, sym, ◌∙◌, subst, List, [], ◌∷◌, ◌++◌, String, ◌==◌, string_key, if◌then◌else◌,
  arith, string_beq_iff, Bool-cases, inl, inr,
}
use mesquitte_client.Subscription.{Subscription}
use mesquitte_client.Trie.Paths.{
  subs_at, tokens_beq, tokens_beq_iff, subs_at-insert_at, subs_at-remove_at, subs_at-clear_node,
  subs_at-new,
}
use mesquitte_client.Trie.Matching.{Matches, mem-match_tokens_iff}
use mesquitte_client.Topics.Tokens.{tokenize_topic, join, join-tokenize_topic}
use mesquitte_client.Topics.Manager.{
  TopicManager, topic_manager_new, add, remove, match_topic, clear,
}

pub data TopicOp : Type 0 where
  adds : Subscription → TopicOp
  removes : String → TopicOp
  clears : TopicOp

unfoldable pub run_topic : TopicOp → TopicManager → TopicManager
run_topic (adds s) m = add s m
run_topic (removes topic) m = (remove topic m).0
run_topic clears m = clear m

unfoldable pub run_topics : List TopicOp → TopicManager → TopicManager
unfolding run_topic
run_topics [] m = m
run_topics (op ∷ ops) m = run_topics ops (run_topic op m)

-- The subscriptions to other topics.
abbrev pub without : String → List Subscription → List Subscription
without topic [] = []
without topic (s ∷ l) = if s.topic == topic then without topic l else s ∷ without topic l

abbrev pub spec_topic : TopicOp → List Subscription → List Subscription
spec_topic (adds s) l = l ++ s ∷ []
spec_topic (removes topic) l = without topic l
spec_topic clears l = []

abbrev pub spec_topics : List TopicOp → List Subscription → List Subscription
spec_topics [] l = l
spec_topics (op ∷ ops) l = spec_topics ops (spec_topic op l)

-- The subscriptions to the topic with these tokens.
abbrev pub only : List String → List Subscription → List Subscription
only f [] = []
only f (s ∷ l) = if tokens_beq (tokenize_topic s.topic) f then s ∷ only f l else only f l

only-append :
    (f : List String) (l : List Subscription) (s : Subscription)
    → only f (l ++ s ∷ [])
      ≡ (if tokens_beq (tokenize_topic s.topic) f then only f l ++ s ∷ [] else only f l)
only-append f [] s = refl
only-append f (x ∷ l) s = ground (arith, only-append f l s)

tokenize_topic_injective : (s t : String) → tokenize_topic s ≡ tokenize_topic t → s ≡ t
tokenize_topic_injective s t e = sym (join-tokenize_topic s) ∙ ap join e ∙ join-tokenize_topic t

pub tokens_of_topic : (s t : String) → tokens_beq (tokenize_topic s) (tokenize_topic t) ≡ (s == t)
tokens_of_topic s t = ground (
  arith,
  tokens_beq_iff (tokenize_topic s) (tokenize_topic t),
  string_beq_iff s t,
  tokenize_topic_injective s t,
)

only-without :
    (f : List String) (topic : String) (l : List Subscription)
    → only f (without topic l) ≡ (if tokens_beq (tokenize_topic topic) f then [] else only f l)
only-without f topic [] = ground arith
only-without f topic (s ∷ l) = ground (
  arith,
  only-without f topic l,
  tokens_of_topic s.topic topic,
  tokens_beq_iff (tokenize_topic s.topic) (tokenize_topic topic),
  tokens_beq_iff (tokenize_topic s.topic) f,
  tokens_beq_iff (tokenize_topic topic) f,
)

-- The trie holds, at every path, the subscriptions to that path in their order.
abbrev pub Implements : TopicManager → List Subscription → Type 0
Implements m l = (f : List String) → subs_at f m.root ≡ only f l

pub clear-Implements : (m : TopicManager) → Implements (clear m) []
unfolding clear
clear-Implements m f = subs_at-clear_node f m.root

pub run_topic-Implements :
    (op : TopicOp) (m : TopicManager) (l : List Subscription)
    → Implements m l
    → Implements (run_topic op m) (spec_topic op l)
unfolding run_topic add remove
run_topic-Implements (adds s) m l h f =
    ground (arith, h f, subs_at-insert_at (tokenize_topic s.topic) f s m.root, only-append f l s)
run_topic-Implements (removes topic) m l h f =
    ground (arith, h f, subs_at-remove_at (tokenize_topic topic) f m.root, only-without f topic l)
run_topic-Implements clears m l h f = clear-Implements m f

pub run_topics-Implements :
    (ops : List TopicOp) (m : TopicManager) (l : List Subscription)
    → Implements m l
    → Implements (run_topics ops m) (spec_topics ops l)
unfolding run_topics
run_topics-Implements [] m l h = h
run_topics-Implements (op ∷ ops) m l h =
    run_topics-Implements ops (run_topic op m) (spec_topic op l) (run_topic-Implements op m l h)

mem-only :
    (f : List String) (s : Subscription) (l : List Subscription)
    → Memᴰ s (only f l)
    → Memᴰ s l × (tokenize_topic s.topic ≡ f)
mem-only f s [] m = elim m [ ]
mem-only f s (x ∷ l) m = elim (Bool-cases (tokens_beq (tokenize_topic x.topic) f)) [
  | inl same ↦ elim (Memᴰ.cases_cons (rw same at m)) [
    | inl e ↦ (
      Memᴰ.head e,
      ap (λ (y : Subscription). tokenize_topic y.topic) e ∙ (tokens_beq_iff _ f).0 same,
    )
    | inr later ↦ let (listed, there) = mem-only f s l later in (Memᴰ.tail listed, there)
  ]
  | inr other ↦ let (listed, there) = mem-only f s l (rw other at m) in (Memᴰ.tail listed, there)
]

only-mem :
    (s : Subscription) (l : List Subscription) → Memᴰ s l → Memᴰ s (only (tokenize_topic s.topic) l)
only-mem s [] m = elim m [ ]
only-mem s (x ∷ l) (Memᴰ.head e) =
    let same =
      (tokens_beq_iff (tokenize_topic x.topic) (tokenize_topic s.topic)).1
        (ap (λ (y : Subscription). tokenize_topic y.topic) (sym e)) in
    rw same (Memᴰ.head e)
only-mem s (x ∷ l) (Memᴰ.tail m) =
    elim (Bool-cases (tokens_beq (tokenize_topic x.topic) (tokenize_topic s.topic))) [
      | inl same ↦ rw same (Memᴰ.tail (only-mem s l m))
      | inr other ↦ rw other (only-mem s l m)
    ]

-- After any history, at every filter stand the subscriptions to it that were added since the topic
-- was last removed or all were cleared, in their order.
pub run_topics_new-Implements :
    (ops : List TopicOp) → Implements (run_topics ops topic_manager_new) (spec_topics ops [])
run_topics_new-Implements ops = run_topics-Implements ops topic_manager_new [] fresh
  where
    fresh : Implements topic_manager_new []
    fresh f = unfold topic_manager_new in subs_at-new f

-- What a trie that implements a list delivers.
pub match_topic-Implements :
    (m : TopicManager) (l : List Subscription) (s : Subscription) (topic : String)
    → Implements m l
    → Memᴰ s (match_topic topic m)
      ↔ (Memᴰ s l × Matches (tokenize_topic s.topic) (tokenize_topic topic))
unfolding match_topic
match_topic-Implements m l s topic holds =
    let (to, from) = mem-match_tokens_iff s (tokenize_topic topic) m.root in
    (
      λ h.
          let (f, fits, there) = to h in
          let (listed, same) = mem-only f s l (subst (Memᴰ s) (holds f) there) in
          (listed, subst (λ g. Matches g (tokenize_topic topic)) (sym same) fits),
      λ (listed, fits). from (
        tokenize_topic s.topic,
        fits,
        subst (Memᴰ s) (sym (holds (tokenize_topic s.topic))) (only-mem s l listed),
      ),
    )

-- After any history a topic is delivered to exactly the subscriptions that are in force and whose
-- filter matches the topic.
pub mem-match_topic_iff :
    (ops : List TopicOp) (s : Subscription) (topic : String)
    → Memᴰ s (match_topic topic (run_topics ops topic_manager_new))
      ↔ (Memᴰ s (spec_topics ops []) × Matches (tokenize_topic s.topic) (tokenize_topic topic))
mem-match_topic_iff ops s topic =
    match_topic-Implements (run_topics ops topic_manager_new) (spec_topics ops []) s topic
      (run_topics_new-Implements ops)
