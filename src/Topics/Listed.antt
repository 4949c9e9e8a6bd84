-- ===== src/Topics/Listed.antt =====
-- A trie and the table of the subscriptions that are to be renewed, side by side.
use mathlib.Core.List.{Memᴰ}
use mathlib.Core.List.Memᴰ
use mesquitte_client.Base.{
  ◌≡◌, ◌≢◌, sym, subst, none, List, String, string_key, string_beq_iff, arith, Bool-cases, inl, inr,
  get, insert_sorted, get-insert_sorted,
}
use mesquitte_client.Subscription.{Subscription}
use mesquitte_client.Trie.Paths.{
  subs_at, tokens_beq, tokens_beq_iff, subs_at-insert_at, subs_at-remove_at, subs_at-clear_node,
  subs_at-new,
}
use mesquitte_client.Topics.Tokens.{tokenize_topic}
use mesquitte_client.Topics.Manager.{TopicManager, topic_manager_new, add, remove, clear}

-- What stands in the one trie stands in the other.
abbrev pub IsWithin : TopicManager → TopicManager → Type 0
IsWithin m' m =
    (f : List String) (s : Subscription) → Memᴰ s (subs_at f m'.root) → Memᴰ s (subs_at f m.root)

-- Every subscription in the trie stands at its filter, which the table has.
abbrev pub IsListed : TopicManager → List (String × Subscription) → Type 0
IsListed m table =
    (f : List String) (s : Subscription)
    → Memᴰ s (subs_at f m.root)
    → (tokenize_topic s.topic ≡ f) × (get s.topic table ≢ none)

pub remove-IsWithin : (topic : String) (m : TopicManager) → IsWithin (remove topic m).0 m
unfolding remove
remove-IsWithin topic m f s h =
    let left = subs_at-remove_at (tokenize_topic topic) f m.root in
    elim (Bool-cases (tokens_beq (tokenize_topic topic) f)) [
      | inl here ↦ elim (rw (left, here) at h) [ ]
      | inr there ↦ rw (left, there) at h
    ]

pub clear-IsWithin : (m : TopicManager) → IsWithin (clear m) m
unfolding clear
clear-IsWithin m f s h = elim (rw (subs_at-clear_node f m.root) at h) [ ]

pub new-IsListed : (table : List (String × Subscription)) → IsListed topic_manager_new table
unfolding topic_manager_new
new-IsListed table f s h = elim (rw (subs_at-new f) at h) [ ]

pub within-IsListed :
    (m' m : TopicManager) (table : List (String × Subscription))
    → IsWithin m' m
    → IsListed m table
    → IsListed m' table
within-IsListed m' m table within listed f s h = listed f s (within f s h)

kept_key :
    (s t : Subscription) (table : List (String × Subscription))
    → get t.topic table ≢ none
    → get t.topic (insert_sorted s.topic s table) ≢ none
kept_key s t table h e = ground (arith, get-insert_sorted s.topic t.topic s table, e, h)

new_key :
    (s : Subscription) (table : List (String × Subscription))
    → get s.topic (insert_sorted s.topic s table) ≢ none
new_key s table e =
    ground (arith, get-insert_sorted s.topic s.topic s table, e, string_beq_iff s.topic s.topic)

-- A subscription that goes into both
pub add-IsListed :
    (s : Subscription) (m : TopicManager) (table : List (String × Subscription))
    → IsListed m table
    → IsListed (add s m) (insert_sorted s.topic s table)
unfolding add
add-IsListed s m table listed f t h =
    let at_filter = subs_at-insert_at (tokenize_topic s.topic) f s m.root in
    elim (Bool-cases (tokens_beq (tokenize_topic s.topic) f)) [
      | inl here ↦ elim (Memᴰ.append_cases (subs_at f m.root) (rw (at_filter, here) at h)) [
        | inl old ↦ let (stands, key) = listed f t old in (stands, kept_key s t table key)
        | inr last ↦ elim (Memᴰ.cases_cons last) [
          | inl same ↦
              subst
                (λ (x : Subscription).
                  (tokenize_topic x.topic ≡ f)
                  × (get x.topic (insert_sorted s.topic s table) ≢ none))
                (sym same) ((tokens_beq_iff (tokenize_topic s.topic) f).0 here, new_key s table)
          | inr later ↦ elim later [ ]
        ]
      ]
      | inr there ↦
          let (stands, key) = listed f t (rw (at_filter, there) at h) in
          (stands, kept_key s t table key)
    ]
