-- ===== src/System/Renewal.antt =====
-- The table from which subscriptions are renewed has a filter of every subscription in the trie.
use mathlib.Core.List.{Memᴰ}
use mesquitte_client.Base.{
  ◌≡◌, ap, sym, subst, ◌∙◌, inl, inr, List, [], ◌∷◌, String, All, get, string_key, Mem-get,
  Option-cases,
}
use mesquitte_client.Codec.{Codec}
use mesquitte_client.Subscription.{Subscription}
use mesquitte_client.Topics.{TopicManager, match_topic, tokenize_topic}
use mesquitte_client.Topics.Listed.{IsListed}
use mesquitte_client.Trie.Matching.{Matches, mem-match_tokens_iff}
use mesquitte_client.Net.Sound.{IsNamed}
use mesquitte_client.Client.Restored.{entries}

named_entry :
    (k : Codec) (topic : String) (s : Subscription) (table : List (String × Subscription))
    → All (IsNamed k) table
    → Memᴰ (topic, s) table
    → (topic ≡ s.topic) × Memᴰ s (entries table)
named_entry k topic s [] named m = elim m [ ]
named_entry k topic s ((key, sub) ∷ table) ((name, _), named) (Memᴰ.head e) = (
  ap (λ p. p.0) e ∙ name ∙ ap (λ (p : String × Subscription). p.1.topic) (sym e),
  Memᴰ.head (ap (λ p. p.1) e),
)
named_entry k topic s ((key, sub) ∷ table) (_, named) (Memᴰ.tail m) =
    let (name, there) = named_entry k topic s table named m in (name, Memᴰ.tail there)

-- A subscription that a topic is delivered to has an entry with its filter, which the topic matches.
pub listed_entry :
    (k : Codec) (m : TopicManager) (table : List (String × Subscription)) (s : Subscription)
    (topic : String)
    → IsListed m table
    → All (IsNamed k) table
    → Memᴰ s (match_topic topic m)
    → (t : Subscription) × (t.topic ≡ s.topic)
      × Memᴰ t (entries table)
      × Matches (tokenize_topic t.topic) (tokenize_topic topic)
unfolding match_topic
listed_entry k m table s topic listed named h =
    let (f, fits, there) = (mem-match_tokens_iff s (tokenize_topic topic) m.root).0 h in
    let (stands, key) = listed f s there in
    elim (Option-cases (get s.topic table)) [
      | inl missing ↦ absurd (key missing)
      | inr (t, found) ↦
          let (name, entry) = named_entry k s.topic t table named (Mem-get s.topic t table found) in
          let filter = ap tokenize_topic (sym name) ∙ stands in
          (t, sym name, entry, subst (λ g. Matches g (tokenize_topic topic)) (sym filter) fits)
    ]
