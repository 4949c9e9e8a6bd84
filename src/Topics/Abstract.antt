-- ===== src/Topics/Abstract.antt =====
-- src/topic_trie.rs: `TopicManager` up to what stands at the filters, a quotient in which the shape of the
-- trie is forgotten, and with it the Boolean answer of `remove`, which src/net.rs does not use: it tells a
-- path without subscriptions from one that is not there, as after `clear`.
use mathlib.Core.Path.{fun_ext}
use mathlib.Core.Quot
use mathlib.Core.Quot.{Quot, Quot-set}
use mathlib.Core.HLevel.{hedberg}
use native.Mathlib.Decide.{ℕ_discrete}
use mesquitte_client.Base.{
  ◌≡◌, ◌≢◌, refl, sym, ◌∙◌, List, String, arith, string_beq_iff, ◌==◌, string_key, Bool-cases, inl,
  inr,
}
use mesquitte_client.Subscription.{Subscription}
use mesquitte_client.Trie.Paths.{
  subs_at, tokens_beq_iff, subs_at-insert_at, subs_at-remove_at, subs_at-clear_node, subs_at-new,
}
use mesquitte_client.Trie.Matching.{match_tokens-filters}
use mesquitte_client.Topics.Tokens.{tokenize_topic}
use mesquitte_client.Topics.Laws.{tokens_of_topic}
use mesquitte_client.Topics.Manager.{
  TopicManager, topic_manager_new, add, remove, match_topic, clear,
}

-- The same subscriptions stand at each filter.
abbrev Same : TopicManager → TopicManager → Type 0
Same m m' = (f : List String) → subs_at f m.root ≡ subs_at f m'.root

add-Same : (s : Subscription) (m m' : TopicManager) → Same m m' → Same (add s m) (add s m')
unfolding add
add-Same s m m' h f = ground (
  arith,
  h f,
  subs_at-insert_at (tokenize_topic s.topic) f s m.root,
  subs_at-insert_at (tokenize_topic s.topic) f s m'.root,
)

remove-Same :
    (topic : String) (m m' : TopicManager) → Same m m' → Same (remove topic m).0 (remove topic m').0
unfolding remove
remove-Same topic m m' h f = ground (
  arith,
  h f,
  subs_at-remove_at (tokenize_topic topic) f m.root,
  subs_at-remove_at (tokenize_topic topic) f m'.root,
)

clear-Same : (m m' : TopicManager) → Same (clear m) (clear m')
unfolding clear
clear-Same m m' f = subs_at-clear_node f m.root ∙ sym (subs_at-clear_node f m'.root)

match_topic-Same :
    (topic : String) (m m' : TopicManager) → Same m m' → match_topic topic m ≡ match_topic topic m'
unfolding match_topic
match_topic-Same topic m m' h = rw (
  match_tokens-filters (tokenize_topic topic) m.root,
  match_tokens-filters (tokenize_topic topic) m'.root,
  fun_ext h,
)

-- What `TopicManager` is to its users.
abbrev pub Store : Type 0
Store = Quot Same

abbrev pub stored : TopicManager → Store
stored m = Quot.mk m

pub add_to : Subscription → Store → Store
add_to s = Quot.lift Quot-set (λ m. stored (add s m)) (λ m m' h. Quot.sound (add-Same s m m' h))

pub remove_from : String → Store → Store
remove_from topic =
    Quot.lift Quot-set (λ m. stored (remove topic m).0)
      (λ m m' h. Quot.sound (remove-Same topic m m' h))

pub clear_all : Store → Store
clear_all = Quot.lift Quot-set (λ m. stored (clear m)) (λ m m' h. Quot.sound (clear-Same m m'))

String_discrete : Discrete String
String_discrete s t = elim (Bool-cases (s == t)) [
  | inl same ↦ yes ((string_beq_iff s t).0 same)
  | inr other ↦ no (λ e. cc ((string_beq_iff s t).1 e, other))
]

Subscriptions_discrete : Discrete (List Subscription)
Subscriptions_discrete = hlevel (String_discrete, ℕ_discrete)

pub deliveries : String → Store → List Subscription
deliveries topic =
    Quot.lift (hedberg Subscriptions_discrete) (match_topic topic) (match_topic-Same topic)

-- At different filters
module _ (s t : Subscription) (apart : s.topic ≢ t.topic) (m : TopicManager) where
  add_comm-Same : Same (add s (add t m)) (add t (add s m))
  unfolding add
  add_comm-Same f = ground (
    arith,
    subs_at-insert_at (tokenize_topic s.topic) f s (add t m).root,
    subs_at-insert_at (tokenize_topic t.topic) f t m.root,
    subs_at-insert_at (tokenize_topic t.topic) f t (add s m).root,
    subs_at-insert_at (tokenize_topic s.topic) f s m.root,
    tokens_of_topic s.topic t.topic,
    string_beq_iff s.topic t.topic,
    tokens_beq_iff (tokenize_topic s.topic) f,
    tokens_beq_iff (tokenize_topic t.topic) f,
    tokens_beq_iff (tokenize_topic s.topic) (tokenize_topic t.topic),
  )

  remove-add-Same : Same (remove t.topic (add s m)).0 (add s (remove t.topic m).0)
  unfolding add remove
  remove-add-Same f = ground (
    arith,
    subs_at-remove_at (tokenize_topic t.topic) f (add s m).root,
    subs_at-insert_at (tokenize_topic s.topic) f s m.root,
    subs_at-insert_at (tokenize_topic s.topic) f s (remove t.topic m).0.root,
    subs_at-remove_at (tokenize_topic t.topic) f m.root,
    tokens_of_topic s.topic t.topic,
    string_beq_iff s.topic t.topic,
    tokens_beq_iff (tokenize_topic s.topic) f,
    tokens_beq_iff (tokenize_topic t.topic) f,
    tokens_beq_iff (tokenize_topic s.topic) (tokenize_topic t.topic),
  )

-- At any two filters, or one
module _ (x y : String) (m : TopicManager) where
  remove_comm-Same : Same (remove x (remove y m).0).0 (remove y (remove x m).0).0
  unfolding remove
  remove_comm-Same f = ground (
    arith,
    subs_at-remove_at (tokenize_topic x) f (remove y m).0.root,
    subs_at-remove_at (tokenize_topic y) f m.root,
    subs_at-remove_at (tokenize_topic y) f (remove x m).0.root,
    subs_at-remove_at (tokenize_topic x) f m.root,
  )

remove-add_self-Same :
    (s : Subscription) (m : TopicManager) → Same (remove s.topic (add s m)).0 (remove s.topic m).0
unfolding add remove
remove-add_self-Same s m f = ground (
  arith,
  subs_at-remove_at (tokenize_topic s.topic) f (add s m).root,
  subs_at-insert_at (tokenize_topic s.topic) f s m.root,
  subs_at-remove_at (tokenize_topic s.topic) f m.root,
)

clear-new-Same : (m : TopicManager) → Same (clear m) topic_manager_new
unfolding clear topic_manager_new
clear-new-Same m f = subs_at-clear_node f m.root ∙ sym (subs_at-new f)

-- What is delivered on a topic depends only on which subscriptions stand at which filter. Two managers that
-- agree on that are taken for one, although `remove`, whose answer its caller ignores, may answer
-- differently on them. Up to that: for different filters adding commutes with adding and with removing;
-- removing commutes with removing; removing a filter after an addition to it is the same as removing it
-- without the addition; and clearing gives the same as a new manager.
pub store_laws :
    (s t : Subscription) (q : Store) (m : TopicManager) (topic : String)
    → s.topic ≢ t.topic
    → (deliveries topic (stored m) ≡ match_topic topic m)
      × (add_to s (add_to t q) ≡ add_to t (add_to s q))
      × (remove_from t.topic (add_to s q) ≡ add_to s (remove_from t.topic q))
      × (remove_from s.topic (remove_from t.topic q) ≡ remove_from t.topic (remove_from s.topic q))
      × (remove_from s.topic (add_to s q) ≡ remove_from s.topic q)
      × (clear_all q ≡ stored topic_manager_new)
unfolding add_to remove_from clear_all deliveries
store_laws s t q m topic apart = (
  refl,
  Quot.ind {β = λ q. add_to s (add_to t q) ≡ add_to t (add_to s q)} (λ q. Quot-set _ _)
      (λ m. Quot.sound (add_comm-Same s t apart m)) q,
  Quot.ind {β = λ q. remove_from t.topic (add_to s q) ≡ add_to s (remove_from t.topic q)}
      (λ q. Quot-set _ _) (λ m. Quot.sound (remove-add-Same s t apart m)) q,
  Quot.ind
      {β = λ q.
        remove_from s.topic (remove_from t.topic q) ≡ remove_from t.topic (remove_from s.topic q)}
      (λ q. Quot-set _ _) (λ m. Quot.sound (remove_comm-Same s.topic t.topic m)) q,
  Quot.ind {β = λ q. remove_from s.topic (add_to s q) ≡ remove_from s.topic q} (λ q. Quot-set _ _)
      (λ m. Quot.sound (remove-add_self-Same s m)) q,
  Quot.ind {β = λ q. clear_all q ≡ stored topic_manager_new} (λ q. Quot-set _ _)
      (λ m. Quot.sound (clear-new-Same m)) q,
)
