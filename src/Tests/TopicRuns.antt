-- ===== src/Tests/TopicRuns.antt =====
-- Topics at concrete inputs.
use mathlib.Core.List.{Memᴰ}
use mesquitte_client.Base.{
  ℕ, ◌≡◌, ◌≢◌, ◌↔◌, arith, eq_iff, refl, List, [], ◌∷◌, String, string_beq, gather, true, false,
}
use mesquitte_client.Codec.{QualityOfService}
use mesquitte_client.Subscription.{Subscription}
use mesquitte_client.Trie.{TrieNode, new_node, insert_at, remove_at, match_tokens, clear_node}
use mesquitte_client.Trie.Paths.{subs_at}
use mesquitte_client.Trie.Matching.{Matches, filters, match_tokens-filters, parent_level_missed}
use mesquitte_client.Topics.{
  tokenize_topic, split_slash, join, join-tokenize_topic, TopicManager, topic_manager_new, add,
  remove, match_topic, clear,
}
use mesquitte_client.Topics.Abstract.{
  deliveries, stored, add_to, remove_from, clear_all, store_laws,
}
use mesquitte_client.Topics.Laws.{
  TopicOp, adds, removes, run_topics, spec_topics, Implements, mem-match_topic_iff,
  run_topics_new-Implements,
}

abbrev sub : String → ℕ → Subscription
sub topic handler = record { topic = topic; qos = QualityOfService.level0; handler = handler }

-- The test of the source file.
abbrev history : List TopicOp
history =
    adds (sub "sport/football" 1)
    ∷ adds (sub "sport/+/news" 2)
    ∷ adds (sub "sport/#" 3)
    ∷ removes "sport/#"
    ∷ []

source_test :
    (match_topic "sport/football/news" (run_topics history topic_manager_new)
      ≡ sub "sport/+/news" 2 ∷ [])
    × (match_topic "sport/football" (clear (run_topics history topic_manager_new)) ≡ [])
unfolding match_topic match_tokens run_topics add remove clear topic_manager_new insert_at remove_at
    tokenize_topic split_slash string_beq clear_node
source_test = (refl, refl)

mem-match_topic_iff_example :
    Memᴰ
      (sub "sport/+/news" 2)
      (match_topic "sport/football/news" (run_topics history topic_manager_new))
    ↔ (Memᴰ (sub "sport/+/news" 2) (spec_topics history [])
        × Matches (tokenize_topic "sport/+/news") (tokenize_topic "sport/football/news"))
mem-match_topic_iff_example =
    mem-match_topic_iff history (sub "sport/+/news" 2) "sport/football/news"

run_topics_new-Implements_example :
    Implements (run_topics history topic_manager_new) (spec_topics history [])
run_topics_new-Implements_example = run_topics_new-Implements history

abbrev small : TrieNode
small = insert_at ("a" ∷ "#" ∷ []) (sub "a/#" 1) new_node

match_tokens-filters_example :
    match_tokens ("a" ∷ "b" ∷ []) small ≡ gather (λ f. subs_at f small) (filters ("a" ∷ "b" ∷ []))
match_tokens-filters_example = match_tokens-filters ("a" ∷ "b" ∷ []) small

-- A subscription to "a/#" matches "a/b" and not "a".
below_only :
    (match_tokens ("a" ∷ "b" ∷ []) small ≡ sub "a/#" 1 ∷ []) × (match_tokens ("a" ∷ []) small ≡ [])
unfolding match_tokens insert_at string_beq
below_only = (refl, refl)

parent_level_missed_example :
    match_tokens ("a" ∷ []) (insert_at ("a" ∷ "#" ∷ []) (sub "a/#" 1) new_node)
    ≡ match_tokens ("a" ∷ []) new_node
parent_level_missed_example = parent_level_missed ("a" ∷ []) (sub "a/#" 1) new_node

join-tokenize_topic_example : join (tokenize_topic "/a//b") ≡ "/a//b"
join-tokenize_topic_example = join-tokenize_topic "/a//b"

tokens_test : tokenize_topic "/a//b" ≡ "" ∷ "a" ∷ "" ∷ "b" ∷ []
unfolding tokenize_topic split_slash
tokens_test = refl

abbrev football : Subscription
football = sub "sport/football" 1

abbrev every_news : Subscription
every_news = sub "sport/+/news" 2

abbrev two_filters : TopicManager
two_filters = run_topics history topic_manager_new

filters_apart : football.topic ≢ every_news.topic
filters_apart e = ground (arith, eq_iff "sport/football" "sport/+/news")

-- After `clear` the path is still there, and `remove` answers so.
cleared_and_new :
    ((remove "a" (clear (add (sub "a" 1) topic_manager_new))).1 ≡ true)
    × ((remove "a" topic_manager_new).1 ≡ false)
unfolding add remove clear topic_manager_new insert_at remove_at clear_node tokenize_topic
    string_beq split_slash
cleared_and_new = (refl, refl)

store_laws_example :
    (deliveries "sport/football" (stored two_filters) ≡ match_topic "sport/football" two_filters)
    × (add_to football (add_to every_news (stored two_filters))
        ≡ add_to every_news (add_to football (stored two_filters)))
    × (remove_from "sport/+/news" (add_to football (stored two_filters))
        ≡ add_to football (remove_from "sport/+/news" (stored two_filters)))
    × (remove_from "sport/football" (remove_from "sport/+/news" (stored two_filters))
        ≡ remove_from "sport/+/news" (remove_from "sport/football" (stored two_filters)))
    × (remove_from "sport/football" (add_to football (stored two_filters))
        ≡ remove_from "sport/football" (stored two_filters))
    × (clear_all (stored two_filters) ≡ stored topic_manager_new)
store_laws_example =
    store_laws football every_news (stored two_filters) two_filters "sport/football" filters_apart
