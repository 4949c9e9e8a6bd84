-- ===== src/Client/Restored.antt =====
-- All the subscriptions of the table, after a connection without a session.
use mathlib.Core.List.{append-nil, append_assoc, Memᴰ}
use mesquitte_client.Base.{
  ◌<◌, ◌≡◌, refl, sym, ap, subst, ◌∙◌, ◌↔◌, true, false, some, List, [], ◌∷◌, ◌++◌, String, All,
}
use mesquitte_client.Codec.{Codec}
use mesquitte_client.Subscription.{Subscription}
use mesquitte_client.Pkid.Cleanup.{clean_up_lem}
use mesquitte_client.Packets.{PacketAndToken}
use mesquitte_client.State.{Cache}
use mesquitte_client.Topics.{match_topic, tokenize_topic}
use mesquitte_client.Topics.Laws.{
  Implements, adds, run_topic, run_topic-Implements, clear-Implements, match_topic-Implements,
}
use mesquitte_client.Trie.Matching.{Matches}
use mesquitte_client.Net.Sound.{IsNamed}
use mesquitte_client.Client.Shared.{Await, ready, hangs, panics, MqttClient, is_connected}
use mesquitte_client.Client.Renewing.{resubscribe, start_over, renew_session}
use mesquitte_client.Client.Renewed.{answered, IsReady, renew_one-Renews}

abbrev pub entries : List (String × Subscription) → List Subscription
entries [] = []
entries ((topic, sub) ∷ table) = sub ∷ entries table

module _ {k : Codec} {c : Cache k.PublishPacket} (code : k.SubscribeReturnCode) where
  -- The renewal ends, and the trie then holds these subscriptions.
  record Restores (l : List Subscription) (r : Await (MqttClient k c)) : Type 0 where
    after : MqttClient k c
    result : r ≡ ready after
    trie : Implements after.world.state.topic_manager l

  resubscribe-Restores :
      (table : List (String × Subscription)) (l : List Subscription) (client : MqttClient k c)
      → IsReady code client
      → All (IsNamed k) table
      → k.is_failure code ≡ false
      → Implements client.world.state.topic_manager l
      → Restores (l ++ entries table) (resubscribe (λ topic. answered code) table client)
  unfolding resubscribe run_topic
  resubscribe-Restores [] l client v named good held = record {
    after = client;
    result = refl;
    trie = subst (Implements client.world.state.topic_manager) (sym (append-nil l)) held;
  }
  resubscribe-Restores ((topic, sub) ∷ table) l client v ((same, (filter, valid)), named) good
        held =
      let one = renew_one-Renews code topic sub filter client v same valid good in
      let added =
        subst (λ m. Implements m (l ++ sub ∷ [])) (sym one.trie)
          (run_topic-Implements (adds sub) client.world.state.topic_manager l held) in
      let rest =
        resubscribe-Restores table (l ++ sub ∷ []) one.after one.IsReady_after named good added in
      record {
        after = rest.after;
        result =
            ap
              (λ (a : Await (MqttClient k c)). elim a [
                | ready client' ↦ resubscribe (λ topic. answered code) table client'
                | hangs ↦ hangs
                | panics ↦ panics
              ])
              one.result
            ∙ rest.result;
        trie =
            subst (Implements rest.after.world.state.topic_manager)
              (append_assoc l (sub ∷ []) (entries table)) rest.trie;
      }

-- On a connected client with an open channel, where the last identifier issued fits 16 bits and each
-- entry of the table has the name of its topic, which is a valid filter, the renewal after a connection
-- without a session ends, against a server that grants each subscription in its turn; a topic is then
-- delivered to exactly the subscriptions of the table whose filter matches it, whatever the trie and
-- the identifiers in use were before.
pub renew_session_lem :
    {k : Codec} {c : Cache k.PublishPacket} (client : MqttClient k c)
    (sent : List (PacketAndToken k)) (code : k.SubscribeReturnCode)
    → is_connected client ≡ true
    → client.world.state.packet_ids.last_issued_id < 65536
    → client.world.state.outgoing_tx ≡ some sent
    → All (IsNamed k) client.world.state.subscriptions
    → k.is_failure code ≡ false
    → (client' : MqttClient k c) × (renew_session false (λ topic. answered code) client
        ≡ ready client')
      × ((s : Subscription) (topic : String)
          → Memᴰ s (match_topic topic client'.world.state.topic_manager) ↔ (
              Memᴰ s (entries client.world.state.subscriptions)
              × Matches (tokenize_topic s.topic) (tokenize_topic topic)))
unfolding renew_session start_over
renew_session_lem client sent code online small channel named good =
    let ids = client.world.state.packet_ids in
    let (vacant, last, _, _) = clean_up_lem ids client.world.tokens in
    let v : IsReady code (start_over client) = record {
      online = online;
      vacant = vacant;
      small = subst (λ n. n < 65536) (sym last) small;
      sent = sent;
      channel = channel;
    } in
    let restored =
      resubscribe-Restores code client.world.state.subscriptions [] (start_over client) v named good
        (clear-Implements client.world.state.topic_manager) in
    (
      restored.after,
      restored.result,
      λ s topic.
          match_topic-Implements restored.after.world.state.topic_manager
            (entries client.world.state.subscriptions) s topic restored.trie,
    )
