-- ===== src/Client/Subscribing.antt =====
-- Subscriptions, from the caller to the SUBACK.
use mesquitte_client.Base.{
  ℕ, ◌<◌, ◌≡◌, refl, sym, ap, ◌∙◌, true, false, some, List, [], ◌∷◌, ◌++◌, insert_sorted,
}
use mesquitte_client.Codec.{Codec}
use mesquitte_client.Subscription.{Subscription}
use mesquitte_client.Token.{SubscribeOwn, Token, state_of, token_beq_iff, add_subscriptions}
use mesquitte_client.Token.Laws.{done}
use mesquitte_client.Pkid.{get_id, get_token}
use mesquitte_client.Pkid.Issue.{IsFull}
use mesquitte_client.Packets.{PacketAndToken}
use mesquitte_client.Topics.{add}
use mesquitte_client.State.{Cache, World, State}
use mesquitte_client.Net.{handle_suback}
use mesquitte_client.Net.Subscribing.{
  own_subscriptions, own-modify, tokens_kept, handle_suback_lem, subscribed, granted,
}
use mesquitte_client.Net.Unsubscribing.{suback_before_subscriptions}
use mesquitte_client.Client.Shared.{MqttClient, is_connected, Wait}
use mesquitte_client.Client.Requests.{subscribe}
use mesquitte_client.Client.Waiting.{given, subscribe-Sent}

module _ {k : Codec} {c : Cache k.PublishPacket} where
  pub own-given :
      (r : ℕ) (sub : Subscription) (w : World k c)
      → own_subscriptions r w ≡ []
      → own_subscriptions r (given r sub w) ≡ sub ∷ []
  unfolding add_subscriptions
  own-given r sub w h =
      ap (λ (own : SubscribeOwn k). own.subscriptions)
        (own-modify r (add_subscriptions (sub ∷ [])) w.tokens.subscribes)
      ∙ ap (λ subs. subs ++ sub ∷ []) h

  -- Only the sending task runs while the packet goes into the channel.
  abbrev pub undisturbed : Wait k c
  undisturbed = record { accepted = true; others = λ w. w }

  -- The reading task handles the SUBACK before the subscribing task runs on.
  abbrev pub overtaken : ℕ → List k.SubscribeReturnCode → Wait k c
  overtaken id codes = record { accepted = true; others = handle_suback id codes }

-- On a connected client with an open channel, where the last identifier issued fits 16 bits and
-- not all identifiers are in use, a subscription to a valid topic, sent while no other task runs,
-- takes an identifier, and a SUBACK that then grants it under this identifier puts the
-- subscription into the trie and into the table and completes the token.
pub subscribe_then_granted :
    {k : Codec} {c : Cache k.PublishPacket} (sub : Subscription) (filter : k.TopicFilter)
    (client : MqttClient k c) (sent : List (PacketAndToken k)) (code : k.SubscribeReturnCode)
    → is_connected client ≡ true
    → client.world.state.packet_ids.last_issued_id < 65536
    → ¬ IsFull client.world.state.packet_ids
    → k.topic_filter_new sub.topic ≡ some filter
    → client.world.state.outgoing_tx ≡ some sent
    → k.is_failure code ≡ false
    → let (r, client') = subscribe sub.topic sub.qos sub.handler undisturbed client in
      (id : ℕ) × (w : World k c) × (client' ≡ some (record client { world = w }))
      × (get_token w.state.packet_ids id ≡ some (Token.subscribe r))
      × (let w' = handle_suback id (code ∷ []) w in
          (w'.state.topic_manager ≡ add sub client.world.state.topic_manager)
          × (w'.state.subscriptions ≡ insert_sorted sub.topic sub client.world.state.subscriptions)
          × (state_of (Token.subscribe r) w'.tokens ≡ done))
unfolding subscribe
subscribe_then_granted {k} {c} sub filter client sent code h low free valid channel good =
    let r = client.world.tokens.subscribes.next in
    let s = subscribe-Sent sub filter undisturbed client sent h low free valid channel refl in
    let w = given r sub s.before in
    let (same, finished, _) = handle_suback_lem s.id r (code ∷ []) w s.waits in
    let all_granted : granted k.is_failure (code ∷ []) (own_subscriptions r w) ≡ sub ∷ [] =
      ap (granted k.is_failure (code ∷ [])) (own-given r sub s.before s.empty) ∙ (rw good) in
    let state = same ∙ ap (λ subs. subscribed {c = c} s.id subs w.state) all_granted in
    (
      s.id,
      w,
      s.result,
      s.waits,
      (
        ap (λ (x : State k c). x.topic_manager) state ∙ ap (add sub) s.trie,
        ap (λ (x : State k c). x.subscriptions) state ∙ ap (insert_sorted sub.topic sub) s.table,
        finished.states (Token.subscribe r)
            ∙ (rw ((token_beq_iff (Token.subscribe r) (Token.subscribe r)).1 refl)),
      ),
    )

-- On a connected client with an open channel, where the last identifier issued fits 16 bits and
-- not all identifiers are in use, a subscription to a valid topic whose SUBACK is handled before
-- the subscribing task runs on has its token complete as on a success, but the trie and the table
-- have nothing of the subscription, whatever the server granted.
pub subscribe-overtaken :
    {k : Codec} {c : Cache k.PublishPacket} (sub : Subscription) (filter : k.TopicFilter)
    (client : MqttClient k c) (sent : List (PacketAndToken k)) (codes : List k.SubscribeReturnCode)
    → is_connected client ≡ true
    → client.world.state.packet_ids.last_issued_id < 65536
    → ¬ IsFull client.world.state.packet_ids
    → k.topic_filter_new sub.topic ≡ some filter
    → client.world.state.outgoing_tx ≡ some sent
    → let t = Token.subscribe client.world.tokens.subscribes.next in
      let wait = overtaken (get_id client.world.state.packet_ids t).1 codes in
      (w : World k c) × ((subscribe sub.topic sub.qos sub.handler wait client).1
        ≡ some (record client { world = w }))
      × (w.state.topic_manager ≡ client.world.state.topic_manager)
      × (w.state.subscriptions ≡ client.world.state.subscriptions)
      × (state_of t w.tokens ≡ done)
subscribe-overtaken sub filter client sent codes h low free valid channel =
    let r = client.world.tokens.subscribes.next in
    let id = (get_id client.world.state.packet_ids (Token.subscribe r)).1 in
    let s =
      subscribe-Sent sub filter (overtaken id codes) client sent h low free valid channel refl in
    let waits = ap (get_token s.before.state.packet_ids) (sym s.number) ∙ s.waits in
    let (trie, table, ended) = suback_before_subscriptions id r codes s.before waits s.empty in
    let w = handle_suback id codes s.before in
    (
      given r sub w,
      s.result,
      trie ∙ s.trie,
      table ∙ s.table,
      (tokens_kept r (add_subscriptions (sub ∷ [])) w.tokens (Token.subscribe r)).0 ∙ ended,
    )
