-- ===== src/Client/Renewed.antt =====
-- The renewal of the subscriptions against a server that grants each of them.
use mesquitte_client.Base.{
  ℕ, ◌<◌, ◌≡◌, refl, sym, ap, subst, ◌∙◌, true, false, Option, none, some, List, [], ◌∷◌, ◌++◌,
  String, if◌then◌else◌, arith, contains_key-get,
}
use mesquitte_client.Codec.{Codec}
use mesquitte_client.Subscription.{Subscription}
use mesquitte_client.Token.{Token, TokenState, state_of, token_beq_iff}
use mesquitte_client.Token.Laws.{done}
use mesquitte_client.Pkid.{PacketIds, get_token, free_id}
use mesquitte_client.Pkid.Issue.{IsFull}
use mesquitte_client.Packets.{VariablePacket, PacketAndToken, new_with}
use mesquitte_client.State.{Cache, World, State}
use mesquitte_client.Topics.{add}
use mesquitte_client.Net.{handle_suback}
use mesquitte_client.Net.Subscribing.{own_subscriptions, handle_suback_lem, subscribed, granted}
use mesquitte_client.Client.Shared.{Await, ready, hangs, MqttClient, is_connected}
use mesquitte_client.Client.Requests.{subscribe}
use mesquitte_client.Client.Waiting.{given, Sent, subscribe-Sent}
use mesquitte_client.Client.Subscribing.{undisturbed, own-given}
use mesquitte_client.Client.Renewing.{Renewal, awaited, is_complete, renew_one}

module _ {ℓ} {A : Type ℓ} where
  abbrev pub last : List A → Option A
  last [] = none
  last (x ∷ xs) = elim (last xs) [ none ↦ some x | some y ↦ some y ]

  last-append : (xs : List A) (y : A) → last (xs ++ y ∷ []) ≡ some y
  last-append [] y = refl
  last-append (x ∷ xs) y = rw (last-append xs y)

-- Not all identifiers are in use if none is.
vacant-IsFull : (ids : PacketIds) → ((j : ℕ) → get_token ids j ≡ none) → ¬ IsFull ids
unfolding get_token
vacant-IsFull ids v full =
    absurd (cc (full 1 (omega arith) (omega arith), contains_key-get 1 ids.index, v 1))

module _ {k : Codec} {c : Cache k.PublishPacket} (code : k.SubscribeReturnCode) where
  -- A server that answers the last packet in the channel, if it is a SUBSCRIBE for one topic
  abbrev pub answer_to : Option (PacketAndToken k) → World k c → World k c
  answer_to none w = w
  answer_to (some o) w = elim o.packet [
    | VariablePacket.subscribe id filters ↦ handle_suback id (code ∷ []) w
    | _ ↦ w
  ]

  abbrev pub answer : Option (List (PacketAndToken k)) → World k c → World k c
  answer none w = w
  answer (some sent) w = answer_to (last sent) w

  -- The renewal in which the packet is taken at once and the server's SUBACK comes next.
  abbrev pub answered : Renewal k c
  answered = record {
    wait = undisturbed;
    until = λ client. record client { world = answer client.world.state.outgoing_tx client.world };
  }

  -- A client that can renew: it is connected, no identifier is in use, the channel is open.
  pub record IsReady (client : MqttClient k c) : Type 0 where
    pub online : is_connected client ≡ true
    pub vacant : (j : ℕ) → get_token client.world.state.packet_ids j ≡ none
    pub small : client.world.state.packet_ids.last_issued_id < 65536
    pub sent : List (PacketAndToken k)
    pub channel : client.world.state.outgoing_tx ≡ some sent

  -- A subscription that is renewed.
  pub record Renews (sub : Subscription) (client : MqttClient k c) (r : Await (MqttClient k c))
      : Type 0 where
    pub after : MqttClient k c
    pub result : r ≡ ready after
    pub trie : after.world.state.topic_manager ≡ add sub client.world.state.topic_manager
    pub IsReady_after : IsReady after

  -- The answer to the SUBSCRIBE that was sent last.
  answer-Sent :
      {client : MqttClient k c} {sub : Subscription} {filter : k.TopicFilter}
      {sent : List (PacketAndToken k)}
      (s : Sent client sub filter sent (undisturbed {k = k} {c = c}))
      → let w : World k c = given client.world.tokens.subscribes.next sub s.before in
        answer w.state.outgoing_tx w ≡ handle_suback s.id (code ∷ []) w
  answer-Sent {client} {sub} {filter} {sent} s =
      let w : World k c = given client.world.tokens.subscribes.next sub s.before in
      ap (λ channel. answer channel w) s.channel ∙ ap (λ o. answer_to o w) (last-append sent _)

  renews :
      {client : MqttClient k c} {sub : Subscription} {filter : k.TopicFilter} (v : IsReady client)
      → Sent client sub filter v.sent (undisturbed {k = k} {c = c})
      → k.is_failure code ≡ false
      → Renews sub client (renew_one answered sub.topic sub client)
  unfolding renew_one subscribe free_id
  renews {client} {sub} v s good =
      let r = client.world.tokens.subscribes.next in
      let t = Token.subscribe r in
      let w : World k c = given r sub s.before in
      let w' : World k c = handle_suback s.id (code ∷ []) w in
      let settled : World k c → Await (MqttClient k c) = λ x.
        if is_complete t (record client { world = x })
        then ready (record client { world = x })
        else hangs in
      let (same, finished, _) = handle_suback_lem s.id r (code ∷ []) w s.waits in
      let all_granted : granted k.is_failure (code ∷ []) (own_subscriptions r w) ≡ sub ∷ [] =
        ap (granted k.is_failure (code ∷ [])) (own-given r sub s.before s.empty) ∙ (rw good) in
      let state : w'.state ≡ subscribed {c = c} s.id (sub ∷ []) w.state =
        same ∙ ap (λ subs. subscribed {c = c} s.id subs w.state) all_granted in
      let ended : state_of t w'.tokens ≡ done =
        finished.states t ∙ (rw ((token_beq_iff t t).1 refl)) in
      record {
        after = record client { world = w' };
        result =
            ap (awaited t answered) s.result
            ∙ ap settled (answer-Sent s)
            ∙ ap
                (λ (x : TokenState).
                  if x.complete then ready (record client { world = w' }) else hangs)
                ended;
        trie = ap (λ (x : State k c). x.topic_manager) state ∙ ap (add sub) s.trie;
        IsReady_after = record {
          online = v.online;
          vacant = λ j. ground (arith, finished.ids j, s.others j, v.vacant j);
          small =
              subst (λ n. n < 65536)
                (sym (ap (λ (x : State k c). x.packet_ids.last_issued_id) state)) s.last;
          sent = v.sent ++ new_with (VariablePacket.subscribe s.id ((_, sub.qos) ∷ [])) t ∷ [];
          channel = ap (λ (x : State k c). x.outgoing_tx) state ∙ s.channel;
        };
      }

  pub renew_one-Renews :
      (topic : String) (sub : Subscription) (filter : k.TopicFilter) (client : MqttClient k c)
      → IsReady client
      → topic ≡ sub.topic
      → k.topic_filter_new sub.topic ≡ some filter
      → k.is_failure code ≡ false
      → Renews sub client (renew_one answered topic sub client)
  renew_one-Renews topic sub filter client v named valid good =
      let free = vacant-IsFull client.world.state.packet_ids v.vacant in
      let s =
        subscribe-Sent sub filter undisturbed client v.sent v.online v.small free valid v.channel
          refl in
      subst (λ name. Renews sub client (renew_one answered name sub client)) (sym named)
        (renews v s good)
