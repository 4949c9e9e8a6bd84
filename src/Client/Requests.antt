-- ===== src/Client/Requests.antt =====
-- `subscribe`, `subscribe_multiple` and `unsubscribe`.
use mesquitte_client.Base.{ℕ, Option, none, some, List, [], ◌∷◌, String}
use mesquitte_client.Codec.{Codec, QualityOfService}
use mesquitte_client.Subscription.{Subscription, subscription_new}
use mesquitte_client.Token.{
  invalid_topic, Token, modify, add_subscriptions, add_topic, new_subscribe, new_unsubscribe,
}
use mesquitte_client.Packets.{VariablePacket}
use mesquitte_client.State.{Cache, World}
use mesquitte_client.Client.Shared.{
  MqttClient, Wait, reject, hand_over, numbered, put, when_connected,
}

-- The loop of `subscribe_multiple`: the first topic that is refused ends it.
unfoldable pub filters_of :
    (k : Codec)
    → List (String × QualityOfService)
    → Option (List (k.TopicFilter × QualityOfService))
filters_of k [] = some []
filters_of k ((topic, qos) ∷ topics) =
    let rest = filters_of k topics in
    elim (k.topic_filter_new topic) [
      | none ↦ none
      | some filter ↦ elim rest [ none ↦ none | some fs ↦ some ((filter, qos) ∷ fs) ]
    ]

abbrev pub subscriptions_of : List (String × QualityOfService) → ℕ → List Subscription
subscriptions_of [] callback = []
subscriptions_of ((topic, qos) ∷ topics) callback =
    subscription_new topic qos callback ∷ subscriptions_of topics callback

module _ {k : Codec} {c : Cache k.PublishPacket} where
  -- `token.add_subscriptions(…)`, after the packet was sent
  abbrev pub then_add : ℕ → List Subscription → Option (World k c) → Option (World k c)
  then_add r subs none = none
  then_add r subs (some w) = some (record w {
    tokens = record (w.tokens) {
      subscribes = modify r (add_subscriptions subs) w.tokens.subscribes;
    };
  })

  -- `subscribe` and `subscribe_multiple` from the check of the topics on
  unfoldable pub subscribe_packet :
      ℕ
      → Option (List (k.TopicFilter × QualityOfService))
      → List Subscription
      → Wait k c
      → ℕ
      → World k c
      → Option (World k c)
  unfolding hand_over
  subscribe_packet r none subs wait pkid w = some (reject invalid_topic (Token.subscribe r) w)
  subscribe_packet r (some subscribes) subs wait pkid w =
      then_add r subs
        (hand_over (VariablePacket.subscribe pkid subscribes) (Token.subscribe r) wait w)

  unfoldable pub subscribe_multiple :
      (topics : List (String × QualityOfService)) (callback : ℕ)
      → Wait k c
      → MqttClient k c
      → ℕ × Option (MqttClient k c)
  unfolding subscribe_packet numbered filters_of
  subscribe_multiple topics callback wait client =
      let (r, tokens) = new_subscribe client.world.tokens in
      (
        r,
        put client (
            when_connected client (Token.subscribe r) (record (client.world) { tokens = tokens })
              (numbered (Token.subscribe r) (
                subscribe_packet r (filters_of k topics) (subscriptions_of topics callback) wait))),
      )

  -- The warning on topics that overlap only writes to the log.
  unfoldable pub subscribe :
      (topic : String) (qos : QualityOfService) (callback : ℕ)
      → Wait k c
      → MqttClient k c
      → ℕ × Option (MqttClient k c)
  unfolding subscribe_packet numbered
  subscribe topic qos callback wait client =
      let (r, tokens) = new_subscribe client.world.tokens in
      let filters : Option (List (k.TopicFilter × QualityOfService)) =
        elim (k.topic_filter_new topic) [ none ↦ none | some filter ↦ some ((filter, qos) ∷ []) ] in
      (
        r,
        put client (
            when_connected client (Token.subscribe r) (record (client.world) { tokens = tokens })
              (numbered (Token.subscribe r)
                (subscribe_packet r filters (subscription_new topic qos callback ∷ []) wait))),
      )

  -- The loop of `unsubscribe`: the topics before the first refused one stay on the token.
  unfoldable pub name_topics : List String → ℕ → World k c → World k c × Option (List k.TopicFilter)
  name_topics [] r w = (w, some [])
  name_topics (topic ∷ topics) r w =
      let named : World k c = record w {
        tokens = record (w.tokens) {
          unsubscribes = modify r (add_topic topic) w.tokens.unsubscribes;
        };
      } in
      let (w', rest) = name_topics topics r named in
      elim (k.topic_filter_new topic) [
        | none ↦ (w, none)
        | some filter ↦ (w', elim rest [ none ↦ none | some fs ↦ some (filter ∷ fs) ])
      ]

  -- `unsubscribe` from its loop on
  unfoldable pub unsubscribe_packet :
      ℕ → List String → Wait k c → ℕ → World k c → Option (World k c)
  unfolding hand_over name_topics
  unsubscribe_packet r topics wait pkid w =
      let (w', unsubscribes) = name_topics topics r w in
      elim unsubscribes [
        | none ↦ some (reject invalid_topic (Token.unsubscribe r) w')
        | some fs ↦ hand_over (VariablePacket.unsubscribe pkid fs) (Token.unsubscribe r) wait w'
      ]

  unfoldable pub unsubscribe : List String → Wait k c → MqttClient k c → ℕ × Option (MqttClient k c)
  unfolding unsubscribe_packet numbered
  unsubscribe topics wait client =
      let (r, tokens) = new_unsubscribe client.world.tokens in
      (
        r,
        put client (
            when_connected client (Token.unsubscribe r) (record (client.world) { tokens = tokens })
              (numbered (Token.unsubscribe r) (unsubscribe_packet r topics wait))),
      )
