-- ===== src/System/Operations.antt =====
-- The caller's operations, from a client as it is at any time.
use mesquitte_client.Base.{
  ℕ, ◌≡◌, ◌≢◌, refl, inl, inr, Bool, true, Option, none, some, List, [], ◌∷◌, String, All, nat_key,
  nat_beq, Bool-cases,
}
use mesquitte_client.Codec.{Codec, QualityOfService}
use mesquitte_client.Subscription.{Subscription, subscription_new}
use mesquitte_client.Token.{
  Token, Tokens, modify, connection_lost, new_subscribe, set_qos, new_publish, new_unsubscribe,
  new_disconnect, default_subscribe,
}
use mesquitte_client.Packets.{VariablePacket}
use mesquitte_client.State.{Cache, World}
use mesquitte_client.Options.{ClientOptions}
use mesquitte_client.Net.Sound.{Sound, IsAllowed}
use mesquitte_client.Client.{
  MqttClient, is_connected, Wait, hand_over, reject, numbered, put, when_connected, publish_packet,
  publish_level, publish, disconnect, filters_of, subscriptions_of, subscribe_packet, subscribe,
  subscribe_multiple, unsubscribe_packet, unsubscribe,
}
use mesquitte_client.System.{Waits}
use mesquitte_client.System.Keeping.{IsOpen, Keeps, trans-Keeps, Goes-Keeps, tokens-Goes}
use mesquitte_client.System.Sending.{
  Runs, trans-Runs, reject-Keeps, hand_over-Runs, numbered-Runs, publish_packet-Runs,
  publish_level-Runs,
}
use mesquitte_client.System.Requests.{
  if-Allowed, filters_of-Allowed, filter_of, filter_of-Allowed, subscribe_packet-Runs,
  unsubscribe_packet-Runs,
}

module _ {k : Codec} {c : Cache k.PublishPacket} where
  -- A new token that holds no subscription.
  tokens-Keeps :
      (w : World k c) (ts : Tokens k)
      → ((r : ℕ) → (ts.subscribes.cell r).own ≡ (w.tokens.subscribes.cell r).own)
      → Sound w
      → Keeps w (record w { tokens = ts })
  tokens-Keeps w ts own v = Goes-Keeps w _ (tokens-Goes w ts own v)

  new_subscribe-Keeps :
      (w : World k c) → Sound w → Keeps w (record w { tokens = (new_subscribe w.tokens).1 })
  new_subscribe-Keeps w v = record {
    sound = record {
      ids = v.ids;
      table = v.table;
      listed = v.listed;
      heap = λ s.
          if-Allowed (nat_beq w.tokens.subscribes.next s) (default_subscribe k)
            (w.tokens.subscribes.cell s) tt (v.heap s);
    };
    open_channel = λ h. h;
  }

module _ {k : Codec} {c : Cache k.PublishPacket} (options : ClientOptions) where
  -- A client with these options at any time: a connected one has a channel.
  pub record IsFit (client : MqttClient k c) : Type 0 where
    pub same : client.options ≡ options
    pub sound : Sound client.world
    pub open_channel : is_connected client ≡ true → IsOpen client.world

  -- The operation does not panic.
  abbrev pub Continues : Option (MqttClient k c) → Type 0
  Continues none = ⊥
  Continues (some client) = IsFit client

  put-Continues :
      (client : MqttClient k c) (r : Option (World k c))
      → IsFit client
      → Runs client.world r
      → Continues (put client r)
  put-Continues client none v h = h
  put-Continues client (some w) v h = record {
    same = v.same;
    sound = h.sound;
    open_channel = λ e. h.open_channel (v.open_channel e);
  }

  when_connected-Runs :
      (client : MqttClient k c) (t : Token) (w : World k c) (rest : World k c → Option (World k c))
      → IsFit client
      → Keeps client.world w
      → (Sound w → IsOpen w → Runs w (rest w))
      → Runs client.world (when_connected client t w rest)
  when_connected-Runs client t w rest v a h = elim (Bool-cases (is_connected client)) [
    | inl online ↦
        rw online (trans-Runs (rest w) a (h a.sound (a.open_channel (v.open_channel online))))
    | inr offline ↦ rw offline (trans-Keeps a (reject-Keeps connection_lost t w a.sound))
  ]

  pub publish-Continues :
      (topic : String) (qos : QualityOfService) (retained : Bool) (payload : List ℕ)
      (wait : Wait k c) (client : MqttClient k c)
      → Waits wait
      → IsFit client
      → Continues (publish topic qos retained payload wait client).1
  unfolding publish
  publish-Continues topic qos retained payload wait client waits v =
      let (r, tokens) = new_publish client.world.tokens in
      let w : World k c = record (client.world) {
        tokens = record tokens { publishes = modify r (set_qos qos) tokens.publishes };
      } in
      let rest = publish_level qos r (publish_packet r topic retained payload wait) in
      put-Continues client (when_connected client (Token.publish r) w rest) v (
        when_connected-Runs client (Token.publish r) w rest v
          (tokens-Keeps client.world w.tokens (λ s. refl) v.sound)
          (λ sound channel.
            publish_level-Runs qos r (publish_packet r topic retained payload wait) w
              (λ q w'. publish_packet-Runs r topic retained payload wait q w' waits) sound channel))

  -- `subscribe` and `subscribe_multiple`, whose subscriptions are to valid topics if there are filters.
  subscription-Continues :
      (filters : Option (List (k.TopicFilter × QualityOfService))) (subs : List Subscription)
      (wait : Wait k c) (client : MqttClient k c)
      → (filters ≢ none → All (IsAllowed k) subs)
      → Waits wait
      → IsFit client
      → let (r, tokens) = new_subscribe client.world.tokens in
        let w : World k c = record (client.world) { tokens = tokens } in
        Continues (
          put client (
            when_connected client
              (Token.subscribe r)
              w
              (numbered (Token.subscribe r) (subscribe_packet r filters subs wait))))
  subscription-Continues filters subs wait client allowed waits v =
      let (r, tokens) = new_subscribe client.world.tokens in
      let w : World k c = record (client.world) { tokens = tokens } in
      let t = Token.subscribe r in
      let rest = numbered t (subscribe_packet r filters subs wait) in
      put-Continues client (when_connected client t w rest) v (
        when_connected-Runs client t w rest v (new_subscribe-Keeps client.world v.sound) (
          numbered-Runs t (subscribe_packet r filters subs wait) w
            (λ id w'. subscribe_packet-Runs r filters subs wait id w' allowed waits)))

  pub subscribe-Continues :
      (topic : String) (qos : QualityOfService) (callback : ℕ) (wait : Wait k c)
      (client : MqttClient k c)
      → Waits wait
      → IsFit client
      → Continues (subscribe topic qos callback wait client).1
  unfolding subscribe
  subscribe-Continues topic qos callback wait client =
      subscription-Continues (filter_of k topic qos) (subscription_new topic qos callback ∷ []) wait
        client (filter_of-Allowed k topic qos callback)

  pub subscribe_multiple-Continues :
      (topics : List (String × QualityOfService)) (callback : ℕ) (wait : Wait k c)
      (client : MqttClient k c)
      → Waits wait
      → IsFit client
      → Continues (subscribe_multiple topics callback wait client).1
  unfolding subscribe_multiple
  subscribe_multiple-Continues topics callback wait client =
      subscription-Continues (filters_of k topics) (subscriptions_of topics callback) wait client
        (filters_of-Allowed k topics callback)

  pub unsubscribe-Continues :
      (topics : List String) (wait : Wait k c) (client : MqttClient k c)
      → Waits wait
      → IsFit client
      → Continues (unsubscribe topics wait client).1
  unfolding unsubscribe
  unsubscribe-Continues topics wait client waits v =
      let (r, tokens) = new_unsubscribe client.world.tokens in
      let w : World k c = record (client.world) { tokens = tokens } in
      let t = Token.unsubscribe r in
      let rest = numbered t (unsubscribe_packet r topics wait) in
      put-Continues client (when_connected client t w rest) v (
        when_connected-Runs client t w rest v (tokens-Keeps client.world tokens (λ s. refl) v.sound)
          (numbered-Runs t (unsubscribe_packet r topics wait) w
            (λ id w'. unsubscribe_packet-Runs r topics wait id w' waits)))

  pub disconnect-Continues :
      (wait : Wait k c) (client : MqttClient k c)
      → Waits wait
      → IsFit client
      → Continues (disconnect wait client).1
  unfolding disconnect
  disconnect-Continues wait client waits v =
      let (r, tokens) = new_disconnect client.world.tokens in
      let w : World k c = record (client.world) { tokens = tokens } in
      let t = Token.disconnect r in
      let a = tokens-Keeps client.world tokens (λ s. refl) v.sound in
      let asked : MqttClient k c = record client { manual_disconnect = true } in
      let asks : IsFit asked = record {
        same = v.same;
        sound = v.sound;
        open_channel = v.open_channel;
      } in
      elim (Bool-cases (is_connected client)) [
        | inl online ↦
            rw (disconnect, online)
              (put-Continues asked (hand_over VariablePacket.disconnect t wait w) asks (
                trans-Runs (hand_over VariablePacket.disconnect t wait w) a (
                  hand_over-Runs VariablePacket.disconnect t wait w waits a.sound
                    (v.open_channel online))))
        | inr offline ↦
            rw (disconnect, offline)
              (put-Continues client (some (reject connection_lost t w)) v
                (trans-Keeps a (reject-Keeps connection_lost t w a.sound)))
      ]
