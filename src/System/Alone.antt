-- ===== src/System/Alone.antt =====
-- The operations of a client that take an identifier, for any property that is closed under what they do.
use mesquitte_client.Base.{
  ℕ, ◌<◌, ◌≢◌, inl, inr, Bool, Option, none, some, List, String, arith, Bool-cases,
}
use mesquitte_client.Codec.{Codec, QualityOfService, QosWithPacketIdentifier}
use mesquitte_client.Subscription.{Subscription}
use mesquitte_client.Token.{
  Token, modify, set_qos, new_publish, new_subscribe, new_unsubscribe, connection_lost,
}
use mesquitte_client.Pkid.{get_token}
use mesquitte_client.State.{Cache, World}
use mesquitte_client.Client.{
  MqttClient, is_connected, Wait, reject, numbered, put, when_connected, publish_packet,
  publish_level, publish, unsubscribe, subscribe_packet, unsubscribe_packet,
}
use mesquitte_client.System.{Waits}
use mesquitte_client.System.Making.{publishing-Makes, new_subscribe-Makes, new_unsubscribe-Makes}
use mesquitte_client.System.Registering.{Frees, reject-Releases}
use mesquitte_client.System.Registering.{
  publish_packet-Frees, subscribe_packet-Frees, unsubscribe_packet-Frees,
}
use mesquitte_client.System.Registered.{Closed, Registers, Frees-Registers, numbered-Registers}

module _ {k : Codec} {c : Cache k.PublishPacket} (P : World k c → Type 0) (closed : Closed P) where
  -- What is left of an operation of the client, if it does not panic.
  abbrev pub Registered : Option (MqttClient k c) → Type 0
  Registered none = Unit
  Registered (some client) = P client.world

  pub put-Registered :
      (client : MqttClient k c) (o : Option (World k c))
      → Registers P closed o
      → Registered (put client o)
  put-Registered client none h = tt
  put-Registered client (some w) h = h

  when_connected-Registers :
      (client : MqttClient k c) (t : Token) (w : World k c) (rest : World k c → Option (World k c))
      → P w
      → Registers P closed (rest w)
      → Registers P closed (when_connected client t w rest)
  when_connected-Registers client t w rest v h = elim (Bool-cases (is_connected client)) [
    | inl online ↦ rw online h
    | inr offline ↦
        rw offline
          (closed.releases w (reject connection_lost t w) (reject-Releases connection_lost t w) v)
  ]

  publish_level-Registers :
      (q : QualityOfService) (r : ℕ)
      (rest : QosWithPacketIdentifier → World k c → Option (World k c)) (w : World k c)
      → w.state.packet_ids.last_issued_id < 65536
      → r < w.tokens.publishes.next
      → ((j : ℕ) → get_token w.state.packet_ids j ≢ some (Token.publish r))
      → ((q : QosWithPacketIdentifier) (w' : World k c) → Frees w' (rest q w'))
      → P w
      → Registers P closed (publish_level q r rest w)
  publish_level-Registers QualityOfService.level0 r rest w low made new h v =
      Frees-Registers P closed w (rest QosWithPacketIdentifier.level0 w) v
        (h QosWithPacketIdentifier.level0 w)
  publish_level-Registers QualityOfService.level1 r rest w low made new h v =
      numbered-Registers P closed (Token.publish r) (λ id. rest (QosWithPacketIdentifier.level1 id))
        w low made new (λ id. h (QosWithPacketIdentifier.level1 id)) v
  publish_level-Registers QualityOfService.level2 r rest w low made new h v =
      numbered-Registers P closed (Token.publish r) (λ id. rest (QosWithPacketIdentifier.level2 id))
        w low made new (λ id. h (QosWithPacketIdentifier.level2 id)) v

  pub publish-Registered :
      (topic : String) (qos : QualityOfService) (retained : Bool) (payload : List ℕ)
      (wait : Wait k c) (client : MqttClient k c)
      → Waits wait
      → client.world.state.packet_ids.last_issued_id < 65536
      → P client.world
      → Registered (publish topic qos retained payload wait client).1
  unfolding publish
  publish-Registered topic qos retained payload wait client waits low v =
      let (r, tokens) = new_publish client.world.tokens in
      let w : World k c = record (client.world) {
        tokens = record tokens { publishes = modify r (set_qos qos) tokens.publishes };
      } in
      let v' : P w =
        closed.makes client.world w.tokens (publishing-Makes client.world.tokens qos) v in
      let packet = publish_packet r topic retained payload wait in
      let new : (j : ℕ) → get_token w.state.packet_ids j ≢ some (Token.publish r) = λ j h.
        let too_early = closed.made client.world j (Token.publish r) v h in
        absurd (omega (arith, too_early)) in
      put-Registered client (when_connected client (Token.publish r) w (publish_level qos r packet))
        (when_connected-Registers client (Token.publish r) w (publish_level qos r packet) v' (
          publish_level-Registers qos r packet w low (omega arith) new
            (λ q w'. publish_packet-Frees r topic retained payload wait q w' waits) v'))

  -- `subscribe` and `subscribe_multiple`
  pub subscription-Registered :
      (filters : Option (List (k.TopicFilter × QualityOfService))) (subs : List Subscription)
      (wait : Wait k c) (client : MqttClient k c)
      → Waits wait
      → client.world.state.packet_ids.last_issued_id < 65536
      → P client.world
      → let (r, tokens) = new_subscribe client.world.tokens in
        let w : World k c = record (client.world) { tokens = tokens } in
        Registered (
          put client (
            when_connected client
              (Token.subscribe r)
              w
              (numbered (Token.subscribe r) (subscribe_packet r filters subs wait))))
  subscription-Registered filters subs wait client waits low v =
      let (r, tokens) = new_subscribe client.world.tokens in
      let w : World k c = record (client.world) { tokens = tokens } in
      let t = Token.subscribe r in
      let v' : P w = closed.makes client.world tokens (new_subscribe-Makes client.world.tokens) v in
      let packet = subscribe_packet r filters subs wait in
      let new : (j : ℕ) → get_token w.state.packet_ids j ≢ some t = λ j h.
        let too_early = closed.made client.world j t v h in absurd (omega (arith, too_early)) in
      put-Registered client (when_connected client t w (numbered t packet)) (
        when_connected-Registers client t w (numbered t packet) v' (
          numbered-Registers P closed t packet w low (omega arith) new
            (λ id w'. subscribe_packet-Frees r filters subs wait id w' waits) v'))

  pub unsubscribe-Registered :
      (topics : List String) (wait : Wait k c) (client : MqttClient k c)
      → Waits wait
      → client.world.state.packet_ids.last_issued_id < 65536
      → P client.world
      → Registered (unsubscribe topics wait client).1
  unfolding unsubscribe
  unsubscribe-Registered topics wait client waits low v =
      let (r, tokens) = new_unsubscribe client.world.tokens in
      let w : World k c = record (client.world) { tokens = tokens } in
      let t = Token.unsubscribe r in
      let v' : P w =
        closed.makes client.world tokens (new_unsubscribe-Makes client.world.tokens) v in
      let packet = unsubscribe_packet r topics wait in
      let new : (j : ℕ) → get_token w.state.packet_ids j ≢ some t = λ j h.
        let too_early = closed.made client.world j t v h in absurd (omega (arith, too_early)) in
      put-Registered client (when_connected client t w (numbered t packet)) (
        when_connected-Registers client t w (numbered t packet) v' (
          numbered-Registers P closed t packet w low (omega arith) new
            (λ id w'. unsubscribe_packet-Frees r topics wait id w' waits) v'))
