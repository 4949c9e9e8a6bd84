-- ===== src/Client/Sending.antt =====
-- `publish` and `disconnect`: the cell of the new token, and the client after the operation.
use mesquitte_client.Base.{ℕ, Bool, true, Option, none, some, List, String, if◌then◌else◌}
use mesquitte_client.Codec.{Codec, QualityOfService, QosWithPacketIdentifier}
use mesquitte_client.Token.{
  connection_lost, invalid_topic, Token, modify, set_qos, new_publish, new_disconnect,
}
use mesquitte_client.Packets.{VariablePacket}
use mesquitte_client.State.{Cache, World}
use mesquitte_client.Client.Shared.{
  MqttClient, is_connected, Wait, reject, hand_over, numbered, put, when_connected,
}

module _ {k : Codec} {c : Cache k.PublishPacket} where
  -- `publish` from the check of the topic on
  unfoldable pub publish_packet :
      (r : ℕ) (topic : String) (retained : Bool) (payload : List ℕ)
      → Wait k c
      → QosWithPacketIdentifier
      → World k c
      → Option (World k c)
  unfolding hand_over
  publish_packet r topic retained payload wait qos w = elim (k.topic_name_new topic) [
    | none ↦ some (reject invalid_topic (Token.publish r) w)
    | some name ↦
        hand_over (VariablePacket.publish (k.set_retain retained (k.publish_new name qos payload)))
          (Token.publish r) wait w
  ]

  abbrev pub publish_level :
      QualityOfService
      → ℕ
      → (QosWithPacketIdentifier → World k c → Option (World k c))
      → World k c
      → Option (World k c)
  publish_level QualityOfService.level0 r rest w = rest QosWithPacketIdentifier.level0 w
  publish_level QualityOfService.level1 r rest w =
      numbered (Token.publish r) (λ id. rest (QosWithPacketIdentifier.level1 id)) w
  publish_level QualityOfService.level2 r rest w =
      numbered (Token.publish r) (λ id. rest (QosWithPacketIdentifier.level2 id)) w

  -- The token's cell, and the client after the operation
  unfoldable pub publish :
      (topic : String) (qos : QualityOfService) (retained : Bool) (payload : List ℕ)
      → Wait k c
      → MqttClient k c
      → ℕ × Option (MqttClient k c)
  unfolding publish_packet numbered
  publish topic qos retained payload wait client =
      let (r, tokens) = new_publish client.world.tokens in
      let w : World k c = record (client.world) {
        tokens = record tokens { publishes = modify r (set_qos qos) tokens.publishes };
      } in
      (
        r,
        put client (
            when_connected client (Token.publish r) w
              (publish_level qos r (publish_packet r topic retained payload wait))),
      )

  unfoldable pub disconnect : Wait k c → MqttClient k c → ℕ × Option (MqttClient k c)
  unfolding hand_over
  disconnect wait client =
      let (r, tokens) = new_disconnect client.world.tokens in
      let w : World k c = record (client.world) { tokens = tokens } in
      let asked : MqttClient k c = record client { manual_disconnect = true } in
      (
        r,
        if is_connected client
            then put asked (hand_over VariablePacket.disconnect (Token.disconnect r) wait w)
            else put client (some (reject connection_lost (Token.disconnect r) w)),
      )
