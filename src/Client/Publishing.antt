-- ===== src/Client/Publishing.antt =====
-- Publications at levels 1 and 2, which take an identifier.
use mesquitte_client.Base.{
  ℕ, ◌<◌, ◌≡◌, refl, ap, ◌∙◌, inl, inr, Bool, true, false, Option, none, some, List, [], ◌∷◌, ◌++◌,
  String, nat_beq, arith,
}
use mesquitte_client.Codec.{Codec, QualityOfService, QosWithPacketIdentifier}
use mesquitte_client.Token.{invalid_topic, Token, new_publish, modify, set_qos}
use mesquitte_client.Pkid.{PacketIds, get_id, get_token}
use mesquitte_client.Pkid.Issue.{Issued, IsFull, get_id-cases}
use mesquitte_client.Packets.{VariablePacket, PacketAndToken, new_with}
use mesquitte_client.State.{Cache, World}
use mesquitte_client.Client.Shared.{
  MqttClient, is_connected, Wait, reject, hand_over, numbered, put,
}
use mesquitte_client.Client.Sending.{publish, publish_packet, publish_level}
use mesquitte_client.Client.Outcomes.{Failed, reject-Failed}

abbrev pub level_of : Bool → QualityOfService
level_of false = QualityOfService.level1
level_of true = QualityOfService.level2

abbrev pub with_id : Bool → ℕ → QosWithPacketIdentifier
with_id false id = QosWithPacketIdentifier.level1 id
with_id true id = QosWithPacketIdentifier.level2 id

module _ {k : Codec} {c : Cache k.PublishPacket} where
  abbrev pub with_ids : PacketIds → World k c → World k c
  with_ids ids w = record w { state = record (w.state) { packet_ids = ids } }

  pub numbered-Issued :
      (t : Token) (rest : ℕ → World k c → Option (World k c)) (w : World k c)
      → w.state.packet_ids.last_issued_id < 65536
      → ¬ IsFull w.state.packet_ids
      → (id : ℕ) × (ids : PacketIds) × Issued w.state.packet_ids t ids id
        × (id ≡ (get_id w.state.packet_ids t).1)
        × (numbered t rest w ≡ rest id (with_ids ids w))
  unfolding numbered
  numbered-Issued t rest w h free = elim (get_id-cases w.state.packet_ids t h) [
    | inr (_, _, full) ↦ absurd (free full)
    | inl i ↦ (
      (get_id w.state.packet_ids t).1,
      (get_id w.state.packet_ids t).0,
      i,
      refl,
      (let low = i.low in
          let given : nat_beq (get_id w.state.packet_ids t).1 0 ≡ false = ground arith in rw given),
    )
  ]

  publish_level_of :
      (twice : Bool) (r : ℕ) (rest : QosWithPacketIdentifier → World k c → Option (World k c))
      (w : World k c)
      → publish_level (level_of twice) r rest w
        ≡ numbered (Token.publish r) (λ id. rest (with_id twice id)) w
  publish_level_of false r rest w = refl
  publish_level_of true r rest w = refl

  pub publish_packet_sent :
      (r : ℕ) (topic : String) (name : k.TopicName) (retained : Bool) (payload : List ℕ)
      (wait : Wait k c) (qos : QosWithPacketIdentifier) (w : World k c)
      (sent : List (PacketAndToken k))
      → k.topic_name_new topic ≡ some name
      → w.state.outgoing_tx ≡ some sent
      → wait.accepted ≡ true
      → let p = VariablePacket.publish (k.set_retain retained (k.publish_new name qos payload)) in
        publish_packet r topic retained payload wait qos w
        ≡ some (
            wait.others (record w {
              state = record (w.state) {
                outgoing_tx = some (sent ++ new_with p (Token.publish r) ∷ []);
              };
            }))
  unfolding publish_packet hand_over
  publish_packet_sent r topic name retained payload wait qos w sent valid open_channel taken =
      rw (publish_packet, valid, hand_over, open_channel, taken)

  publish_packet_invalid :
      (r : ℕ) (topic : String) (retained : Bool) (payload : List ℕ) (wait : Wait k c)
      (qos : QosWithPacketIdentifier) (w : World k c)
      → k.topic_name_new topic ≡ none
      → publish_packet r topic retained payload wait qos w
        ≡ some (reject invalid_topic (Token.publish r) w)
  unfolding publish_packet
  publish_packet_invalid r topic retained payload wait qos w invalid = rw (publish_packet, invalid)

  -- The client's world once the token of a publication is there, and the rest of the operation
  abbrev pub publishing : QualityOfService → MqttClient k c → World k c
  publishing qos client =
      let (r, tokens) = new_publish client.world.tokens in
      record (client.world) {
        tokens = record tokens { publishes = modify r (set_qos qos) tokens.publishes };
      }

  publish_connected :
      (topic : String) (twice retained : Bool) (payload : List ℕ) (wait : Wait k c)
      (client : MqttClient k c)
      → is_connected client ≡ true
      → let (r, client') = publish topic (level_of twice) retained payload wait client in
        client'
        ≡ put client (
            numbered
              (Token.publish r)
              (λ id. publish_packet r topic retained payload wait (with_id twice id))
              (publishing (level_of twice) client))
  unfolding publish
  publish_connected topic twice retained payload wait client h = rw h (
      ap (put client) (
        publish_level_of twice client.world.tokens.publishes.next
          (publish_packet client.world.tokens.publishes.next topic retained payload wait)
          (publishing (level_of twice) client)))

-- On a connected client with an open channel, where the last identifier issued fits 16 bits and
-- not all identifiers are in use, a publication to a valid topic at level 1 or 2 that the channel
-- takes goes out with a new identifier, under which its token is registered before any other task
-- runs.
pub publish_registers :
    {k : Codec} {c : Cache k.PublishPacket} (topic : String) (name : k.TopicName)
    (twice retained : Bool) (payload : List ℕ) (wait : Wait k c) (client : MqttClient k c)
    (sent : List (PacketAndToken k))
    → is_connected client ≡ true
    → client.world.state.packet_ids.last_issued_id < 65536
    → ¬ IsFull client.world.state.packet_ids
    → k.topic_name_new topic ≡ some name
    → client.world.state.outgoing_tx ≡ some sent
    → wait.accepted ≡ true
    → let (r, client') = publish topic (level_of twice) retained payload wait client in
      (id : ℕ) × (w : World k c) × (client' ≡ some (record client { world = wait.others w }))
      × (get_token client.world.state.packet_ids id ≡ none)
      × (get_token w.state.packet_ids id ≡ some (Token.publish r))
      × (w.state.outgoing_tx
          ≡ some (
              sent
              ++ new_with
                  (VariablePacket.publish
                    (k.set_retain retained (k.publish_new name (with_id twice id) payload)))
                  (Token.publish r)
                ∷ []))
unfolding get_token publish
publish_registers topic name twice retained payload wait client sent h low free valid channel
      taken =
    let r = client.world.tokens.publishes.next in
    let started = publishing (level_of twice) client in
    let (id, ids, i, _, run) =
      numbered-Issued (Token.publish r)
        (λ id. publish_packet r topic retained payload wait (with_id twice id)) started low free in
    let own = i.entry id in
    let sent_it =
      publish_packet_sent r topic name retained payload wait (with_id twice id)
        (with_ids ids started) sent valid channel taken in
    (
      id,
      _,
      publish_connected topic twice retained payload wait client h
          ∙ ap (put client) (run ∙ sent_it),
      i.vacant,
      ground arith,
      refl,
    )

-- On a connected client, where the last identifier issued fits 16 bits and not all identifiers are
-- in use, a publication to an invalid topic at level 1 or 2 fails its token with InvalidTopic and
-- sends nothing, but the identifier that it took stays in use, registered with the failed token.
pub publish_keeps_identifier :
    {k : Codec} {c : Cache k.PublishPacket} (topic : String) (twice retained : Bool)
    (payload : List ℕ) (wait : Wait k c) (client : MqttClient k c)
    → is_connected client ≡ true
    → client.world.state.packet_ids.last_issued_id < 65536
    → ¬ IsFull client.world.state.packet_ids
    → k.topic_name_new topic ≡ none
    → let (r, client') = publish topic (level_of twice) retained payload wait client in
      (id : ℕ) × (w : World k c) × (client' ≡ some (record client { world = w }))
      × Failed invalid_topic (Token.publish r) w
      × (get_token client.world.state.packet_ids id ≡ none)
      × (get_token w.state.packet_ids id ≡ some (Token.publish r))
      × (w.state.outgoing_tx ≡ client.world.state.outgoing_tx)
unfolding get_token publish
publish_keeps_identifier topic twice retained payload wait client h low free invalid =
    let r = client.world.tokens.publishes.next in
    let started = publishing (level_of twice) client in
    let (id, ids, i, _, run) =
      numbered-Issued (Token.publish r)
        (λ id. publish_packet r topic retained payload wait (with_id twice id)) started low free in
    let own = i.entry id in
    let ended =
      publish_packet_invalid r topic retained payload wait (with_id twice id) (with_ids ids started)
        invalid in
    (
      id,
      _,
      publish_connected topic twice retained payload wait client h ∙ ap (put client) (run ∙ ended),
      reject-Failed invalid_topic (Token.publish r) (with_ids ids started),
      i.vacant,
      ground arith,
      refl,
    )
