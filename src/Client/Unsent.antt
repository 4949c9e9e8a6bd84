-- ===== src/Client/Unsent.antt =====
-- Publications at level 0 and disconnects, which take no identifier, at the end of a connection.
use mesquitte_client.Base.{
  ℕ, ◌≡◌, refl, ap, ◌∙◌, true, false, Bool, some, List, [], ◌∷◌, ◌++◌, String, arith, nat_beq_iff,
}
use mesquitte_client.Codec.{Codec, QualityOfService, QosWithPacketIdentifier}
use mesquitte_client.Token.{Token, TokenState, state_of, poll, pending, new_disconnect}
use mesquitte_client.Token.Laws.{poll_answer}
use mesquitte_client.Pkid.Cleanup.{holds, clean_up_lem}
use mesquitte_client.Packets.{VariablePacket, PacketAndToken, new_with}
use mesquitte_client.State.{Cache}
use mesquitte_client.Client.Shared.{MqttClient, is_connected, put, hand_over}
use mesquitte_client.Client.Sending.{publish, disconnect}
use mesquitte_client.Client.Blocking.{connection_ends}
use mesquitte_client.Client.Publishing.{publishing, publish_packet_sent}
use mesquitte_client.Client.Subscribing.{undisturbed}

module _ {k : Codec} {c : Cache k.PublishPacket} where
  -- The client after a publication at level 0 whose packet is in the channel
  abbrev pub queued :
      k.TopicName → Bool → List ℕ → List (PacketAndToken k) → MqttClient k c → MqttClient k c
  queued name retained payload sent client =
      let w = publishing QualityOfService.level0 client in
      let p =
        VariablePacket.publish
          (k.set_retain retained (k.publish_new name QosWithPacketIdentifier.level0 payload)) in
      record client {
        world = record w {
          state = record (w.state) {
            outgoing_tx =
                some (sent ++ new_with p (Token.publish client.world.tokens.publishes.next) ∷ []);
          };
        };
      }

  publish-queued :
      (topic : String) (name : k.TopicName) (retained : Bool) (payload : List ℕ)
      (client : MqttClient k c) (sent : List (PacketAndToken k))
      → is_connected client ≡ true
      → k.topic_name_new topic ≡ some name
      → client.world.state.outgoing_tx ≡ some sent
      → (publish topic QualityOfService.level0 retained payload undisturbed client).1
        ≡ some (queued name retained payload sent client)
  unfolding publish
  publish-queued topic name retained payload client sent online valid channel = rw online (
      ap (put client) (
        publish_packet_sent client.world.tokens.publishes.next topic name retained payload
          undisturbed QosWithPacketIdentifier.level0 (publishing QualityOfService.level0 client)
          sent valid channel refl))

  new_token_waits :
      (client : MqttClient k c)
      → (state_of
          (Token.publish client.world.tokens.publishes.next)
          (publishing QualityOfService.level0 client).tokens).complete
        ≡ false
  unfolding state_of
  new_token_waits client =
      ground
        (arith, nat_beq_iff client.world.tokens.publishes.next client.world.tokens.publishes.next)

  -- A token that is not complete and that no identifier holds is not touched by the end.
  left_behind :
      (t : Token) (waker : ℕ) (after : MqttClient k c)
      → (state_of t after.world.tokens).complete ≡ false
      → holds t after.world.state.packet_ids.index ≡ false
      → (poll waker t (connection_ends after).world.tokens).1 ≡ pending
  unfolding connection_ends
  left_behind t waker after waiting free =
      let (_, _, states, _) = clean_up_lem after.world.state.packet_ids after.world.tokens in
      let kept : state_of t (connection_ends after).world.tokens ≡ state_of t after.world.tokens =
        ground (arith, states t, free) in
      let waits : (state_of t (connection_ends after).world.tokens).complete ≡ false =
        ap (λ (s : TokenState). s.complete) kept ∙ waiting in
      poll_answer (connection_ends after).world.tokens waker t ∙ (rw waits)

  -- The client after a `disconnect` whose packet is in the channel
  abbrev pub leaving : List (PacketAndToken k) → MqttClient k c → MqttClient k c
  leaving sent client =
      let (r, tokens) = new_disconnect client.world.tokens in
      record client {
        manual_disconnect = true;
        world = record (client.world) {
          tokens = tokens;
          state = record (client.world.state) {
            outgoing_tx =
                some (sent ++ new_with VariablePacket.disconnect (Token.disconnect r) ∷ []);
          };
        };
      }

  leaving_waits :
      (sent : List (PacketAndToken k)) (client : MqttClient k c)
      → (state_of
          (Token.disconnect client.world.tokens.disconnects.next)
          (leaving sent client).world.tokens).complete
        ≡ false
  unfolding state_of
  leaving_waits sent client =
      ground (
        arith,
        nat_beq_iff client.world.tokens.disconnects.next client.world.tokens.disconnects.next,
      )

  disconnect-leaving :
      (client : MqttClient k c) (sent : List (PacketAndToken k))
      → is_connected client ≡ true
      → client.world.state.outgoing_tx ≡ some sent
      → (disconnect undisturbed client).1 ≡ some (leaving sent client)
  unfolding disconnect hand_over
  disconnect-leaving client sent online channel = rw (online, hand_over, channel)

-- On a connected client with an open channel, where no identifier is registered with a token that is
-- yet to come, a publication to a valid topic at level 0 whose packet is still in the channel when the
-- connection ends has a token that is not complete after the end either: the clean-up does not reach it.
pub publish_unsent :
    {k : Codec} {c : Cache k.PublishPacket} (topic : String) (name : k.TopicName) (retained : Bool)
    (payload : List ℕ) (client : MqttClient k c) (sent : List (PacketAndToken k)) (waker : ℕ)
    → is_connected client ≡ true
    → k.topic_name_new topic ≡ some name
    → client.world.state.outgoing_tx ≡ some sent
    → holds (Token.publish client.world.tokens.publishes.next) client.world.state.packet_ids.index
      ≡ false
    → let (r, client') =
        publish topic QualityOfService.level0 retained payload undisturbed client in
      (after : MqttClient k c) × (client' ≡ some after)
      × ((poll waker (Token.publish r) (connection_ends after).world.tokens).1 ≡ pending)
unfolding publish
publish_unsent topic name retained payload client sent waker online valid channel free =
    let after = queued name retained payload sent client in
    (
      after,
      publish-queued topic name retained payload client sent online valid channel,
      left_behind (Token.publish client.world.tokens.publishes.next) waker after
          (new_token_waits client) free,
    )

-- The same holds of a `disconnect`.
pub disconnect_unsent :
    {k : Codec} {c : Cache k.PublishPacket} (client : MqttClient k c)
    (sent : List (PacketAndToken k)) (waker : ℕ)
    → is_connected client ≡ true
    → client.world.state.outgoing_tx ≡ some sent
    → holds
        (Token.disconnect client.world.tokens.disconnects.next)
        client.world.state.packet_ids.index
      ≡ false
    → let (r, client') = disconnect undisturbed client in
      (after : MqttClient k c) × (client' ≡ some after)
      × ((poll waker (Token.disconnect r) (connection_ends after).world.tokens).1 ≡ pending)
unfolding disconnect
disconnect_unsent client sent waker online channel free = (
  leaving sent client,
  disconnect-leaving client sent online channel,
  left_behind (Token.disconnect client.world.tokens.disconnects.next) waker (leaving sent client)
      (leaving_waits sent client) free,
)
