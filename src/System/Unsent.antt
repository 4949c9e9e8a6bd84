-- ===== src/System/Unsent.antt =====
-- A publication at level 0 and a disconnect on a client that went through anything.
use mesquitte_client.Base.{
  ℕ, ◌≡◌, subst, inl, inr, Bool, true, false, List, String, some, arith, Bool-cases,
}
use mesquitte_client.Codec.{Codec, QualityOfService}
use mesquitte_client.Token.{Token, poll, pending}
use mesquitte_client.Pkid.{get_token, packet_ids_new}
use mesquitte_client.Pkid.Cleanup.{holds, holds-get, holds-get_id}
use mesquitte_client.State.{Cache, World}
use mesquitte_client.Options.{ClientOptions}
use mesquitte_client.Client.{
  MqttClient, client_new, is_connected, publish, disconnect, connection_ends,
}
use mesquitte_client.Client.Subscribing.{undisturbed}
use mesquitte_client.Client.Unsent.{publish_unsent, disconnect_unsent}
use mesquitte_client.System.{empty_heap, Steps}
use mesquitte_client.System.Limits.{limits, IsMade}
use mesquitte_client.System.Registered.{Closed}
use mesquitte_client.System.Closing.{steps-Closed}
use mesquitte_client.System.Reachable.{client_new-IsFit, steps_new-IsFit}

-- Every token that the identifiers hold was made, also one that stands behind another.
abbrev Held : {k : Codec} {c : Cache k.PublishPacket} → World k c → Type 0
Held w = (t : Token) → holds t w.state.packet_ids.index ≡ true → IsMade t (limits w.tokens)

Held-Closed : {k : Codec} {c : Cache k.PublishPacket} → Closed {k = k} {c = c} Held
unfolding get_token
Held-Closed = record {
  made = λ w j t v h. v t (holds-get j t w.state.packet_ids.index h);
  makes = λ w ts m v t h. m.grows t (v t h);
  registers = λ w u low made new v t h. elim (holds-get_id w.state.packet_ids u t h) [
    | inl same ↦ subst (λ x. IsMade x (limits w.tokens)) same made
    | inr old ↦ v t old
  ];
  releases = λ w w' s v t h. s.older t (v t (s.shrinks t h));
}

-- A token that is yet to be made is held by no identifier.
unmade_free :
    {k : Codec} {c : Cache k.PublishPacket} (w : World k c) (t : Token)
    → Held w
    → ¬ IsMade t (limits w.tokens)
    → holds t w.state.packet_ids.index ≡ false
unmade_free w t v unmade = elim (Bool-cases (holds t w.state.packet_ids.index)) [
  | inl held ↦ absurd (unmade (v t held))
  | inr free ↦ free
]

-- Whatever a new client went through, if it is connected, then a publication to a valid topic at
-- level 0, as well as a `disconnect`, while which no other task runs, succeeds, and if the connection
-- ends while its packet is still in the channel, then its token is not ready after the end.
pub unsent_operations :
    {k : Codec} {c : Cache k.PublishPacket} (options : ClientOptions) (now waker : ℕ)
    (topic : String) (name : k.TopicName) (retained : Bool) (payload : List ℕ)
    (client : MqttClient k c)
    → Steps (client_new options now (empty_heap k)) client
    → is_connected client ≡ true
    → k.topic_name_new topic ≡ some name
    → (let (r, client') =
          publish topic QualityOfService.level0 retained payload undisturbed client in
        (after : MqttClient k c) × (client' ≡ some after)
        × ((poll waker (Token.publish r) (connection_ends after).world.tokens).1 ≡ pending))
      × (let (r, client') = disconnect undisturbed client in
          (after : MqttClient k c) × (client' ≡ some after)
          × ((poll waker (Token.disconnect r) (connection_ends after).world.tokens).1 ≡ pending))
unfolding client_new packet_ids_new
unsent_operations options now waker topic name retained payload client history online valid =
    let held =
      steps-Closed Held Held-Closed options history (client_new-IsFit options now)
        (λ t h. absurd (cc h)) in
    let (sent, channel) = (steps_new-IsFit options now client history).open_channel online in
    let free = unmade_free client.world in
    (
      publish_unsent topic name retained payload client sent waker online valid channel (
          free (Token.publish client.world.tokens.publishes.next) held
            (λ early. absurd (omega (arith, early)))),
      disconnect_unsent client sent waker online channel (
          free (Token.disconnect client.world.tokens.disconnects.next) held
            (λ early. absurd (omega (arith, early)))),
    )
