-- ===== src/System/Registering.antt =====
-- The caller's operations register a token that they have just made, under a vacant identifier.
use mesquitte_client.Base.{
  ℕ, refl, inl, inr, Bool, true, false, Option, none, some, List, [], ◌∷◌, ◌++◌, String,
  if◌then◌else◌, Option-cases,
}
use mesquitte_client.Codec.{Codec, QualityOfService, QosWithPacketIdentifier}
use mesquitte_client.Subscription.{Subscription}
use mesquitte_client.Token.{
  Token, TokenError, set_error, modify, add_topic, add_subscriptions, internal_server_error,
  invalid_topic,
}
use mesquitte_client.Packets.{VariablePacket, PacketAndToken, new_with}
use mesquitte_client.State.{Cache, World}
use mesquitte_client.Client.{
  Wait, reject, hand_over, publish_packet, then_add, subscribe_packet, name_topics,
  unsubscribe_packet,
}
use mesquitte_client.System.{Waits}
use mesquitte_client.System.Lasting.{set_error-Lasts, subscribes-Lasts, unsubscribes-Lasts}
use mesquitte_client.System.Limits.{
  limits-set_error, Releases, trans-Releases, kept-Releases, stays-Releases,
}
use mesquitte_client.System.Releasing.{tokens-Releases, Tasks-Releases}

module _ {k : Codec} {c : Cache k.PublishPacket} where
  -- Where the operation goes through, it registers no token.
  abbrev pub Frees : World k c → Option (World k c) → Type 0
  Frees w none = Unit
  Frees w (some w') = Releases w w'

  pub reject-Releases : (e : TokenError) (t : Token) (w : World k c) → Releases w (reject e t w)
  reject-Releases e t w =
      tokens-Releases w (set_error t e w.tokens) (limits-set_error t e w.tokens)
        (set_error-Lasts t e w.tokens)

  handed-Releases :
      (packet : VariablePacket k) (t : Token) (wait : Wait k c) (w : World k c)
      (sent : List (PacketAndToken k)) (taken : Bool)
      → Waits wait
      → Releases w (
          if taken
          then wait.others (record w {
            state = record (w.state) { outgoing_tx = some (sent ++ new_with packet t ∷ []) };
          })
          else reject internal_server_error t (wait.others w))
  handed-Releases packet t wait w sent false waits =
      trans-Releases w (wait.others w) _ (Tasks-Releases (waits w))
        (reject-Releases internal_server_error t (wait.others w))
  handed-Releases packet t wait w sent true waits =
      let w' : World k c = record w {
        state = record (w.state) { outgoing_tx = some (sent ++ new_with packet t ∷ []) };
      } in
      trans-Releases w w' (wait.others w') (kept-Releases w w' refl refl (λ t h. h))
        (Tasks-Releases (waits w'))

  channel-Frees :
      (packet : VariablePacket k) (t : Token) (wait : Wait k c) (w : World k c)
      (channel : Option (List (PacketAndToken k)))
      → Waits wait
      → Frees w (elim channel [
        | none ↦ none
        | some sent ↦ some (
            if wait.accepted
            then wait.others (record w {
              state = record (w.state) { outgoing_tx = some (sent ++ new_with packet t ∷ []) };
            })
            else reject internal_server_error t (wait.others w))
      ])
  channel-Frees packet t wait w none waits = tt
  channel-Frees packet t wait w (some sent) waits =
      handed-Releases packet t wait w sent wait.accepted waits

  pub hand_over-Frees :
      (packet : VariablePacket k) (t : Token) (wait : Wait k c) (w : World k c)
      → Waits wait
      → Frees w (hand_over packet t wait w)
  unfolding hand_over
  hand_over-Frees packet t wait w = channel-Frees packet t wait w w.state.outgoing_tx

  pub publish_packet-Frees :
      (r : ℕ) (topic : String) (retained : Bool) (payload : List ℕ) (wait : Wait k c)
      (qos : QosWithPacketIdentifier) (w : World k c)
      → Waits wait
      → Frees w (publish_packet r topic retained payload wait qos w)
  unfolding publish_packet
  publish_packet-Frees r topic retained payload wait qos w waits =
      elim (Option-cases (k.topic_name_new topic)) [
        | inl bad ↦ rw (publish_packet, bad) (reject-Releases invalid_topic (Token.publish r) w)
        | inr (name, good) ↦
            rw (publish_packet, good) (hand_over-Frees _ (Token.publish r) wait w waits)
      ]

  then_add-Frees :
      (r : ℕ) (subs : List Subscription) (w : World k c) (o : Option (World k c))
      → Frees w o
      → Frees w (then_add r subs o)
  then_add-Frees r subs w none h = tt
  then_add-Frees r subs w (some w') h = trans-Releases w w' _ h (
      tokens-Releases w'
        (record (w'.tokens) { subscribes = modify r (add_subscriptions subs) w'.tokens.subscribes })
        refl (subscribes-Lasts r (add_subscriptions subs) w'.tokens))

  pub subscribe_packet-Frees :
      (r : ℕ) (filters : Option (List (k.TopicFilter × QualityOfService)))
      (subs : List Subscription) (wait : Wait k c) (id : ℕ) (w : World k c)
      → Waits wait
      → Frees w (subscribe_packet r filters subs wait id w)
  unfolding subscribe_packet
  subscribe_packet-Frees r none subs wait id w waits =
      reject-Releases invalid_topic (Token.subscribe r) w
  subscribe_packet-Frees r (some fs) subs wait id w waits =
      then_add-Frees r subs w
        (hand_over (VariablePacket.subscribe id fs) (Token.subscribe r) wait w)
        (hand_over-Frees (VariablePacket.subscribe id fs) (Token.subscribe r) wait w waits)

  name_topics-Releases :
      (topics : List String) (r : ℕ) (w : World k c) → Releases w (name_topics topics r w).0
  unfolding name_topics
  name_topics-Releases [] r w = stays-Releases w
  name_topics-Releases (topic ∷ topics) r w =
      let named : World k c = record w {
        tokens = record (w.tokens) {
          unsubscribes = modify r (add_topic topic) w.tokens.unsubscribes;
        };
      } in
      elim (Option-cases (k.topic_filter_new topic)) [
        | inl bad ↦ rw (name_topics, bad) (stays-Releases w)
        | inr (filter, good) ↦
            rw (name_topics, good)
              (trans-Releases w named _
                (tokens-Releases w named.tokens refl
                  (unsubscribes-Lasts r (add_topic topic) w.tokens))
                (name_topics-Releases topics r named))
      ]

  trans-Frees : (w w' : World k c) (o : Option (World k c)) → Releases w w' → Frees w' o → Frees w o
  trans-Frees w w' none a h = tt
  trans-Frees w w' (some w'') a h = trans-Releases w w' w'' a h

  pub unsubscribe_packet-Frees :
      (r : ℕ) (topics : List String) (wait : Wait k c) (id : ℕ) (w : World k c)
      → Waits wait
      → Frees w (unsubscribe_packet r topics wait id w)
  unfolding unsubscribe_packet
  unsubscribe_packet-Frees r topics wait id w waits =
      let a = name_topics-Releases topics r w in
      let named = (name_topics topics r w).0 in
      elim (Option-cases (name_topics topics r w).1) [
        | inl bad ↦
            rw (unsubscribe_packet, bad)
              (trans-Releases w named _ a
                (reject-Releases invalid_topic (Token.unsubscribe r) named))
        | inr (fs, good) ↦
            rw (unsubscribe_packet, good)
              (trans-Frees w named _ a (
                hand_over-Frees (VariablePacket.unsubscribe id fs) (Token.unsubscribe r) wait named
                  waits))
      ]
