-- ===== src/System/Acknowledging.antt =====
-- In every state that a client can come to, an acknowledgement ends one operation.
use mesquitte_client.Base.{
  ℕ, ◌≡◌, ◌≢◌, ap, ◌∙◌, inl, inr, false, none, some, get, arith, nat_beq_iff, Bool-cases,
}
use mesquitte_client.Codec.{Codec}
use mesquitte_client.Token.{Token, state_of, token_beq, token_beq_iff}
use mesquitte_client.Token.Laws.{done}
use mesquitte_client.Pkid.{get_token, packet_ids_new}
use mesquitte_client.State.{Cache, World}
use mesquitte_client.Options.{ClientOptions}
use mesquitte_client.Net.{handle_puback, handle_pubcomp}
use mesquitte_client.Net.Acks.{Acknowledges, handle_puback_lem}
use mesquitte_client.Client.{MqttClient, client_new}
use mesquitte_client.System.{empty_heap, Steps}
use mesquitte_client.System.Limits.{limits, IsRegistry, Waiting}
use mesquitte_client.System.Reachable.{client_new-IsFit}
use mesquitte_client.System.Registered.{Waiting-Closed}
use mesquitte_client.System.Closing.{steps-Closed}

-- Whatever a new client went through, only tokens that were made wait under identifiers, and no token
-- waits under two.
pub steps_new-IsRegistry :
    {k : Codec} {c : Cache k.PublishPacket} (options : ClientOptions) (now : ℕ)
    (client : MqttClient k c)
    → Steps (client_new options now (empty_heap k)) client
    → IsRegistry client.world.state.packet_ids (limits client.world.tokens)
unfolding get_token get client_new packet_ids_new
steps_new-IsRegistry options now client ss =
    steps-Closed Waiting Waiting-Closed options ss (client_new-IsFit options now)
      (record { made = λ j t h. absurd (cc h); alone = λ i j t h g. absurd (cc h) })

-- The operation with the token has ended, and the one with the other token goes on as before.
abbrev pub EndsAlone :
    {k : Codec} {c : Cache k.PublishPacket} → ℕ → Token → ℕ → Token → World k c → World k c → Type 0
EndsAlone id t j u w w' =
    (state_of t w'.tokens ≡ done)
    × (get_token w'.state.packet_ids id ≡ none)
    × (state_of u w'.tokens ≡ state_of u w.tokens)
    × (get_token w'.state.packet_ids j ≡ some u)

ends_alone :
    {k : Codec} {c : Cache k.PublishPacket} (id : ℕ) (t : Token) (j : ℕ) (u : Token)
    (w w' : World k c)
    → Waiting w
    → get_token w.state.packet_ids id ≡ some t
    → get_token w.state.packet_ids j ≡ some u
    → id ≢ j
    → Acknowledges id w w'
    → EndsAlone id t j u w w'
ends_alone id t j u w w' v waits beside other (inl (unknown, _)) = absurd (cc (waits, unknown))
ends_alone id t j u w w' v waits beside other (inr (t', known, finished, _, _)) =
    let same : t' ≡ t = cc (known, waits) in
    let distinct : token_beq t' u ≡ false = elim (Bool-cases (token_beq t' u)) [
      | inl e ↦ absurd (other (v.alone id j u (known ∙ ap some ((token_beq_iff t' u).0 e)) beside))
      | inr e ↦ e
    ] in
    (
      ground (arith, finished.states t, token_beq_iff t' t, same),
      ground (arith, finished.ids id, nat_beq_iff id id),
      ground (arith, finished.states u, distinct),
      ground (arith, finished.ids j, nat_beq_iff id j, other, beside),
    )

-- Whatever a new client went through, a PUBACK and a PUBCOMP for an identifier each complete the token
-- that waits under it and release the identifier, and an operation that waits under another identifier
-- is not completed by it and waits on.
pub acknowledged_alone :
    {k : Codec} {c : Cache k.PublishPacket} (options : ClientOptions) (now : ℕ)
    (client : MqttClient k c) (id : ℕ) (t : Token) (j : ℕ) (u : Token)
    → Steps (client_new options now (empty_heap k)) client
    → get_token client.world.state.packet_ids id ≡ some t
    → get_token client.world.state.packet_ids j ≡ some u
    → id ≢ j
    → EndsAlone id t j u client.world (handle_puback id client.world)
      × EndsAlone id t j u client.world (handle_pubcomp id client.world)
acknowledged_alone options now client id t j u ss waits beside other =
    let v = steps_new-IsRegistry options now client ss in
    let (a, b) = handle_puback_lem id client.world in
    (
      ends_alone id t j u client.world (handle_puback id client.world) v waits beside other a,
      ends_alone id t j u client.world (handle_pubcomp id client.world) v waits beside other b,
    )
