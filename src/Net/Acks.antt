-- ===== src/Net/Acks.antt =====
-- Acknowledgements: the operation is complete and its identifier is free again.
use mesquitte_client.Base.{
  ℕ, ◌≡◌, refl, ◌⊎◌, inl, inr, none, some, if◌then◌else◌, Option-cases, get-remove, nat_beq,
  nat_key,
}
use mesquitte_client.Codec.{Codec}
use mesquitte_client.Token.{Token, state_of, error_of, token_beq}
use mesquitte_client.Token.Laws.{done, state_of-flow_complete, error_of-flow_complete}
use mesquitte_client.Pkid.{get_token, free_id}
use mesquitte_client.State.{Cache, World}
use mesquitte_client.Net.Handlers.{finish, handle_puback, handle_pubcomp}

-- The operation that held an identifier has ended: its token is complete with the error that it had,
-- no other token changes, the identifier is free and no other entry changes.
pub record Finished {k : Codec} {c : Cache k.PublishPacket} (t : Token) (id : ℕ) (w w' : World k c)
    : Type 0 where
  pub states :
      (u : Token) → state_of u w'.tokens ≡ (if token_beq t u then done else state_of u w.tokens)
  pub errors : (u : Token) → error_of u w'.tokens ≡ error_of u w.tokens
  pub ids :
      (j : ℕ)
      → get_token w'.state.packet_ids j
        ≡ (if nat_beq id j then none else get_token w.state.packet_ids j)

pub finish-Finished :
    {k : Codec} {c : Cache k.PublishPacket} (t : Token) (id : ℕ) (w : World k c)
    → Finished t id w (finish t id w)
unfolding get_token free_id
finish-Finished t id w = record {
  states = λ u. state_of-flow_complete w.tokens t u;
  errors = λ u. error_of-flow_complete w.tokens t u;
  ids = λ j. get-remove id j w.state.packet_ids.index;
}

-- What an acknowledgement does: it ends the operation that holds the identifier, and changes nothing
-- else; where no operation holds it, it changes nothing.
abbrev pub Acknowledges :
    {k : Codec} {c : Cache k.PublishPacket} → ℕ → World k c → World k c → Type 0
Acknowledges id w w' =
    ((get_token w.state.packet_ids id ≡ none) × (w' ≡ w))
    ⊎ ((t : Token) × (get_token w.state.packet_ids id ≡ some t)
        × Finished t id w w'
        × (w'.state ≡ record (w.state) { packet_ids = free_id id w.state.packet_ids })
        × (w'.spawned ≡ w.spawned))

-- A PUBACK and a PUBCOMP each end the operation that holds the identifier, and it alone.
pub handle_puback_lem :
    {k : Codec} {c : Cache k.PublishPacket} (id : ℕ) (w : World k c)
    → Acknowledges id w (handle_puback id w) × Acknowledges id w (handle_pubcomp id w)
unfolding handle_puback handle_pubcomp
handle_puback_lem id w = elim (Option-cases (get_token w.state.packet_ids id)) [
  | inl unknown ↦
      (inl (unknown, rw (handle_puback, unknown)), inl (unknown, rw (handle_pubcomp, unknown)))
  | inr (t, known) ↦ (
    rw (handle_puback, known) (inr (t, refl, finish-Finished t id w, refl, refl)),
    rw (handle_pubcomp, known) (inr (t, refl, finish-Finished t id w, refl, refl)),
  )
]
