-- ===== src/Net/Writing.antt =====
-- The write loop: what is written, and what the tokens learn of it.
use mathlib.Core.List.{append-nil}
use mesquitte_client.Base.{
  ℕ, ◌≡◌, refl, ap, ◌∙◌, Bool, true, false, none, some, List, [], ◌∷◌, ◌++◌, ◌&&◌, String,
  if◌then◌else◌, nat_key, All,
}
use mesquitte_client.Codec.{Codec, QualityOfService, level0}
use mesquitte_client.Token.{
  Token, disconnect, publish, io_error, flow_complete, state_of, error_of, token_beq, token_beq_iff,
}
use mesquitte_client.Token.Laws.{
  done, state_of-flow_complete, state_of-set_error, error_of-set_error,
}
use mesquitte_client.Packets.{VariablePacket}
use mesquitte_client.State.{Cache, World}
use mesquitte_client.Net.Loops.{
  WriteEvent, response, outgoing, channel_closed, stamp, fail_token, complete_written,
  write_to_server,
}

-- The round writes a packet.
abbrev pub IsWritten : {k : Codec} → WriteEvent k → Type 0
IsWritten (response p e now) = e ≡ none
IsWritten (outgoing o e now) = e ≡ none
IsWritten channel_closed = ⊥

abbrev pub packet_of : {k : Codec} → WriteEvent k → List (VariablePacket k)
packet_of (response p e now) = p ∷ []
packet_of (outgoing o e now) = o.packet ∷ []
packet_of channel_closed = []

abbrev pub packets_of : {k : Codec} → List (WriteEvent k) → List (VariablePacket k)
packets_of [] = []
packets_of (e ∷ events) = packet_of e ++ packets_of events

module _ {k : Codec} {c : Cache k.PublishPacket} where
  -- What a round that writes does to the shared state.
  abbrev pub round : WriteEvent k → World k c → World k c
  round (response p e now) w = stamp now w
  round (outgoing o e now) w = complete_written o.token (stamp now w)
  round channel_closed w = w

  abbrev pub rounds : List (WriteEvent k) → World k c → World k c
  rounds [] w = w
  rounds (e ∷ events) w = rounds events (round e w)

  write_good :
      (good rest : List (WriteEvent k)) (w : World k c)
      → All IsWritten good
      → write_to_server (good ++ rest) w
        ≡ (let (w', ps) = write_to_server rest (rounds good w) in (w', packets_of good ++ ps))
  unfolding write_to_server
  write_good [] rest w h = refl
  write_good (response p none now ∷ good) rest w (h, hs) =
      ap (λ (r : World k c × List (VariablePacket k)). (r.0, p ∷ r.1))
        (write_good good rest (stamp now w) hs)
  write_good (response p (some e) now ∷ good) rest w (h, hs) = absurd (cc h)
  write_good (outgoing o none now ∷ good) rest w (h, hs) =
      ap (λ (r : World k c × List (VariablePacket k)). (r.0, o.packet ∷ r.1))
        (write_good good rest (complete_written o.token (stamp now w)) hs)
  write_good (outgoing o (some e) now ∷ good) rest w (h, hs) = absurd (cc h)
  write_good (channel_closed ∷ good) rest w (h, hs) = absurd h

  fail_token-some :
      (t : Token) (e : String) (w : World k c)
      → (state_of t (fail_token (some t) e w).tokens ≡ done)
        × (error_of t (fail_token (some t) e w).tokens ≡ some (io_error e))
  fail_token-some t e w =
      let self = (token_beq_iff t t).1 refl in
      (
        state_of-set_error w.tokens t t (io_error e) ∙ (rw self),
        error_of-set_error w.tokens t t (io_error e) ∙ (rw self),
      )

-- When packets go out and then a write of an operation's packet fails, what was written are the
-- packets before it, in order, none after it is written, and the operation's token is complete
-- with the error.
pub write_to_server_lem :
    {k : Codec} {c : Cache k.PublishPacket} (good rest : List (WriteEvent k)) (p : VariablePacket k)
    (t : Token) (e : String) (now : ℕ) (w : World k c)
    → All IsWritten good
    → let failed = outgoing (record { packet = p; token = some t }) (some e) now in
      let (w', written) = write_to_server (good ++ failed ∷ rest) w in
      (written ≡ packets_of good)
      × (state_of t w'.tokens ≡ done)
      × (error_of t w'.tokens ≡ some (io_error e))
unfolding write_to_server
write_to_server_lem {k} {c} good rest p t e now w h =
    let failed = outgoing (record { packet = p; token = some t }) (some e) now in
    let run = write_good good (failed ∷ rest) w h in
    let (state, error) = fail_token-some t e (rounds good w) in
    (
      ap (λ (r : World k c × List (VariablePacket k)). r.1) run ∙ append-nil (packets_of good),
      ap (λ (r : World k c × List (VariablePacket k)). state_of t r.0.tokens) run ∙ state,
      ap (λ (r : World k c × List (VariablePacket k)). error_of t r.0.tokens) run ∙ error,
    )

abbrev pub is_level0 : QualityOfService → Bool
is_level0 level0 = true
is_level0 _ = false

complete_publish :
    {k : Codec} {c : Cache k.PublishPacket} (q : QualityOfService) (r : ℕ) (u : Token)
    (w : World k c)
    → let w' : World k c = elim q [
      | level0 ↦ record w { tokens = flow_complete (publish r) w.tokens }
      | _ ↦ w
    ] in
      state_of u w'.tokens
      ≡ (if is_level0 q && token_beq (publish r) u then done else state_of u w.tokens)
complete_publish level0 r u w = state_of-flow_complete w.tokens (publish r) u
complete_publish _ r u w = refl

-- Writing a publication's packet completes its token if it is at level 0, and otherwise leaves every token
-- to the acknowledgement; writing a disconnection completes its token.
pub complete_written_lem :
    {k : Codec} {c : Cache k.PublishPacket} (r : ℕ) (u : Token) (w : World k c)
    → (state_of u (complete_written (some (publish r)) w).tokens ≡ (
        if is_level0 (w.tokens.publishes.cell r).own.qos && token_beq (publish r) u
        then done
        else state_of u w.tokens))
      × (state_of u (complete_written (some (disconnect r)) w).tokens
          ≡ (if token_beq (disconnect r) u then done else state_of u w.tokens))
complete_written_lem r u w = (
  complete_publish (w.tokens.publishes.cell r).own.qos r u w,
  state_of-flow_complete w.tokens (disconnect r) u,
)
