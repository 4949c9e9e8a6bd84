-- ===== src/System/Ending.antt =====
-- What becomes of an operation that waits under an identifier.
use mesquitte_client.Base.{
  ℕ, ◌<◌, ◌≡◌, ◌⊎◌, ap, ◌∙◌, inl, inr, Option, some, arith, nat_beq_iff, nat_key, get,
}
use mesquitte_client.Codec.{Codec}
use mesquitte_client.Token.{Token, TokenError, ready, poll, error_of}
use mesquitte_client.Token.Laws.{poll_answer}
use mesquitte_client.Pkid.{get_id, get_token, clean_up}
use mesquitte_client.Pkid.Issue.{get_id-cases}
use mesquitte_client.State.{Cache, World}
use mesquitte_client.Options.{ClientOptions}
use mesquitte_client.Client.{MqttClient, client_new, connection_ends}
use mesquitte_client.System.{empty_heap, Steps}
use mesquitte_client.System.Lasting.{IsDone, fail_all-Lasts, fail_all-IsDone}
use mesquitte_client.System.Limits.{limits, IsMade, Waiting}
use mesquitte_client.System.Registered.{Closed, Waiting-Closed}
use mesquitte_client.System.Closing.{steps-Closed}
use mesquitte_client.System.Acknowledging.{steps_new-IsRegistry}
use mesquitte_client.System.Reachable.{steps_new-IsFit}

-- An identifier is issued only if it is vacant.
get_id-keeps :
    {k : Codec} {c : Cache k.PublishPacket} (w : World k c) (u : Token) (id : ℕ) (t : Token)
    → w.state.packet_ids.last_issued_id < 65536
    → get_token w.state.packet_ids id ≡ some t
    → get_token (get_id w.state.packet_ids u).0 id ≡ some t
unfolding get_token
get_id-keeps w u id t low h = elim (get_id-cases w.state.packet_ids u low) [
  | inl i ↦
      let other = i.entry id in
      let vacant = i.vacant in ground (arith, nat_beq_iff (get_id w.state.packet_ids u).1 id)
  | inr (same, _, _) ↦ ap (λ x. get id x.index) same ∙ h
]

module _ {k : Codec} {c : Cache k.PublishPacket} (id : ℕ) (t : Token) where
  -- The token waits under the identifier, or is complete.
  abbrev pub WaitsOrDone : World k c → Type 0
  WaitsOrDone w = (get_token w.state.packet_ids id ≡ some t) ⊎ IsDone t w.tokens

  record Follows (w : World k c) : Type 0 where
    waiting : Waiting w
    made : IsMade t (limits w.tokens)
    fate : WaitsOrDone w

  Follows-Closed : Closed Follows
  Follows-Closed = record {
    made = λ w j u v. v.waiting.made j u;
    makes = λ w ts m v. record {
      waiting = Waiting-Closed.makes w ts m v.waiting;
      made = m.grows t v.made;
      fate = elim v.fate [ inl held ↦ inl held | inr over ↦ inr (m.keeps t v.made over) ];
    };
    registers = λ w u low made new v. record {
      waiting = Waiting-Closed.registers w u low made new v.waiting;
      made = v.made;
      fate = elim v.fate [ inl held ↦ inl (get_id-keeps w u id t low held) | inr over ↦ inr over ];
    };
    releases = λ w w' s v. record {
      waiting = Waiting-Closed.releases w w' s v.waiting;
      made = s.older t v.made;
      fate = elim v.fate [ inl held ↦ s.ends id t held | inr over ↦ inr (s.lasts t over) ];
    };
  }

-- Whatever a new client went through, an operation that waits under an identifier is not forgotten:
-- whatever happens then, its token is complete or still waits under this identifier, and if the
-- connection ends, then polling the token answers that it is ready.
pub operation_ends :
    {k : Codec} {c : Cache k.PublishPacket} (options : ClientOptions) (now waker : ℕ)
    (before client : MqttClient k c) (id : ℕ) (t : Token)
    → Steps (client_new options now (empty_heap k)) before
    → get_token before.world.state.packet_ids id ≡ some t
    → Steps before client
    → WaitsOrDone id t client.world
      × ((e : Option TokenError) × ((poll waker t (connection_ends client).world.tokens).1
            ≡ ready e))
unfolding connection_ends clean_up get_token
operation_ends options now waker before client id t history held steps =
    let v = steps_new-IsRegistry options now before history in
    let followed =
      steps-Closed (Follows id t) (Follows-Closed id t) options steps
        (steps_new-IsFit options now before history)
        (record { waiting = v; made = v.made id t held; fate = inl held }) in
    let ids = client.world.state.packet_ids in
    let ts = (connection_ends client).world.tokens in
    let over : IsDone t ts = elim followed.fate [
      | inl waits ↦ fail_all-IsDone ids.index client.world.tokens id t waits
      | inr early ↦ fail_all-Lasts ids.index client.world.tokens t early
    ] in
    (followed.fate, (error_of t ts, poll_answer ts waker t ∙ (rw over)))
