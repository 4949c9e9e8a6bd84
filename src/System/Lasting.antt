-- ===== src/System/Lasting.antt =====
-- A token that is complete stays complete.
use mesquitte_client.Base.{
  ℕ, suc, ◌≡◌, ap, ◌∙◌, Bool, true, false, List, [], ◌∷◌, arith, get, some, nat_key, nat_beq, inl,
  inr, Bool-cases,
}
use mesquitte_client.Codec.{Codec}
use mesquitte_client.Token.{
  Token, connect, disconnect, publish, subscribe, unsubscribe, TokenError, Tokens, set_error,
  flow_complete, poll, connection_lost, state_of, set_result, set_session_present, token_beq_iff,
  modify, ConnectOwn, SubscribeOwn, UnsubscribeOwn,
}
use mesquitte_client.Token.Laws.{state_of-set_error, state_of-flow_complete, state_of-poll}
use mesquitte_client.Pkid.{fail_all}
use mesquitte_client.State.{Cache, World}
use mesquitte_client.Net.{suback_loop, suback_round}
use mesquitte_client.Net.Subscribing.{state-modify}
use mesquitte_client.Client.{mark_session}

module _ {k : Codec} where
  abbrev pub IsDone : Token → Tokens k → Type 0
  IsDone t ts = (state_of t ts).complete ≡ true

  -- What is complete stays so.
  abbrev pub Lasts : Tokens k → Tokens k → Type 0
  Lasts ts ts' = (u : Token) → IsDone u ts → IsDone u ts'

  pub set_error-IsDone : (t : Token) (e : TokenError) (ts : Tokens k) → IsDone t (set_error t e ts)
  set_error-IsDone t e ts = ground (arith, state_of-set_error ts t t e, token_beq_iff t t)

  pub flow_complete-IsDone : (t : Token) (ts : Tokens k) → IsDone t (flow_complete t ts)
  flow_complete-IsDone t ts = ground (arith, state_of-flow_complete ts t t, token_beq_iff t t)

  pub set_error-Lasts : (t : Token) (e : TokenError) (ts : Tokens k) → Lasts ts (set_error t e ts)
  set_error-Lasts t e ts u h = ground (arith, state_of-set_error ts t u e)

  pub flow_complete-Lasts : (t : Token) (ts : Tokens k) → Lasts ts (flow_complete t ts)
  flow_complete-Lasts t ts u h = ground (arith, state_of-flow_complete ts t u)

  pub poll-Lasts : (w : ℕ) (t : Token) (ts : Tokens k) → Lasts ts (poll w t ts).0
  poll-Lasts w t ts u h = ground (arith, state_of-poll ts w t u)

  pub fail_all-Lasts : (m : List (ℕ × Token)) (ts : Tokens k) → Lasts ts (fail_all m ts)
  unfolding fail_all
  fail_all-Lasts [] ts u h = h
  fail_all-Lasts ((_, t) ∷ m) ts u h =
      fail_all-Lasts m (set_error t connection_lost ts) u (set_error-Lasts t connection_lost ts u h)

  pub fail_all-IsDone :
      (m : List (ℕ × Token)) (ts : Tokens k) (id : ℕ) (t : Token)
      → get id m ≡ some t
      → IsDone t (fail_all m ts)
  unfolding fail_all get
  fail_all-IsDone [] ts id t h = cc
  fail_all-IsDone ((j, x) ∷ m) ts id t h = elim (Bool-cases (nat_beq j id)) [
    | inl same ↦
        let e : x ≡ t = ground arith in
        fail_all-Lasts m (set_error x connection_lost ts) t
          (rw (← e) (set_error-IsDone x connection_lost ts))
    | inr other ↦ fail_all-IsDone m (set_error x connection_lost ts) id t (ground arith)
  ]

  -- Writing what a token has of its own
  pub connects-Lasts :
      (r : ℕ) (f : ConnectOwn k → ConnectOwn k) (ts : Tokens k)
      → Lasts ts (record ts { connects = modify r f ts.connects })
  unfolding state_of
  connects-Lasts r f ts (connect s) h = ap (λ x. x.complete) (state-modify r s f ts.connects).0 ∙ h
  connects-Lasts r f ts (disconnect s) h = h
  connects-Lasts r f ts (publish s) h = h
  connects-Lasts r f ts (subscribe s) h = h
  connects-Lasts r f ts (unsubscribe s) h = h

  pub subscribes-Lasts :
      (r : ℕ) (f : SubscribeOwn k → SubscribeOwn k) (ts : Tokens k)
      → Lasts ts (record ts { subscribes = modify r f ts.subscribes })
  unfolding state_of
  subscribes-Lasts r f ts (connect s) h = h
  subscribes-Lasts r f ts (disconnect s) h = h
  subscribes-Lasts r f ts (publish s) h = h
  subscribes-Lasts r f ts (subscribe s) h =
      ap (λ x. x.complete) (state-modify r s f ts.subscribes).0 ∙ h
  subscribes-Lasts r f ts (unsubscribe s) h = h

  pub unsubscribes-Lasts :
      (r : ℕ) (f : UnsubscribeOwn → UnsubscribeOwn) (ts : Tokens k)
      → Lasts ts (record ts { unsubscribes = modify r f ts.unsubscribes })
  unfolding state_of
  unsubscribes-Lasts r f ts (connect s) h = h
  unsubscribes-Lasts r f ts (disconnect s) h = h
  unsubscribes-Lasts r f ts (publish s) h = h
  unsubscribes-Lasts r f ts (subscribe s) h = h
  unsubscribes-Lasts r f ts (unsubscribe s) h =
      ap (λ x. x.complete) (state-modify r s f ts.unsubscribes).0 ∙ h

  pub mark_session-Lasts : (b : Bool) (r : ℕ) (ts : Tokens k) → Lasts ts (mark_session b r ts)
  mark_session-Lasts true r ts = connects-Lasts r set_session_present ts
  mark_session-Lasts false r ts = λ u h. h

pub suback_loop-Lasts :
    {k : Codec} {c : Cache k.PublishPacket} (i : ℕ) (codes : List k.SubscribeReturnCode) (r : ℕ)
    (w : World k c)
    → Lasts w.tokens (suback_loop i codes r w).tokens
unfolding suback_loop
suback_loop-Lasts i [] r w u h = h
suback_loop-Lasts i (code ∷ codes) r w u h =
    suback_loop-Lasts (suc i) codes r (suback_round i code r w) u
      (subscribes-Lasts r (set_result i code) w.tokens u h)
