-- ===== src/Token/Runs.antt =====
-- What a task that awaits a token sees, over any sequence of polls and completions of any tokens.
use mesquitte_client.Base.{
  ℕ, ◌≡◌, refl, Bool, false, Option, some, List, [], ◌∷◌, ◌||◌, arith, if◌then◌else◌,
}
use mesquitte_client.Codec.{Codec}
use mesquitte_client.Token.Inner.{TokenError, ready, pending, wake}
use mesquitte_client.Token.Heap.{
  Token, token_beq, token_beq_iff, Tokens, poll, set_error, flow_complete, state_of, error_of,
}
use mesquitte_client.Token.Laws.{
  state_of-set_error, state_of-flow_complete, error_of-set_error, error_of-flow_complete,
  woken-set_error, woken-flow_complete, state_of-poll, error_of-poll, poll_answer,
}

pub data TokenOp : Type 0 where
  polls : ℕ → Token → TokenOp
  fails : Token → TokenError → TokenOp
  completes : Token → TokenOp

module _ {k : Codec} where
  unfoldable pub run_op : TokenOp → Tokens k → Tokens k
  run_op (polls w t) ts = (poll w t ts).0
  run_op (fails t e) ts = set_error t e ts
  run_op (completes t) ts = flow_complete t ts

  unfoldable pub run_ops : List TokenOp → Tokens k → Tokens k
  unfolding run_op
  run_ops [] ts = ts
  run_ops (op ∷ ops) ts = run_ops ops (run_op op ts)

-- Whether some operation completes the token.
abbrev pub ends : Token → List TokenOp → Bool
ends t [] = false
ends t (polls w u ∷ ops) = ends t ops
ends t (fails u e ∷ ops) = token_beq u t || ends t ops
ends t (completes u ∷ ops) = token_beq u t || ends t ops

-- The last error that the operations set on the token.
abbrev pub last_error : Token → List TokenOp → Option TokenError → Option TokenError
last_error t [] old = old
last_error t (polls w u ∷ ops) old = last_error t ops old
last_error t (fails u e ∷ ops) old = last_error t ops (if token_beq u t then some e else old)
last_error t (completes u ∷ ops) old = last_error t ops old

-- The waker of the last poll of the token.
abbrev pub last_waker : Token → List TokenOp → Option ℕ → Option ℕ
last_waker t [] old = old
last_waker t (polls w u ∷ ops) old = last_waker t ops (if token_beq u t then some w else old)
last_waker t (fails u e ∷ ops) old = last_waker t ops old
last_waker t (completes u ∷ ops) old = last_waker t ops old

module _ {k : Codec} (t : Token) where
  error_of-run :
      (ops : List TokenOp) (ts : Tokens k)
      → error_of t (run_ops ops ts) ≡ last_error t ops (error_of t ts)
  unfolding run_ops run_op
  error_of-run [] ts = refl
  error_of-run (polls w u ∷ ops) ts = rw (error_of-run ops (poll w u ts).0, error_of-poll ts w u t)
  error_of-run (fails u e ∷ ops) ts =
      rw (error_of-run ops (set_error u e ts), error_of-set_error ts u t e)
  error_of-run (completes u ∷ ops) ts =
      rw (error_of-run ops (flow_complete u ts), error_of-flow_complete ts u t)

  complete-run :
      (ops : List TokenOp) (ts : Tokens k)
      → (state_of t (run_ops ops ts)).complete ≡ ((state_of t ts).complete || ends t ops)
  unfolding run_ops run_op
  complete-run [] ts = ground arith
  complete-run (polls w u ∷ ops) ts =
      ground (arith, complete-run ops (poll w u ts).0, state_of-poll ts w u t)
  complete-run (fails u e ∷ ops) ts =
      ground (arith, complete-run ops (set_error u e ts), state_of-set_error ts u t e)
  complete-run (completes u ∷ ops) ts =
      ground (arith, complete-run ops (flow_complete u ts), state_of-flow_complete ts u t)

  waker-run :
      (ops : List TokenOp) (ts : Tokens k)
      → (state_of t ts).complete ≡ false
      → ends t ops ≡ false
      → (state_of t (run_ops ops ts)).waker ≡ last_waker t ops (state_of t ts).waker
  unfolding run_ops run_op
  waker-run [] ts h n = refl
  waker-run (polls w u ∷ ops) ts h n =
      ground (arith, waker-run ops (poll w u ts).0, state_of-poll ts w u t)
  waker-run (fails u e ∷ ops) ts h n =
      ground (arith, waker-run ops (set_error u e ts), state_of-set_error ts u t e)
  waker-run (completes u ∷ ops) ts h n =
      ground (arith, waker-run ops (flow_complete u ts), state_of-flow_complete ts u t)

-- After any operations on any tokens, a poll of a token is ready exactly when the token was complete
-- at the start or one of the operations completed it, and it answers the last error set on it.
pub poll-run_ops :
    {k : Codec} (w : ℕ) (t : Token) (ops : List TokenOp) (ts : Tokens k)
    → (poll w t (run_ops ops ts)).1 ≡ (
        if (state_of t ts).complete || ends t ops
        then ready (last_error t ops (error_of t ts))
        else pending)
poll-run_ops w t ops ts =
    rw (poll_answer (run_ops ops ts) w t, complete-run t ops ts, error_of-run t ops ts)

-- No wake-up is lost: of a token that is not yet complete, after any operations that do not complete
-- it, both ways to complete it wake the waker of the last poll of it, and a second completion
-- right after wakes nobody.
pub woken-run_ops :
    {k : Codec} (t : Token) (e : TokenError) (ops : List TokenOp) (ts : Tokens k)
    → (state_of t ts).complete ≡ false
    → ends t ops ≡ false
    → let now = run_ops ops ts in
      let expected = wake (last_waker t ops (state_of t ts).waker) now.woken in
      ((set_error t e now).woken ≡ expected)
      × ((flow_complete t now).woken ≡ expected)
      × ((flow_complete t (set_error t e now)).woken ≡ expected)
woken-run_ops t e ops ts h n =
    let now = run_ops ops ts in
    let first = waker-run t ops ts h n in
    let failed = woken-set_error now t e in
    let finished = woken-flow_complete now t in
    let again = woken-flow_complete (set_error t e now) t in
    let left = state_of-set_error now t t e in
    let self = (token_beq_iff t t).1 refl in
    (rw (failed, first), rw (finished, first), rw (again, left, self, failed, first))
