-- ===== src/Token/Laws.antt =====
-- How completing or polling one token shows in the states and errors of all the tokens.
use mesquitte_client.Base.{ℕ, ◌≡◌, true, false, none, some, arith, if◌then◌else◌}
use mesquitte_client.Codec.{Codec}
use mesquitte_client.Token.Inner.{TokenError, TokenState, ready, pending, wake}
use mesquitte_client.Token.Heap.{
  Token, connect, disconnect, publish, subscribe, unsubscribe, token_beq, Tokens, poll, set_error,
  flow_complete, state_of, error_of,
}

abbrev pub done : TokenState
done = record { complete = true; waker = none }

-- What a poll with the waker `w` leaves behind.
abbrev pub polled_state : ℕ → TokenState → TokenState
polled_state w s = if s.complete then s else record { complete = false; waker = some w }

module _ {k : Codec} (ts : Tokens k) where
  pub state_of-set_error :
      (t u : Token) (e : TokenError)
      → state_of u (set_error t e ts) ≡ (if token_beq t u then done else state_of u ts)
  unfolding state_of set_error
  state_of-set_error (connect r) u e = ground arith
  state_of-set_error (disconnect r) u e = ground arith
  state_of-set_error (publish r) u e = ground arith
  state_of-set_error (subscribe r) u e = ground arith
  state_of-set_error (unsubscribe r) u e = ground arith

  pub state_of-flow_complete :
      (t u : Token)
      → state_of u (flow_complete t ts) ≡ (if token_beq t u then done else state_of u ts)
  unfolding state_of flow_complete
  state_of-flow_complete (connect r) u = ground arith
  state_of-flow_complete (disconnect r) u = ground arith
  state_of-flow_complete (publish r) u = ground arith
  state_of-flow_complete (subscribe r) u = ground arith
  state_of-flow_complete (unsubscribe r) u = ground arith

  pub error_of-set_error :
      (t u : Token) (e : TokenError)
      → error_of u (set_error t e ts) ≡ (if token_beq t u then some e else error_of u ts)
  unfolding error_of set_error
  error_of-set_error (connect r) u e = ground arith
  error_of-set_error (disconnect r) u e = ground arith
  error_of-set_error (publish r) u e = ground arith
  error_of-set_error (subscribe r) u e = ground arith
  error_of-set_error (unsubscribe r) u e = ground arith

  pub error_of-flow_complete : (t u : Token) → error_of u (flow_complete t ts) ≡ error_of u ts
  unfolding error_of flow_complete
  error_of-flow_complete (connect r) u = ground arith
  error_of-flow_complete (disconnect r) u = ground arith
  error_of-flow_complete (publish r) u = ground arith
  error_of-flow_complete (subscribe r) u = ground arith
  error_of-flow_complete (unsubscribe r) u = ground arith

  pub woken-set_error :
      (t : Token) (e : TokenError) → (set_error t e ts).woken ≡ wake (state_of t ts).waker ts.woken
  unfolding state_of set_error
  woken-set_error (connect r) e = ground arith
  woken-set_error (disconnect r) e = ground arith
  woken-set_error (publish r) e = ground arith
  woken-set_error (subscribe r) e = ground arith
  woken-set_error (unsubscribe r) e = ground arith

  pub woken-flow_complete :
      (t : Token) → (flow_complete t ts).woken ≡ wake (state_of t ts).waker ts.woken
  unfolding state_of flow_complete
  woken-flow_complete (connect r) = ground arith
  woken-flow_complete (disconnect r) = ground arith
  woken-flow_complete (publish r) = ground arith
  woken-flow_complete (subscribe r) = ground arith
  woken-flow_complete (unsubscribe r) = ground arith

  pub state_of-poll :
      (w : ℕ) (t u : Token)
      → state_of u (poll w t ts).0
        ≡ (if token_beq t u then polled_state w (state_of u ts) else state_of u ts)
  unfolding state_of poll
  state_of-poll w (connect r) u = ground arith
  state_of-poll w (disconnect r) u = ground arith
  state_of-poll w (publish r) u = ground arith
  state_of-poll w (subscribe r) u = ground arith
  state_of-poll w (unsubscribe r) u = ground arith

  pub error_of-poll : (w : ℕ) (t u : Token) → error_of u (poll w t ts).0 ≡ error_of u ts
  unfolding error_of poll
  error_of-poll w (connect r) u = ground arith
  error_of-poll w (disconnect r) u = ground arith
  error_of-poll w (publish r) u = ground arith
  error_of-poll w (subscribe r) u = ground arith
  error_of-poll w (unsubscribe r) u = ground arith

  pub poll_answer :
      (w : ℕ) (t : Token)
      → (poll w t ts).1 ≡ (if (state_of t ts).complete then ready (error_of t ts) else pending)
  unfolding state_of error_of poll
  poll_answer w (connect r) = ground arith
  poll_answer w (disconnect r) = ground arith
  poll_answer w (publish r) = ground arith
  poll_answer w (subscribe r) = ground arith
  poll_answer w (unsubscribe r) = ground arith
