-- ===== src/Token/Inner.antt =====
-- src/token/mod.rs: the errors, the part that every token has, and the bodies of the macros
-- `impl_future` and `impl_tokenize`. A waker is a number; waking appends it to a log.
use mesquitte_client.Base.{ℕ, Bool, true, false, Option, none, some, List, [], ◌∷◌, ◌++◌, String}

pub data TokenError : Type 0 where
  io_error : String → TokenError
  connect_timeout network_unreachable : TokenError
  connect_error : String → TokenError
  connect_failed : ℕ → TokenError
  connection_lost reconnecting : TokenError
  connection_error : String → TokenError
  invalid_topic packet_id_error internal_server_error : TokenError
  packet_error : String → TokenError

-- `State`: whether the token is complete, and the waker of the task that waits for it.
pub record TokenState : Type 0 where
  pub complete : Bool
  pub waker : Option ℕ

-- An `InnerToken`: the fields of its kind, `own`, with the state and the error that all kinds have.
pub record InnerToken (X : Type 0) : Type 0 where
  pub own : X
  pub state : TokenState
  pub error : Option TokenError

pub data Poll : Type 0 where
  ready : Option TokenError → Poll
  pending : Poll

-- `State::default`, `None`
abbrev pub fresh : {X : Type 0} → X → InnerToken X
fresh x = record { own = x; state = record { complete = false; waker = none }; error = none }

-- `waker.take()` and `waker.wake()`
abbrev pub wake : Option ℕ → List ℕ → List ℕ
wake none log = log
wake (some w) log = log ++ w ∷ []

module _ {X : Type 0} where
  -- `poll` of `impl_future`, with the waker of the context
  unfoldable pub poll_inner : ℕ → InnerToken X → InnerToken X × Poll
  poll_inner w i = elim i.state.complete [
    | true ↦ (i, ready i.error)
    | false ↦ (record i { state = record { complete = false; waker = some w } }, pending)
  ]

  unfoldable pub set_error_inner : TokenError → InnerToken X × List ℕ → InnerToken X × List ℕ
  set_error_inner e (i, log) = (
    record i { error = some e; state = record { complete = true; waker = none } },
    wake i.state.waker log,
  )

  unfoldable pub flow_complete_inner : InnerToken X × List ℕ → InnerToken X × List ℕ
  flow_complete_inner (i, log) =
      (record i { state = record { complete = true; waker = none } }, wake i.state.waker log)
