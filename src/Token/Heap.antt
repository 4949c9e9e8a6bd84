-- ===== src/Token/Heap.antt =====
-- `Arc<Mutex<InnerToken>>`: the tokens' cells stand in a heap, and a token is a reference to its
-- cell, which its clones share. `Token` is the enumeration over the five kinds.
use mesquitte_client.Base.{
  ℕ, suc, ◌≡◌, ◌↔◌, Bool, true, false, Option, List, arith, nat_beq, if◌then◌else◌,
}
use mesquitte_client.Codec.{Codec}
use mesquitte_client.Token.Inner.{
  TokenError, TokenState, InnerToken, Poll, poll_inner, set_error_inner, flow_complete_inner,
}
use mesquitte_client.Token.Kinds.{
  ConnectOwn, PublishOwn, SubscribeOwn, UnsubscribeOwn, default_connect, default_disconnect,
  default_publish, default_subscribe, default_unsubscribe,
}

pub data Token : Type 0 where
  connect disconnect publish subscribe unsubscribe : ℕ → Token

-- `Arc::ptr_eq` within a kind
abbrev pub token_beq : Token → Token → Bool
token_beq (connect r) (connect s) = nat_beq r s
token_beq (disconnect r) (disconnect s) = nat_beq r s
token_beq (publish r) (publish s) = nat_beq r s
token_beq (subscribe r) (subscribe s) = nat_beq r s
token_beq (unsubscribe r) (unsubscribe s) = nat_beq r s
token_beq _ _ = false

pub token_beq_iff : (t u : Token) → (token_beq t u ≡ true) ↔ (t ≡ u)
token_beq_iff (connect r) (connect s) = ground arith
token_beq_iff (disconnect r) (disconnect s) = ground arith
token_beq_iff (publish r) (publish s) = ground arith
token_beq_iff (subscribe r) (subscribe s) = ground arith
token_beq_iff (unsubscribe r) (unsubscribe s) = ground arith
token_beq_iff t u = ground arith

-- The cells of one kind; the next allocation takes the number `next`.
pub record Cells (X : Type 0) : Type 0 where
  pub next : ℕ
  pub cell : ℕ → InnerToken X

module _ {X : Type 0} where
  abbrev pub write : ℕ → InnerToken X → Cells X → Cells X
  write r i c = record c { cell = λ s. if nat_beq r s then i else c.cell s }

  -- `Arc::new(Mutex::new(i))`
  abbrev pub alloc : InnerToken X → Cells X → ℕ × Cells X
  alloc i c = (c.next, record (write c.next i c) { next = suc c.next })

  -- A method on a kind's own fields
  abbrev pub modify : ℕ → (X → X) → Cells X → Cells X
  modify r f c = write r (record (c.cell r) { own = f (c.cell r).own }) c

-- The heap, and the wakers that have been woken, in order.
pub record Tokens (k : Codec) : Type 0 where
  pub connects : Cells (ConnectOwn k)
  pub disconnects : Cells (Unit {0})
  pub publishes : Cells PublishOwn
  pub subscribes : Cells (SubscribeOwn k)
  pub unsubscribes : Cells UnsubscribeOwn
  pub woken : List ℕ

module _ {X : Type 0} where
  abbrev pub poll_cell : ℕ → ℕ → Cells X → Cells X × Poll
  poll_cell w r c = let (i, p) = poll_inner w (c.cell r) in (write r i c, p)

  abbrev pub complete_cell :
      (InnerToken X × List ℕ → InnerToken X × List ℕ) → ℕ → Cells X → List ℕ → Cells X × List ℕ
  complete_cell f r c log = let (i, log') = f (c.cell r, log) in (write r i c, log')

module _ {k : Codec} where
  unfoldable pub poll : ℕ → Token → Tokens k → Tokens k × Poll
  unfolding poll_inner
  poll w (connect r) ts = let (c, p) = poll_cell w r ts.connects in (record ts { connects = c }, p)
  poll w (disconnect r) ts =
      let (c, p) = poll_cell w r ts.disconnects in (record ts { disconnects = c }, p)
  poll w (publish r) ts =
      let (c, p) = poll_cell w r ts.publishes in (record ts { publishes = c }, p)
  poll w (subscribe r) ts =
      let (c, p) = poll_cell w r ts.subscribes in (record ts { subscribes = c }, p)
  poll w (unsubscribe r) ts =
      let (c, p) = poll_cell w r ts.unsubscribes in (record ts { unsubscribes = c }, p)

  -- `Token::set_error`
  unfoldable pub set_error : Token → TokenError → Tokens k → Tokens k
  unfolding set_error_inner
  set_error (connect r) e ts =
      let (c, l) = complete_cell (set_error_inner e) r ts.connects ts.woken in
      record ts { connects = c; woken = l }
  set_error (disconnect r) e ts =
      let (c, l) = complete_cell (set_error_inner e) r ts.disconnects ts.woken in
      record ts { disconnects = c; woken = l }
  set_error (publish r) e ts =
      let (c, l) = complete_cell (set_error_inner e) r ts.publishes ts.woken in
      record ts { publishes = c; woken = l }
  set_error (subscribe r) e ts =
      let (c, l) = complete_cell (set_error_inner e) r ts.subscribes ts.woken in
      record ts { subscribes = c; woken = l }
  set_error (unsubscribe r) e ts =
      let (c, l) = complete_cell (set_error_inner e) r ts.unsubscribes ts.woken in
      record ts { unsubscribes = c; woken = l }

  -- `Token::flow_complete`
  unfoldable pub flow_complete : Token → Tokens k → Tokens k
  unfolding flow_complete_inner
  flow_complete (connect r) ts =
      let (c, l) = complete_cell flow_complete_inner r ts.connects ts.woken in
      record ts { connects = c; woken = l }
  flow_complete (disconnect r) ts =
      let (c, l) = complete_cell flow_complete_inner r ts.disconnects ts.woken in
      record ts { disconnects = c; woken = l }
  flow_complete (publish r) ts =
      let (c, l) = complete_cell flow_complete_inner r ts.publishes ts.woken in
      record ts { publishes = c; woken = l }
  flow_complete (subscribe r) ts =
      let (c, l) = complete_cell flow_complete_inner r ts.subscribes ts.woken in
      record ts { subscribes = c; woken = l }
  flow_complete (unsubscribe r) ts =
      let (c, l) = complete_cell flow_complete_inner r ts.unsubscribes ts.woken in
      record ts { unsubscribes = c; woken = l }

  -- `Default` of each kind of token: a new cell
  abbrev pub new_connect : Tokens k → ℕ × Tokens k
  new_connect ts =
      let (r, c) = alloc (default_connect k) ts.connects in (r, record ts { connects = c })

  abbrev pub new_disconnect : Tokens k → ℕ × Tokens k
  new_disconnect ts =
      let (r, c) = alloc default_disconnect ts.disconnects in (r, record ts { disconnects = c })

  abbrev pub new_publish : Tokens k → ℕ × Tokens k
  new_publish ts =
      let (r, c) = alloc default_publish ts.publishes in (r, record ts { publishes = c })

  abbrev pub new_subscribe : Tokens k → ℕ × Tokens k
  new_subscribe ts =
      let (r, c) = alloc (default_subscribe k) ts.subscribes in (r, record ts { subscribes = c })

  abbrev pub new_unsubscribe : Tokens k → ℕ × Tokens k
  new_unsubscribe ts =
      let (r, c) = alloc default_unsubscribe ts.unsubscribes in (r, record ts { unsubscribes = c })

  -- The state and the error of any token
  unfoldable pub state_of : Token → Tokens k → TokenState
  state_of (connect r) ts = (ts.connects.cell r).state
  state_of (disconnect r) ts = (ts.disconnects.cell r).state
  state_of (publish r) ts = (ts.publishes.cell r).state
  state_of (subscribe r) ts = (ts.subscribes.cell r).state
  state_of (unsubscribe r) ts = (ts.unsubscribes.cell r).state

  unfoldable pub error_of : Token → Tokens k → Option TokenError
  error_of (connect r) ts = (ts.connects.cell r).error
  error_of (disconnect r) ts = (ts.disconnects.cell r).error
  error_of (publish r) ts = (ts.publishes.cell r).error
  error_of (subscribe r) ts = (ts.subscribes.cell r).error
  error_of (unsubscribe r) ts = (ts.unsubscribes.cell r).error
