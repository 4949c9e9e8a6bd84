-- ===== src/WsStream/Fuel.antt =====
-- The loops of the readers end: the second round never waits for a message.
use mesquitte_client.Base.{ℕ, ◌≢◌, List, [], ◌∷◌, arith, refl}
use mesquitte_client.WsStream.Types.{
  io, connection_closed, already_closed, other, binary, close, skipped, Answer, waits, ended, item,
  fails, ReadState, WsByteStream,
}
use mesquitte_client.WsStream.Reading.{
  Filled, no_more, filled, fill, fill_buf_with_next_msg, out_of_fuel, poll_read_loop, poll_read,
  poll_fill_buf_loop, poll_fill_buf,
}

-- A message or the end of the stream leaves a state other than `Pending`.
abbrev pub Settles : Filled → ReadState → Type 0
Settles filled s = s ≢ ReadState.pending
Settles no_more s = s ≢ ReadState.pending
Settles _ s = Unit

pub fill-Settles : (inner : List Answer) (s : ReadState) → Settles (fill inner s).0 (fill inner s).2
unfolding fill
fill-Settles [] s = tt
fill-Settles (waits ∷ inner) s = tt
fill-Settles (ended ∷ inner) s = λ e. cc
fill-Settles (item (binary msg) ∷ inner) s = λ e. cc
fill-Settles (item close ∷ inner) s = λ e. cc
fill-Settles (item skipped ∷ inner) s = fill-Settles inner s
fill-Settles (fails (io e) ∷ inner) s = tt
fill-Settles (fails connection_closed ∷ inner) s = λ e. cc
fill-Settles (fails already_closed ∷ inner) s = tt
fill-Settles (fails (other e) ∷ inner) s = tt

module _ (remaining : ℕ) where
  read_settled :
      (s : WsByteStream) (r : ReadState)
      → r ≢ ReadState.pending
      → (poll_read_loop 1 remaining s r).0 ≢ out_of_fuel
  unfolding poll_read_loop
  read_settled s ReadState.pending h = absurd (h refl)
  read_settled s ReadState.terminated h = λ e. cc
  read_settled s (ReadState.ready bytes n) h = λ e. cc

  read_ends : (s : WsByteStream) (r : ReadState) → (poll_read_loop 2 remaining s r).0 ≢ out_of_fuel
  unfolding poll_read_loop fill_buf_with_next_msg
  read_ends s ReadState.pending =
      let s' = (fill_buf_with_next_msg s).1 in
      ground (arith, fill-Settles s.inner s.read, read_settled s' s'.read)
  read_ends s ReadState.terminated = λ e. cc
  read_ends s (ReadState.ready bytes n) = λ e. cc

fill_buf_settled :
    (s : WsByteStream) (r : ReadState)
    → r ≢ ReadState.pending
    → (poll_fill_buf_loop 1 s r).0 ≢ out_of_fuel
unfolding poll_fill_buf_loop
fill_buf_settled s ReadState.pending h = absurd (h refl)
fill_buf_settled s ReadState.terminated h = λ e. cc
fill_buf_settled s (ReadState.ready bytes n) h = λ e. cc

fill_buf_ends : (s : WsByteStream) (r : ReadState) → (poll_fill_buf_loop 2 s r).0 ≢ out_of_fuel
unfolding poll_fill_buf_loop fill_buf_with_next_msg
fill_buf_ends s ReadState.pending =
    let s' = (fill_buf_with_next_msg s).1 in
    ground (arith, fill-Settles s.inner s.read, fill_buf_settled s' s'.read)
fill_buf_ends s ReadState.terminated = λ e. cc
fill_buf_ends s (ReadState.ready bytes n) = λ e. cc

-- The loops of `poll_read` and `poll_fill_buf` end within two rounds, in every state.
pub readers_end :
    (remaining : ℕ) (s : WsByteStream)
    → ((poll_read remaining s).0 ≢ out_of_fuel) × ((poll_fill_buf s).0 ≢ out_of_fuel)
unfolding poll_read poll_fill_buf
readers_end remaining s = (read_ends remaining s s.read, fill_buf_ends s s.read)
