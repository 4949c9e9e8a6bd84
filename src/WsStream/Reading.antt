-- ===== src/WsStream/Reading.antt =====
-- `AsyncRead` and `AsyncBufRead`.
use mesquitte_client.Base.{
  ℕ, zero, suc, ◌+◌, ◌%◌, List, [], ◌∷◌, length, take, drop, nat_beq, min, if◌then◌else◌,
}
use mesquitte_client.WsStream.Types.{
  io, connection_closed, already_closed, other, IoError, passed, not_connected, wrapped, binary,
  close, skipped, Answer, waits, ended, item, fails, ReadState, WsByteStream,
}

-- `Poll<Option<io::Result<()>>>`
pub data Filled : Type 0 where
  unfilled no_more filled : Filled
  failed : IoError → Filled

-- `fill_buf_with_next_msg`: the loop over the answers of the inner stream, on the read state.
unfoldable pub fill : List Answer → ReadState → Filled × List Answer × ReadState
fill [] s = (unfilled, [], s)
fill (waits ∷ inner) s = (unfilled, inner, s)
fill (ended ∷ inner) s = (no_more, inner, ReadState.terminated)
fill (item (binary msg) ∷ inner) s = (filled, inner, ReadState.ready msg 0)
fill (item close ∷ inner) s = (no_more, inner, ReadState.terminated)
fill (item skipped ∷ inner) s = fill inner s
fill (fails (io e) ∷ inner) s = (failed (passed e), inner, s)
fill (fails connection_closed ∷ inner) s = (no_more, inner, ReadState.terminated)
fill (fails already_closed ∷ inner) s = (failed not_connected, inner, ReadState.terminated)
fill (fails (other e) ∷ inner) s = (failed (wrapped e), inner, s)

unfoldable pub fill_buf_with_next_msg : WsByteStream → Filled × WsByteStream
unfolding fill
fill_buf_with_next_msg s =
    let (answer, inner, read) = fill s.inner s.read in
    (answer, record s { inner = inner; read = read })

-- `Poll<io::Result<…>>` with the bytes that are handed over; `out_of_fuel` is no outcome of the
-- source.
pub data Read : Type 0 where
  unready out_of_fuel : Read
  got : List ℕ → Read
  broken : IoError → Read

-- The branch of `poll_read` for `Ready`: `remaining` is the room in the caller's buffer.
abbrev pub read_ready : ℕ → List ℕ → ℕ → WsByteStream → Read × WsByteStream
read_ready remaining bytes amt_read s =
    let data_in = drop amt_read bytes in
    let len = min remaining (length data_in) in
    (
      got (take len data_in),
      if nat_beq len (length data_in)
          then record s { read = ReadState.pending }
          else record s { read = ReadState.ready bytes (amt_read + len) },
    )

-- The loop of `poll_read`
unfoldable pub poll_read_loop : ℕ → ℕ → WsByteStream → ReadState → Read × WsByteStream
unfolding fill_buf_with_next_msg
poll_read_loop zero remaining s _ = (out_of_fuel, s)
poll_read_loop (suc fuel) remaining s (ReadState.ready bytes amt_read) =
    read_ready remaining bytes amt_read s
poll_read_loop (suc fuel) remaining s ReadState.terminated = (got [], s)
poll_read_loop (suc fuel) remaining s ReadState.pending =
    let (answer, s') = fill_buf_with_next_msg s in
    let again = poll_read_loop fuel remaining s' s'.read in
    elim answer [
      | unfilled ↦ (unready, s')
      | no_more ↦ again
      | filled ↦ again
      | failed e ↦ (broken e, s')
    ]

unfoldable pub poll_read : ℕ → WsByteStream → Read × WsByteStream
unfolding poll_read_loop
poll_read remaining s = poll_read_loop 2 remaining s s.read

-- The loop of `poll_fill_buf`: the bytes that are left stay in the state.
unfoldable pub poll_fill_buf_loop : ℕ → WsByteStream → ReadState → Read × WsByteStream
unfolding fill_buf_with_next_msg
poll_fill_buf_loop zero s _ = (out_of_fuel, s)
poll_fill_buf_loop (suc fuel) s (ReadState.ready bytes amt_read) = (got (drop amt_read bytes), s)
poll_fill_buf_loop (suc fuel) s ReadState.terminated = (got [], s)
poll_fill_buf_loop (suc fuel) s ReadState.pending =
    let (answer, s') = fill_buf_with_next_msg s in
    let again = poll_fill_buf_loop fuel s' s'.read in
    elim answer [
      | unfilled ↦ (unready, s')
      | no_more ↦ again
      | filled ↦ again
      | failed e ↦ (broken e, s')
    ]

unfoldable pub poll_fill_buf : WsByteStream → Read × WsByteStream
unfolding poll_fill_buf_loop
poll_fill_buf s = poll_fill_buf_loop 2 s s.read

-- The size of usize, on a machine of 64 bits
abbrev pub usize_size : ℕ
usize_size = 18446744073709551616

-- The sum on usize wraps.
abbrev pub consume_ready : ℕ → ReadState → ReadState
consume_ready amt (ReadState.ready bytes amt_read) =
    let moved = min (length bytes) ((amt_read + amt) % usize_size) in
    if nat_beq moved (length bytes) then ReadState.pending else ReadState.ready bytes moved
consume_ready amt s = s

unfoldable pub consume : ℕ → WsByteStream → WsByteStream
consume amt s = record s { read = consume_ready amt s.read }
