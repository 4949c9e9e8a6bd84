-- ===== src/WsStream/Writes.antt =====
-- What the writer promises: the bytes that it reports as written are those that it handed over.
use mathlib.Core.List.{append_assoc, append-nil}
use mesquitte_client.Base.{
  ℕ, ◌+◌, ◌≡◌, List, [], ◌∷◌, ◌++◌, length, length-append, arith, refl, ap, sym, ◌∙◌,
}
use mesquitte_client.WsStream.Types.{Message, binary, close, skipped, WriteState, WsByteStream}
use mesquitte_client.WsStream.Writing.{
  SinkPoll, Sent, Outcome, ok, poll_write, poll_shutdown, on_error,
}

-- A call of `poll_write` with what the sink answers during it.
pub record Write : Type 0 where
  pub ready_poll : SinkPoll
  pub sent : Sent
  pub buf : List ℕ

-- The bytes that an answer reports as written.
abbrev pub written : Outcome ℕ → ℕ
written (ok n) = n
written _ = 0

abbrev pub contents : List Message → List ℕ
contents [] = []
contents (binary bytes ∷ ms) = bytes ++ contents ms
contents (m ∷ ms) = contents ms

-- Writes one after the other: the bytes reported in all, and the messages that went out.
unfoldable pub run_writes : List Write → WsByteStream → ℕ × List Message × WsByteStream
run_writes [] s = (0, [], s)
run_writes (w ∷ ws) s =
    let (result, ms) = poll_write w.ready_poll w.sent w.buf s in
    let (count, later, s') = run_writes ws result.1 in (written result.0 + count, ms ++ later, s')

written-poll_write :
    (p : SinkPoll) (t : Sent) (buf : List ℕ) (s : WsByteStream)
    → written (poll_write p t buf s).0.0 ≡ length (contents (poll_write p t buf s).1)
unfolding poll_write on_error
written-poll_write p t buf s = ground (arith, append-nil buf)

contents-append : (ms ns : List Message) → contents (ms ++ ns) ≡ contents ms ++ contents ns
contents-append [] ns = refl
contents-append (binary bytes ∷ ms) ns =
    ap (◌++◌ bytes) (contents-append ms ns) ∙ sym (append_assoc bytes (contents ms) (contents ns))
contents-append (close ∷ ms) ns = contents-append ms ns
contents-append (skipped ∷ ms) ns = contents-append ms ns

-- Over any writes and any answers of the sink, the number of bytes that the writer reports as
-- written is the number of bytes in the messages that it handed to the sink.
pub run_writes_count :
    (ws : List Write) (s : WsByteStream)
    → (run_writes ws s).0 ≡ length (contents (run_writes ws s).1)
unfolding run_writes
run_writes_count [] s = refl
run_writes_count (w ∷ ws) s =
    let (result, ms) = poll_write w.ready_poll w.sent w.buf s in
    omega (
      arith,
      written-poll_write w.ready_poll w.sent w.buf s,
      run_writes_count ws result.1,
      ap length (contents-append ms (run_writes ws result.1).1),
      length-append (contents ms) (contents (run_writes ws result.1).1),
    )

-- Once the write side is closed every write fails and hands nothing over.
closed_writes :
    (ws : List Write) (s : WsByteStream)
    → s.write ≡ WriteState.closed
    → ((run_writes ws s).1 ≡ []) × ((run_writes ws s).0 ≡ 0)
unfolding run_writes poll_write
closed_writes [] s e = (refl, refl)
closed_writes (w ∷ ws) s e = ground (arith, closed_writes ws s e)

shut : (p : SinkPoll) (s : WsByteStream) → (poll_shutdown p s).1.write ≡ WriteState.closed
unfolding poll_shutdown on_error
shut p s = ground arith

-- After `poll_shutdown`, whatever it answered, no write hands anything over or reports a byte.
pub run_writes-poll_shutdown :
    (p : SinkPoll) (ws : List Write) (s : WsByteStream)
    → let after = run_writes ws (poll_shutdown p s).1 in (after.1 ≡ []) × (after.0 ≡ 0)
run_writes-poll_shutdown p ws s = closed_writes ws (poll_shutdown p s).1 (shut p s)
