-- ===== src/WsStream/Writing.antt =====
-- `AsyncWrite`. What the sink answers is an argument of each call.
use mesquitte_client.Base.{ℕ, List, [], ◌∷◌, length}
use mesquitte_client.WsStream.Types.{
  WsError, io, connection_closed, already_closed, other, IoError, passed, not_connected, wrapped,
  Message, binary, WriteState, WsByteStream,
}

-- The answer of a sink's `poll_ready`, `poll_flush` or `poll_close`, and of `start_send`.
pub data SinkPoll : Type 0 where
  waiting fine : SinkPoll
  refused : WsError → SinkPoll

pub data Sent : Type 0 where
  taken : Sent
  rejected : WsError → Sent

-- `Poll<Result<…, io::Error>>`
pub data Outcome {ℓ} (A : Type ℓ) : Type ℓ where
  unready : Outcome A
  ok : A → Outcome A
  err : IoError → Outcome A

abbrev pub close_write : WsByteStream → WsByteStream
close_write s = record s { write = WriteState.closed }

-- What an error of the sink becomes; on a closed connection the answer is `closed_value`.
unfoldable pub on_error {ℓ} : {A : Type ℓ} → WsError → A → WsByteStream → Outcome A × WsByteStream
on_error (io e) closed_value s = (err (passed e), s)
on_error connection_closed closed_value s = (ok closed_value, close_write s)
on_error already_closed closed_value s = (err not_connected, close_write s)
on_error (other e) closed_value s = (err (wrapped e), s)

-- The end of `poll_write`, and the message that goes out.
abbrev pub send_binary : Sent → List ℕ → WsByteStream → (Outcome ℕ × WsByteStream) × List Message
send_binary taken buf s =
    ((ok (length buf), record s { write = WriteState.ready }), binary buf ∷ [])
send_binary (rejected e) buf s = (on_error e 0 s, [])

abbrev pub write_when :
    WriteState → SinkPoll → Sent → List ℕ → WsByteStream → (Outcome ℕ × WsByteStream) × List Message
write_when WriteState.closed ready_poll sent buf s = ((err not_connected, s), [])
write_when WriteState.ready waiting sent buf s = ((unready, s), [])
write_when WriteState.ready (refused e) sent buf s = (on_error e 0 s, [])
write_when WriteState.ready fine sent buf s = send_binary sent buf s

unfoldable pub poll_write :
    SinkPoll → Sent → List ℕ → WsByteStream → (Outcome ℕ × WsByteStream) × List Message
unfolding on_error
poll_write ready_poll sent buf s = write_when s.write ready_poll sent buf s

unfoldable pub poll_flush : SinkPoll → WsByteStream → Outcome (Unit {0}) × WsByteStream
unfolding on_error
poll_flush waiting s = (unready, s)
poll_flush fine s = (ok tt, s)
poll_flush (refused e) s = on_error e tt s

unfoldable pub poll_shutdown : SinkPoll → WsByteStream → Outcome (Unit {0}) × WsByteStream
unfolding on_error
poll_shutdown waiting s = (unready, close_write s)
poll_shutdown fine s = (ok tt, close_write s)
poll_shutdown (refused e) s = on_error e tt (close_write s)
