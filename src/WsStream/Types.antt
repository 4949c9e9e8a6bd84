-- ===== src/WsStream/Types.antt =====
-- The state of `WsByteStream`. The inner WebSocket is a parameter: what its `poll_next` will answer
-- is a list of answers, and what its sink answers is an argument of each call.
use mesquitte_client.Base.{ℕ, List}

-- `tungstenite::Error`, in the cases that the source tells apart; a number stands for the payload.
pub data WsError : Type 0 where
  io : ℕ → WsError
  connection_closed already_closed : WsError
  other : ℕ → WsError

-- `io::Error`: one that is passed on, one of kind NotConnected, one of kind Other.
pub data IoError : Type 0 where
  passed : ℕ → IoError
  not_connected : IoError
  wrapped : ℕ → IoError

-- `tungstenite::Message`: all but binary and close messages are skipped.
pub data Message : Type 0 where
  binary : List ℕ → Message
  close skipped : Message

-- An answer of `poll_next`: Pending, None, or an item.
pub data Answer : Type 0 where
  waits ended : Answer
  item : Message → Answer
  fails : WsError → Answer

pub data ReadState : Type 0 where
  pending terminated : ReadState
  ready : (bytes : List ℕ) (amt_read : ℕ) → ReadState

pub data WriteState : Type 0 where
  ready closed : WriteState

pub record WsByteStream : Type 0 where
  pub inner : List Answer
  pub read : ReadState
  pub write : WriteState

abbrev pub ws_new : List Answer → WsByteStream
ws_new inner = record { inner = inner; read = ReadState.pending; write = WriteState.ready }
