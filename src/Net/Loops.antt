-- ===== src/Net/Loops.antt =====
-- The loops of the two tasks. What the reader, the writer and the channels answer are lists of
-- events, one for each round; the time of a write is part of its event.
use mesquitte_client.Base.{ℕ, Bool, true, false, Option, none, some, List, [], ◌∷◌, String}
use mesquitte_client.Codec.{Codec, level0}
use mesquitte_client.Token.{Token, disconnect, publish, flow_complete, set_error, io_error}
use mesquitte_client.Packets.{VariablePacket, PacketAndToken}
use mesquitte_client.State.{Cache, World}
use mesquitte_client.Net.Handlers.{
  handle_publish, handle_puback, handle_pubrec, handle_pubrel, handle_pubcomp, handle_suback,
  handle_unsuback,
}

-- What the dispatch on a packet leads to: a response, `continue`, or `break`.
pub data Next (k : Codec) : Type 0 where
  respond : VariablePacket k → Next k
  proceed stop : Next k

module _ {k : Codec} {c : Cache k.PublishPacket} where
  abbrev pub after_publish :
      Option (World k c × Option (VariablePacket k)) → Option (World k c × Next k)
  after_publish none = none
  after_publish (some (w, none)) = some (w, proceed)
  after_publish (some (w, some resp)) = some (w, respond resp)

  -- The match of `read_from_server`
  unfoldable pub dispatch : VariablePacket k → World k c → Option (World k c × Next k)
  unfolding handle_pubrec
  dispatch (VariablePacket.publish packet) w = after_publish (handle_publish packet w)
  dispatch (VariablePacket.puback id) w = some (handle_puback id w, proceed)
  dispatch (VariablePacket.pubrec id) w = some (w, respond (handle_pubrec id))
  dispatch (VariablePacket.pubrel id) w =
      let (w', resp) = handle_pubrel id w in some (w', respond resp)
  dispatch (VariablePacket.pubcomp id) w = some (handle_pubcomp id w, proceed)
  dispatch (VariablePacket.suback id codes) w = some (handle_suback id codes w, proceed)
  dispatch (VariablePacket.unsuback id) w = some (handle_unsuback id w, proceed)
  dispatch VariablePacket.disconnect w = some (w, stop)
  dispatch VariablePacket.pingresp w = some (w, proceed)
  dispatch _ w = some (w, stop)

-- An answer of `reader.next()`; a packet comes with whether `msg_tx` would take a response to it.
pub data Frame (k : Codec) : Type 0 where
  packet : VariablePacket k → (open_channel : Bool) → Frame k
  failure closed : Frame k

module _ {k : Codec} {c : Cache k.PublishPacket} where
  -- The loop of `read_from_server`: the final state and the responses sent; it ends by itself, or
  -- waits for a frame that has not come.
  unfoldable pub read_from_server :
      List (Frame k) → World k c → Option (World k c × List (VariablePacket k))
  unfolding dispatch
  read_from_server [] w = some (w, [])
  read_from_server (failure ∷ frames) w = some (w, [])
  read_from_server (closed ∷ frames) w = some (w, [])
  read_from_server (packet p open_channel ∷ frames) w = elim (dispatch p w) [
    | none ↦ none
    | some (w', stop) ↦ some (w', [])
    | some (w', proceed) ↦ read_from_server frames w'
    | some (w', respond resp) ↦ elim open_channel [
      | false ↦ some (w', [])
      | true ↦ elim (read_from_server frames w') [
        | none ↦ none
        | some (w'', resps) ↦ some (w'', resp ∷ resps)
      ]
    ]
  ]

-- A round of `write_to_server`: what the `select!` took, and what the writer answered: an error's
-- text, or nothing and the time after the write.
pub data WriteEvent (k : Codec) : Type 0 where
  response : VariablePacket k → Option String → (now : ℕ) → WriteEvent k
  outgoing : PacketAndToken k → Option String → (now : ℕ) → WriteEvent k
  channel_closed : WriteEvent k

module _ {k : Codec} {c : Cache k.PublishPacket} where
  abbrev pub stamp : ℕ → World k c → World k c
  stamp now w = record w { state = record (w.state) { last_sent_packet_at = now } }

  abbrev pub fail_token : Option Token → String → World k c → World k c
  fail_token none e w = w
  fail_token (some token) e w = record w { tokens = set_error token (io_error e) w.tokens }

  -- A publication at level 0 and a disconnection are complete once written.
  abbrev pub complete_written : Option Token → World k c → World k c
  complete_written (some (publish r)) w = elim (w.tokens.publishes.cell r).own.qos [
    | level0 ↦ record w { tokens = flow_complete (publish r) w.tokens }
    | _ ↦ w
  ]
  complete_written (some (disconnect r)) w = record w {
    tokens = flow_complete (disconnect r) w.tokens;
  }
  complete_written _ w = w

  -- The loop of `write_to_server`: the final state and the packets written.
  unfoldable pub write_to_server :
      List (WriteEvent k) → World k c → World k c × List (VariablePacket k)
  write_to_server [] w = (w, [])
  write_to_server (channel_closed ∷ events) w = (w, [])
  write_to_server (response p (some e) now ∷ events) w = (w, [])
  write_to_server (response p none now ∷ events) w =
      let (w', written) = write_to_server events (stamp now w) in (w', p ∷ written)
  write_to_server (outgoing o (some e) now ∷ events) w = (fail_token o.token e w, [])
  write_to_server (outgoing o none now ∷ events) w =
      let (w', written) = write_to_server events (complete_written o.token (stamp now w)) in
      (w', o.packet ∷ written)
