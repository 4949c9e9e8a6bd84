-- ===== src/Net/KeepAlive.antt =====
-- `keep_alive`. What a round finds is an argument: whether it is to exit, the two readings of the clock,
-- whether the channel takes a packet, and what the other tasks do until the sleep is over.
use mesquitte_client.Base.{
  ℕ, ◌+◌, ◌-◌, Bool, true, false, Option, none, some, List, [], ◌∷◌, ◌++◌, leb, if◌then◌else◌,
}
use mesquitte_client.Codec.{Codec}
use mesquitte_client.Packets.{VariablePacket, PacketAndToken, packet_only}
use mesquitte_client.State.{Cache, World}

pub record Tick (k : Codec) (c : Cache k.PublishPacket) : Type 0 where
  pub exit : Bool
  pub now : ℕ
  pub later : ℕ
  pub accepted : Bool
  pub others : World k c → World k c

-- How a round ends: it leaves the loop, or it sleeps.
pub data Pause : Type 0 where
  leaves : Pause
  sleep sleep_until : ℕ → Pause

module _ {k : Codec} {c : Cache k.PublishPacket} where
  -- `outgoing_tx.clone().unwrap().send(…)`; a refusal is only logged.
  abbrev pub send_ping : Option (List (PacketAndToken k)) → Bool → World k c → Option (World k c)
  send_ping none accepted w = none
  send_ping (some sent) true w = some (record w {
    state = record (w.state) {
      outgoing_tx = some (sent ++ packet_only VariablePacket.pingreq ∷ []);
    };
  })
  send_ping (some sent) false w = some w

  abbrev pub paused : Pause → Option (World k c) → Option (World k c × Pause)
  paused p none = none
  paused p (some w) = some (w, p)

  abbrev pub check : (duration elapsed : ℕ) → Tick k c → World k c → Option (World k c × Pause)
  check duration elapsed t w =
      if leb duration elapsed
      then paused (sleep duration) (send_ping w.state.outgoing_tx t.accepted w)
      else some (w, sleep_until (t.later + (duration - elapsed)))

  -- One round of the loop; `duration_since` stops at 0.
  unfoldable pub keep_alive_round :
      (duration : ℕ) → Tick k c → World k c → Option (World k c × Pause)
  keep_alive_round duration t w =
      if t.exit then some (w, leaves) else check duration (t.now - w.state.last_sent_packet_at) t w

  -- The loop, with how each round ended; it ends by itself, or sleeps.
  unfoldable pub keep_alive :
      (duration : ℕ) → List (Tick k c) → World k c → Option (World k c × List Pause)
  unfolding keep_alive_round
  keep_alive duration [] w = some (w, [])
  keep_alive duration (t ∷ ticks) w = elim (keep_alive_round duration t w) [
    | none ↦ none
    | some (w', leaves) ↦ some (w', leaves ∷ [])
    | some (w', pause) ↦ elim (keep_alive duration ticks (t.others w')) [
      | none ↦ none
      | some (w'', pauses) ↦ some (w'', pause ∷ pauses)
    ]
  ]
