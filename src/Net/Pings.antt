-- ===== src/Net/Pings.antt =====
-- When `keep_alive` sends a PINGREQ.
use mesquitte_client.Base.{
  ℕ, ◌+◌, ◌-◌, ◌≤◌, ◌<◌, ◌≡◌, refl, sym, ap, ◌∙◌, true, false, none, some, List, [], ◌∷◌, ◌++◌, leb,
  arith, length, length-append,
}
use mathlib.Core.List.{append-nil, append_assoc}
use mesquitte_client.Codec.{Codec}
use mesquitte_client.Packets.{VariablePacket, PacketAndToken, packet_only}
use mesquitte_client.State.{Cache, World}
use mesquitte_client.Net.KeepAlive.{Tick, Pause, sleep, sleep_until, keep_alive_round, keep_alive}

module _ {k : Codec} {c : Cache k.PublishPacket} where
  -- What a PINGREQ in the channel makes of the state.
  abbrev pub pinged : List (PacketAndToken k) → World k c → World k c
  pinged sent w = record w {
    state = record (w.state) {
      outgoing_tx = some (sent ++ packet_only VariablePacket.pingreq ∷ []);
    };
  }

  round_pings :
      (duration : ℕ) (t : Tick k c) (w : World k c) (sent : List (PacketAndToken k))
      → t.exit ≡ false
      → t.accepted ≡ true
      → w.state.outgoing_tx ≡ some sent
      → duration ≤ t.now - w.state.last_sent_packet_at
      → keep_alive_round duration t w ≡ some (pinged sent w, sleep duration)
  unfolding keep_alive_round
  round_pings duration t w sent stays taken channel due =
      let over : leb duration (t.now - w.state.last_sent_packet_at) ≡ true = ground arith in
      rw (stays, over, channel, taken)

  round_waits :
      (duration : ℕ) (t : Tick k c) (w : World k c)
      → t.exit ≡ false
      → t.now - w.state.last_sent_packet_at < duration
      → keep_alive_round duration t w
        ≡ some (w, sleep_until (t.later + (duration - (t.now - w.state.last_sent_packet_at))))
  unfolding keep_alive_round
  round_waits duration t w stays early =
      let recent : leb duration (t.now - w.state.last_sent_packet_at) ≡ false = ground arith in
      rw (stays, recent)

  sleep_then :
      (duration : ℕ) (t : Tick k c) (ticks : List (Tick k c)) (w w' : World k c) (d : ℕ)
      → keep_alive_round duration t w ≡ some (w', sleep d)
      → keep_alive duration (t ∷ ticks) w ≡ elim (keep_alive duration ticks (t.others w')) [
        | none ↦ none
        | some (w'', pauses) ↦ some (w'', sleep d ∷ pauses)
      ]
  unfolding keep_alive
  sleep_then duration t ticks w w' d h = rw (keep_alive, h)

  sleep_until_then :
      (duration : ℕ) (t : Tick k c) (ticks : List (Tick k c)) (w w' : World k c) (d : ℕ)
      → keep_alive_round duration t w ≡ some (w', sleep_until d)
      → keep_alive duration (t ∷ ticks) w ≡ elim (keep_alive duration ticks (t.others w')) [
        | none ↦ none
        | some (w'', pauses) ↦ some (w'', sleep_until d ∷ pauses)
      ]
  unfolding keep_alive
  sleep_until_then duration t ticks w w' d h = rw (keep_alive, h)

  one_ping :
      (duration : ℕ) (t : Tick k c) (w : World k c) (sent : List (PacketAndToken k))
      → t.exit ≡ false
      → t.accepted ≡ true
      → w.state.outgoing_tx ≡ some sent
      → duration ≤ t.now - w.state.last_sent_packet_at
      → keep_alive duration (t ∷ []) w ≡ some (t.others (pinged sent w), sleep duration ∷ [])
  unfolding keep_alive
  one_ping duration t w sent stays taken channel due =
      sleep_then duration t [] w (pinged sent w) duration
        (round_pings duration t w sent stays taken channel due)

-- When the last packet is younger than the interval, `keep_alive` sleeps until it is as old as that; if
-- then nothing was sent in the meantime, the channel is open and takes packets, it puts one PINGREQ into
-- the channel and sleeps for the interval.
pub keep_alive_lem :
    {k : Codec} {c : Cache k.PublishPacket} (duration : ℕ) (t t' : Tick k c) (w : World k c)
    (sent : List (PacketAndToken k))
    → t.exit ≡ false
    → t'.exit ≡ false
    → t'.accepted ≡ true
    → w.state.last_sent_packet_at ≤ t.now
    → t.now ≤ t.later
    → t.now < w.state.last_sent_packet_at + duration
    → (t.others w).state.last_sent_packet_at ≡ w.state.last_sent_packet_at
    → (t.others w).state.outgoing_tx ≡ some sent
    → t.later + (duration - (t.now - w.state.last_sent_packet_at)) ≤ t'.now
    → keep_alive duration (t ∷ t' ∷ []) w
      ≡ some (
        t'.others (pinged sent (t.others w)),
        sleep_until (t.later + (duration - (t.now - w.state.last_sent_packet_at)))
            ∷ sleep duration
            ∷ [],
      )
keep_alive_lem duration t t' w sent stays stays' taken past clock early quiet channel woken =
    let first = round_waits duration t w stays (omega arith) in
    let second =
      one_ping duration t' (t.others w) sent stays' taken channel (omega (arith, quiet)) in
    sleep_until_then duration t (t' ∷ []) w w _ first ∙ (rw second)

-- A round in which nobody else does anything
abbrev pub quiet_tick : {k : Codec} {c : Cache k.PublishPacket} → (now later : ℕ) → Tick k c
quiet_tick now later = record {
  exit = false;
  now = now;
  later = later;
  accepted = true;
  others = λ w. w;
}

-- The packets that the channel has room for
abbrev pub capacity : ℕ
capacity = 8

-- Rounds in which nobody else does anything, each at its time
abbrev pub quiet_ticks : {k : Codec} {c : Cache k.PublishPacket} → List ℕ → List (Tick k c)
quiet_ticks [] = []
quiet_ticks (now ∷ times) = quiet_tick now now ∷ quiet_ticks times

abbrev pub pings : (k : Codec) → List ℕ → List (PacketAndToken k)
pings k [] = []
pings k (now ∷ times) = packet_only VariablePacket.pingreq ∷ pings k times

abbrev pub no_pauses : List ℕ → List Pause
no_pauses [] = []
no_pauses (now ∷ times) = sleep 0 ∷ no_pauses times

-- With a keep-alive of 0, which turns it off in MQTT, `keep_alive` sends at once: as long as no more packets
-- have gone into the channel than the eight that it has room for, where it is open and nobody else is at
-- work, each round, whenever it comes, puts a PINGREQ into the channel and sleeps for no time.
pub keep_alive_zero :
    {k : Codec} {c : Cache k.PublishPacket} (times : List ℕ) (w : World k c)
    (sent : List (PacketAndToken k))
    → w.state.outgoing_tx ≡ some sent
    → length sent + length times ≤ capacity
    → (w' : World k c) × (keep_alive 0 (quiet_ticks times) w ≡ some (w', no_pauses times))
      × (w'.state.outgoing_tx ≡ some (sent ++ pings k times))
unfolding keep_alive
keep_alive_zero [] w sent channel room = (w, refl, channel ∙ ap some (sym (append-nil sent)))
keep_alive_zero {k} {c} (now ∷ times) w sent channel room =
    let t : Tick k c = quiet_tick now now in
    let ping : List (PacketAndToken k) = packet_only VariablePacket.pingreq ∷ [] in
    let first : keep_alive_round 0 t w ≡ some (pinged sent w, sleep 0) =
      round_pings 0 t w sent refl refl channel (omega arith) in
    let longer = length-append sent ping in
    let (w', run, ended) =
      keep_alive_zero times (pinged sent w) (sent ++ ping) refl (omega (arith, longer, room)) in
    (
      w',
      sleep_then 0 t (quiet_ticks times) w (pinged sent w) 0 first ∙ (rw run),
      ended ∙ ap some (append_assoc sent ping (pings k times)),
    )
