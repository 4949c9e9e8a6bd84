-- ===== src/System/Releasing.antt =====
-- No step of the tasks registers a token.
use mesquitte_client.Base.{
  ℕ, get, ◌≡◌, refl, sym, subst, inr, Bool, true, false, Option, none, some, List, [], ◌∷◌, String,
  nat_key, if◌then◌else◌, leb, ◌-◌,
}
use mesquitte_client.Codec.{Codec, level0, level1, level2}
use mesquitte_client.Token.{
  Token, Tokens, connect, disconnect, publish, subscribe, unsubscribe, flow_complete, set_error,
  io_error, poll,
}
use mesquitte_client.Pkid.{get_token, clean_up}
use mesquitte_client.Packets.{PacketAndToken}
use mesquitte_client.State.{Cache, World}
use mesquitte_client.Net.{
  WriteEvent, response, outgoing, channel_closed, write_to_server, Tick, Pause, sleep,
  keep_alive_round, stamp, fail_token, complete_written, send_ping, paused,
}
use mesquitte_client.System.{
  cleaned, TaskStep, handles, writes, pings, cleans_up, polls, Tasks, idle, first,
}
use mesquitte_client.System.Lasting.{
  Lasts, set_error-Lasts, flow_complete-Lasts, poll-Lasts, fail_all-Lasts, fail_all-IsDone,
}
use mesquitte_client.System.Limits.{
  limits, IsMade, limits-flow_complete, limits-set_error, limits-poll, limits-fail_all, Releases,
  trans-Releases, kept-Releases, stays-Releases,
}
use mesquitte_client.System.Handling.{Lets, dispatch-Lets}

module _ {k : Codec} {c : Cache k.PublishPacket} where
  pub tokens-Releases :
      (w : World k c) (ts : Tokens k)
      → limits ts ≡ limits w.tokens
      → Lasts w.tokens ts
      → Releases w (record w { tokens = ts })
  tokens-Releases w ts same = kept-Releases w (record w { tokens = ts }) refl same

  complete_written-Releases : (t : Option Token) (w : World k c) → Releases w (complete_written t w)
  complete_written-Releases none w = stays-Releases w
  complete_written-Releases (some (connect r)) w = stays-Releases w
  complete_written-Releases (some (subscribe r)) w = stays-Releases w
  complete_written-Releases (some (unsubscribe r)) w = stays-Releases w
  complete_written-Releases (some (disconnect r)) w =
      tokens-Releases w (flow_complete (disconnect r) w.tokens)
        (limits-flow_complete (disconnect r) w.tokens) (flow_complete-Lasts (disconnect r) w.tokens)
  complete_written-Releases (some (publish r)) w =
      elim (w.tokens.publishes.cell r).own.qos
        as (λ q.
          Releases w (elim q [
            | level0 ↦ record w { tokens = flow_complete (publish r) w.tokens }
            | _ ↦ w
          ])) [
            | level0 ↦
                tokens-Releases w (flow_complete (publish r) w.tokens)
                  (limits-flow_complete (publish r) w.tokens)
                  (flow_complete-Lasts (publish r) w.tokens)
            | level1 ↦ stays-Releases w
            | level2 ↦ stays-Releases w
          ]

  fail_token-Releases :
      (t : Option Token) (e : String) (w : World k c) → Releases w (fail_token t e w)
  fail_token-Releases none e w = stays-Releases w
  fail_token-Releases (some t) e w =
      tokens-Releases w (set_error t (io_error e) w.tokens)
        (limits-set_error t (io_error e) w.tokens) (set_error-Lasts t (io_error e) w.tokens)

  write-Releases : (e : WriteEvent k) (w : World k c) → Releases w (write_to_server (e ∷ []) w).0
  unfolding write_to_server
  write-Releases channel_closed w = stays-Releases w
  write-Releases (response p (some e) now) w = stays-Releases w
  write-Releases (response p none now) w = kept-Releases w (stamp now w) refl refl (λ t h. h)
  write-Releases (outgoing o (some e) now) w = fail_token-Releases o.token e w
  write-Releases (outgoing o none now) w =
      trans-Releases w (stamp now w) _ (kept-Releases w (stamp now w) refl refl (λ t h. h))
        (complete_written-Releases o.token (stamp now w))

  if-Lets {ℓ} :
      {A : Type ℓ} (w : World k c) (b : Bool) (r r' : Option (World k c × A))
      → Lets w r
      → Lets w r'
      → Lets w (if b then r else r')
  if-Lets w true r r' x y = x
  if-Lets w false r r' x y = y

  send_ping-Lets :
      (p : Pause) (channel : Option (List (PacketAndToken k))) (accepted : Bool) (w : World k c)
      → Lets w (paused p (send_ping channel accepted w))
  send_ping-Lets p none accepted w = tt
  send_ping-Lets p (some sent) false w = stays-Releases w
  send_ping-Lets p (some sent) true w = kept-Releases w _ refl refl (λ t h. h)

  ping-Lets : (duration : ℕ) (t : Tick k c) (w : World k c) → Lets w (keep_alive_round duration t w)
  unfolding keep_alive_round
  ping-Lets duration t w = if-Lets w t.exit _ _ (stays-Releases w) (
      if-Lets w (leb duration (t.now - w.state.last_sent_packet_at)) _ _
        (send_ping-Lets (sleep duration) w.state.outgoing_tx t.accepted w) (stays-Releases w))

  pub clean-Releases : (w : World k c) → Releases w (cleaned w)
  unfolding clean_up get_token get
  clean-Releases w = record {
    fewer = λ j t h. absurd (cc h);
    older = λ t h. subst (IsMade t) (sym (limits-fail_all w.state.packet_ids.index w.tokens)) h;
    ends = λ j t h. inr (fail_all-IsDone w.state.packet_ids.index w.tokens j t h);
    lasts = fail_all-Lasts w.state.packet_ids.index w.tokens;
    shrinks = λ t h. absurd (cc h);
  }

  pub task-Releases : {w w' : World k c} → TaskStep w w' → Releases w w'
  task-Releases (handles p w w' n h) = subst (Lets w) h (dispatch-Lets p w)
  task-Releases (writes e w) = write-Releases e w
  task-Releases (pings duration t w w' p h) = subst (Lets w) h (ping-Lets duration t w)
  task-Releases (cleans_up w) = clean-Releases w
  task-Releases (polls waker t w) =
      tokens-Releases w (poll waker t w.tokens).0 (limits-poll waker t w.tokens)
        (poll-Lasts waker t w.tokens)

  pub Tasks-Releases : {w w' : World k c} → Tasks w w' → Releases w w'
  Tasks-Releases (idle w) = stays-Releases w
  Tasks-Releases (first {w} {w'} {w''} s ss) =
      trans-Releases w w' w'' (task-Releases s) (Tasks-Releases ss)
