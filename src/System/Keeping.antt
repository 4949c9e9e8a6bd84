-- ===== src/System/Keeping.antt =====
-- What each step of the tasks keeps.
use mesquitte_client.Base.{
  ℕ, ◌≡◌, refl, ap, subst, ◌∙◌, Bool, true, false, Option, none, some, List, [], ◌∷◌, String,
  nat_key, if◌then◌else◌, leb, ◌-◌,
}
use mesquitte_client.Codec.{Codec, level0, level1, level2}
use mesquitte_client.Token.{
  Token, Tokens, connect, disconnect, publish, subscribe, unsubscribe, flow_complete, set_error,
  io_error, poll, SubscribeOwn,
}
use mesquitte_client.Pkid.{clean_up}
use mesquitte_client.Pkid.Issue.{clean_up-IsValid}
use mesquitte_client.Packets.{PacketAndToken}
use mesquitte_client.State.{Cache, World}
use mesquitte_client.Net.{
  WriteEvent, response, outgoing, channel_closed, write_to_server, Tick, Pause, sleep,
  keep_alive_round, stamp, fail_token, complete_written, send_ping, paused,
}
use mesquitte_client.Net.Subscribing.{own_subscriptions}
use mesquitte_client.Net.Sound.{
  Sound, Goes, stays-Goes, same-Goes, same-Sound, own-flow_complete, own-set_error, own-poll,
  own-fail_all,
}
use mesquitte_client.Net.Handling.{dispatch-Handles, Handles}
use mesquitte_client.System.{
  cleaned, TaskStep, handles, writes, pings, cleans_up, polls, Tasks, idle, first,
}

module _ {k : Codec} {c : Cache k.PublishPacket} where
  abbrev pub IsOpen : World k c → Type 0
  IsOpen w = (sent : List (PacketAndToken k)) × (w.state.outgoing_tx ≡ some sent)

  -- The world stays sound, and the channel open.
  pub record Keeps (w w' : World k c) : Type 0 where
    pub sound : Sound w'
    pub open_channel : IsOpen w → IsOpen w'

  pub Goes-Keeps : (w w' : World k c) → Goes w w' → Keeps w w'
  Goes-Keeps w w' g = record { sound = g.sound; open_channel = λ (sent, h). (sent, g.channel ∙ h) }

  pub trans-Goes : (w w' w'' : World k c) → Goes w w' → Goes w' w'' → Goes w w''
  trans-Goes w w' w'' g h = record { sound = h.sound; channel = h.channel ∙ g.channel }

  pub trans-Keeps : {w w' w'' : World k c} → Keeps w w' → Keeps w' w'' → Keeps w w''
  trans-Keeps a b = record {
    sound = b.sound;
    open_channel = λ h. b.open_channel (a.open_channel h);
  }

  -- A step that changes nothing but the tokens, and of them no subscription.
  pub tokens-Goes :
      (w : World k c) (ts : Tokens k)
      → ((r : ℕ) → (ts.subscribes.cell r).own ≡ (w.tokens.subscribes.cell r).own)
      → Sound w
      → Goes w (record w { tokens = ts })
  tokens-Goes w ts own v =
      same-Goes w (record w { tokens = ts }) refl refl (λ f x h. h)
        (λ r. ap (λ (o : SubscribeOwn k). o.subscriptions) (own r)) v v.ids

  stamp-Goes : (now : ℕ) (w : World k c) → Sound w → Goes w (stamp now w)
  stamp-Goes now w v = same-Goes w (stamp now w) refl refl (λ f x h. h) (λ r. refl) v v.ids

  complete_written-Goes :
      (t : Option Token) (w : World k c) → Sound w → Goes w (complete_written t w)
  complete_written-Goes none w v = stays-Goes w v
  complete_written-Goes (some (connect r)) w v = stays-Goes w v
  complete_written-Goes (some (subscribe r)) w v = stays-Goes w v
  complete_written-Goes (some (unsubscribe r)) w v = stays-Goes w v
  complete_written-Goes (some (disconnect r)) w v =
      tokens-Goes w (flow_complete (disconnect r) w.tokens)
        (own-flow_complete (disconnect r) w.tokens) v
  complete_written-Goes (some (publish r)) w v =
      elim (w.tokens.publishes.cell r).own.qos
        as (λ q.
          Goes w (elim q [
            | level0 ↦ record w { tokens = flow_complete (publish r) w.tokens }
            | _ ↦ w
          ])) [
            | level0 ↦
                tokens-Goes w (flow_complete (publish r) w.tokens)
                  (own-flow_complete (publish r) w.tokens) v
            | level1 ↦ stays-Goes w v
            | level2 ↦ stays-Goes w v
          ]

  fail_token-Goes :
      (t : Option Token) (e : String) (w : World k c) → Sound w → Goes w (fail_token t e w)
  fail_token-Goes none e w v = stays-Goes w v
  fail_token-Goes (some t) e w v =
      tokens-Goes w (set_error t (io_error e) w.tokens) (own-set_error t (io_error e) w.tokens) v

  write-Goes : (e : WriteEvent k) (w : World k c) → Sound w → Goes w (write_to_server (e ∷ []) w).0
  unfolding write_to_server
  write-Goes channel_closed w v = stays-Goes w v
  write-Goes (response p (some e) now) w v = stays-Goes w v
  write-Goes (response p none now) w v = stamp-Goes now w v
  write-Goes (outgoing o (some e) now) w v = fail_token-Goes o.token e w v
  write-Goes (outgoing o none now) w v =
      trans-Goes w (stamp now w) _ (stamp-Goes now w v)
        (complete_written-Goes o.token (stamp now w) (stamp-Goes now w v).sound)

  pub own-clean : (w : World k c) (r : ℕ) → own_subscriptions r (cleaned w) ≡ own_subscriptions r w
  unfolding clean_up
  own-clean w r =
      ap (λ (o : SubscribeOwn k). o.subscriptions)
        (own-fail_all w.state.packet_ids.index w.tokens r)

  pub clean-Goes : (w : World k c) → Sound w → Goes w (cleaned w)
  unfolding clean_up
  clean-Goes w v =
      same-Goes w (cleaned w) refl refl (λ f x h. h) (own-clean w) v
        (clean_up-IsValid w.state.packet_ids w.tokens v.ids)

  -- A ping is the one step that touches the channel.
  abbrev Pings : World k c → Option (World k c × Pause) → Type 0
  Pings w none = Unit
  Pings w (some (w', p)) = Keeps w w'

  pub stays-Keeps : (w : World k c) → Sound w → Keeps w w
  stays-Keeps w v = record { sound = v; open_channel = λ h. h }

  send_ping-Pings :
      (p : Pause) (channel : Option (List (PacketAndToken k))) (accepted : Bool) (w : World k c)
      → Sound w
      → Pings w (paused p (send_ping channel accepted w))
  send_ping-Pings p none accepted w v = tt
  send_ping-Pings p (some sent) false w v = stays-Keeps w v
  send_ping-Pings p (some sent) true w v = record {
    sound = same-Sound w _ refl (λ f x h. h) (λ r. refl) v v.ids;
    open_channel = λ h. (_, refl);
  }

  if-Pings :
      (b : Bool) (w : World k c) (r r' : Option (World k c × Pause))
      → Pings w r
      → Pings w r'
      → Pings w (if b then r else r')
  if-Pings true w r r' x y = x
  if-Pings false w r r' x y = y

  ping-Pings :
      (duration : ℕ) (t : Tick k c) (w : World k c)
      → Sound w
      → Pings w (keep_alive_round duration t w)
  unfolding keep_alive_round
  ping-Pings duration t w v = if-Pings t.exit w _ _ (stays-Keeps w v) (
      if-Pings (leb duration (t.now - w.state.last_sent_packet_at)) w _ _
        (send_ping-Pings (sleep duration) w.state.outgoing_tx t.accepted w v) (stays-Keeps w v))

  pub task-Keeps : {w w' : World k c} → TaskStep w w' → Sound w → Keeps w w'
  task-Keeps (handles p w w' n h) v = Goes-Keeps w w' (subst (Handles w) h (dispatch-Handles p w v))
  task-Keeps (writes e w) v = Goes-Keeps w _ (write-Goes e w v)
  task-Keeps (pings duration t w w' p h) v = subst (Pings w) h (ping-Pings duration t w v)
  task-Keeps (cleans_up w) v = Goes-Keeps w _ (clean-Goes w v)
  task-Keeps (polls waker t w) v =
      Goes-Keeps w _ (tokens-Goes w (poll waker t w.tokens).0 (own-poll waker t w.tokens) v)

  pub Tasks-Keeps : {w w' : World k c} → Tasks w w' → Sound w → Keeps w w'
  Tasks-Keeps (idle w) v = stays-Keeps w v
  Tasks-Keeps (first s ss) v = let a = task-Keeps s v in trans-Keeps a (Tasks-Keeps ss a.sound)
