-- ===== src/System/Unshared.antt =====
-- `disconnect` and `connect` register no token.
use mesquitte_client.Base.{
  ℕ, ◌≡◌, refl, ◌∙◌, inl, inr, Bool, true, false, Option, none, some, Bool-cases,
}
use mesquitte_client.Codec.{Codec}
use mesquitte_client.Token.{
  Token, Tokens, connect_failed, packet_error, reconnecting, connection_lost, modify,
  set_return_code, new_connect, new_disconnect,
}
use mesquitte_client.Packets.{VariablePacket, ConnectPacket}
use mesquitte_client.State.{Cache, World}
use mesquitte_client.Client.{
  MqttClient, ConnectStatus, is_connected, Wait, reject, hand_over, disconnect, FirstFrame, ended,
  broken, frame, Dial, refused, crashes, stalls, opened, silent, Await, ready, hangs, panics,
  mark_session, renew, accept_connect, on_first, greeted, connect_from, connect,
  build_connect_packet,
}
use mesquitte_client.System.{Waits}
use mesquitte_client.System.Lasting.{flow_complete-Lasts, connects-Lasts, mark_session-Lasts}
use mesquitte_client.System.Limits.{
  limits, limits-flow_complete, Releases, trans-Releases, kept-Releases,
}
use mesquitte_client.System.Making.{new_connect-Makes, new_disconnect-Makes}
use mesquitte_client.System.Releasing.{tokens-Releases}
use mesquitte_client.System.Registering.{reject-Releases, hand_over-Frees}
use mesquitte_client.System.Registered.{Closed, Frees-Registers}
use mesquitte_client.System.Alone.{Registered, put-Registered}

limits-mark_session :
    {k : Codec} (session_present : Bool) (r : ℕ) (ts : Tokens k)
    → limits (mark_session session_present r ts) ≡ limits ts
limits-mark_session true r ts = refl
limits-mark_session false r ts = refl

module _ {k : Codec} {c : Cache k.PublishPacket} where
  -- What is left of `connect`, if it does not panic.
  abbrev Passes : World k c → Await (MqttClient k c) → Type 0
  Passes w panics = Unit
  Passes w hangs = Unit
  Passes w (ready client) = Releases w client.world

  on_first-Releases :
      (now r : ℕ) (first : FirstFrame k) (client : MqttClient k c)
      → Releases client.world (on_first now r first client).world
  unfolding renew
  on_first-Releases now r ended client =
      reject-Releases (connect_failed 0) (Token.connect r) client.world
  on_first-Releases now r (broken e) client =
      reject-Releases (packet_error e) (Token.connect r) client.world
  on_first-Releases now r (frame (VariablePacket.connack code session_present)) client =
      elim (Bool-cases (k.is_accepted code)) [
        | inl accepted ↦ rw accepted (
            kept-Releases client.world (accept_connect now session_present r client).world refl
              (limits-flow_complete (Token.connect r)
                  (mark_session session_present r client.world.tokens)
                ∙ limits-mark_session session_present r client.world.tokens)
              (λ u d.
                flow_complete-Lasts (Token.connect r)
                  (mark_session session_present r client.world.tokens) u
                  (mark_session-Lasts session_present r client.world.tokens u d)))
        | inr unwanted ↦ rw unwanted (
            trans-Releases client.world
              (record (client.world) {
                tokens = record (client.world.tokens) {
                  connects = modify r (set_return_code code) client.world.tokens.connects;
                };
              })
              _
              (tokens-Releases client.world _ refl
                (connects-Lasts r (set_return_code code) client.world.tokens))
              (reject-Releases (connect_failed (k.to_u8 code)) (Token.connect r) _))
      ]
  on_first-Releases now r (frame _) client =
      reject-Releases (packet_error "Not Connack Packet") (Token.connect r) client.world

  greeted-Passes :
      (w : World k c) (packet : Option (ConnectPacket k)) (rest : Await (MqttClient k c))
      → Passes w rest
      → Passes w (greeted packet rest)
  greeted-Passes w none rest h = tt
  greeted-Passes w (some packet) rest h = h

  connect_from-Passes :
      (status : ConnectStatus) (now r : ℕ) (dial : Dial k) (client : MqttClient k c)
      → Passes client.world (connect_from status now r dial client)
  connect_from-Passes ConnectStatus.connected now r dial client =
      tokens-Releases client.world _ refl
        (connects-Lasts r (set_return_code k.connection_accepted) client.world.tokens)
  connect_from-Passes ConnectStatus.connecting now r dial client =
      reject-Releases reconnecting (Token.connect r) client.world
  connect_from-Passes ConnectStatus.disconnected now r (refused e) client =
      reject-Releases e (Token.connect r) client.world
  connect_from-Passes ConnectStatus.disconnected now r (opened first) client =
      let busy : MqttClient k c = record client { connect_status = ConnectStatus.connecting } in
      greeted-Passes client.world (build_connect_packet k client.options)
        (ready (on_first now r first busy)) (on_first-Releases now r first busy)
  connect_from-Passes ConnectStatus.disconnected now r crashes client = tt
  connect_from-Passes ConnectStatus.disconnected now r stalls client = tt
  connect_from-Passes ConnectStatus.disconnected now r silent client =
      greeted-Passes client.world (build_connect_packet k client.options) hangs tt

module _ {k : Codec} {c : Cache k.PublishPacket} (P : World k c → Type 0) (closed : Closed P) where
  pub disconnect-Registered :
      (wait : Wait k c) (client : MqttClient k c)
      → Waits wait
      → P client.world
      → Registered P closed (disconnect wait client).1
  unfolding disconnect
  disconnect-Registered wait client waits v =
      let (r, tokens) = new_disconnect client.world.tokens in
      let w : World k c = record (client.world) { tokens = tokens } in
      let t = Token.disconnect r in
      let v' : P w =
        closed.makes client.world tokens (new_disconnect-Makes client.world.tokens) v in
      let handed = hand_over VariablePacket.disconnect t wait w in
      elim (Bool-cases (is_connected client)) [
        | inl online ↦
            rw (disconnect, online)
              (put-Registered P closed (record client { manual_disconnect = true }) handed
                (Frees-Registers P closed w handed v'
                  (hand_over-Frees VariablePacket.disconnect t wait w waits)))
        | inr offline ↦
            rw (disconnect, offline)
              (closed.releases w (reject connection_lost t w) (reject-Releases connection_lost t w)
                v')
      ]

  -- What is left of `connect`, if it ends
  abbrev pub Ended : Await (MqttClient k c) → Type 0
  Ended (ready client) = P client.world
  Ended _ = Unit

  Passes-Ended : (w : World k c) (o : Await (MqttClient k c)) → P w → Passes w o → Ended o
  Passes-Ended w hangs v h = tt
  Passes-Ended w panics v h = tt
  Passes-Ended w (ready client) v h = closed.releases w client.world h v

  pub connect-Ended :
      (now : ℕ) (dial : Dial k) (client : MqttClient k c)
      → P client.world
      → Ended (connect now dial client).1
  unfolding connect
  connect-Ended now dial client v =
      let (r, tokens) = new_connect client.world.tokens in
      let begun : MqttClient k c = record client {
        world = record (client.world) { tokens = tokens };
      } in
      Passes-Ended begun.world (connect_from client.connect_status now r dial begun)
        (closed.makes client.world tokens (new_connect-Makes client.world.tokens) v)
        (connect_from-Passes client.connect_status now r dial begun)
