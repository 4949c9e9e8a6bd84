-- ===== src/Client/Connecting.antt =====
-- How `connect` ends.
use mesquitte_client.Base.{
  ℕ, ◌≡◌, refl, sym, subst, ◌∙◌, Bool, true, false, Option, none, some, List, [], nat_beq,
  nat_beq_iff, if◌then◌else◌,
}
use mesquitte_client.Codec.{Codec}
use mesquitte_client.Token.{
  TokenError, connect_failed, packet_error, Token, Tokens, modify, set_return_code,
  set_session_present, new_connect, state_of, error_of, token_beq_iff,
}
use mesquitte_client.Token.Laws.{done, state_of-flow_complete, error_of-flow_complete}
use mesquitte_client.Packets.{VariablePacket, PacketAndToken, ConnectPacket}
use mesquitte_client.State.{Cache, State}
use mesquitte_client.Net.Subscribing.{state-modify}
use mesquitte_client.Client.Greeting.{build_connect_packet}
use mesquitte_client.Client.Shared.{MqttClient, ConnectStatus, Await, ready, hangs, panics}
use mesquitte_client.Client.Dialing.{
  ended, broken, frame, Dial, refused, crashes, stalls, opened, silent, fail_connect, renew,
  mark_session, accept_connect, refuse_connect, on_dial, on_first, greeted, FirstFrame, connect,
}
use mesquitte_client.Client.Outcomes.{reject-Failed}

-- The error that the first frame stands for, if it stands for one.
abbrev pub frame_error : {k : Codec} → FirstFrame k → Option TokenError
frame_error ended = some (connect_failed 0)
frame_error (broken e) = some (packet_error e)
frame_error {k} (frame (VariablePacket.connack code session_present)) =
    if k.is_accepted code then none else some (connect_failed (k.to_u8 code))
frame_error (frame _) = some (packet_error "Not Connack Packet")

-- How an attempt ends whose greeting can be built: with an error or none, in a panic, or never.
abbrev pub connect_end : {k : Codec} → Dial k → Await (Option TokenError)
connect_end (refused e) = ready (some e)
connect_end crashes = panics
connect_end stalls = hangs
connect_end (opened first) = ready (frame_error first)
connect_end silent = hangs

abbrev pub status_after : Option TokenError → ConnectStatus
status_after none = ConnectStatus.connected
status_after (some e) = ConnectStatus.disconnected

error_of-mark_session :
    {k : Codec} (session_present : Bool) (r : ℕ) (ts : Tokens k)
    → error_of (Token.connect r) (mark_session session_present r ts) ≡ error_of (Token.connect r) ts
unfolding error_of
error_of-mark_session true r ts = (state-modify r r set_session_present ts.connects).1
error_of-mark_session false r ts = refl

module _ {k : Codec} {c : Cache k.PublishPacket} where
  abbrev pub channel_after : Option TokenError → State k c → Option (List (PacketAndToken k))
  channel_after none s = some []
  channel_after (some e) s = s.outgoing_tx

  -- The attempt is over: its token is complete, the client is connected or disconnected, and what the
  -- tasks share is still there.
  pub record Settled (e : Option TokenError) (r : ℕ) (before : State k c) (after : MqttClient k c)
      : Type 0 where
    pub completed : state_of (Token.connect r) after.world.tokens ≡ done
    pub error : error_of (Token.connect r) after.world.tokens ≡ e
    pub status : after.connect_status ≡ status_after e
    pub ids : after.world.state.packet_ids ≡ before.packet_ids
    pub trie : after.world.state.topic_manager ≡ before.topic_manager
    pub table : after.world.state.subscriptions ≡ before.subscriptions
    pub pending : after.world.state.pending_packets ≡ before.pending_packets
    pub channel : after.world.state.outgoing_tx ≡ channel_after e before

  fail_connect-Settled :
      (e : TokenError) (r : ℕ) (client : MqttClient k c)
      → Settled (some e) r client.world.state (fail_connect e r client)
  fail_connect-Settled e r client =
      let (completed, error) = reject-Failed e (Token.connect r) client.world in
      record {
        completed = completed;
        error = error;
        status = refl;
        ids = refl;
        trie = refl;
        table = refl;
        pending = refl;
        channel = refl;
      }

  accept_connect-Settled :
      (now : ℕ) (session_present : Bool) (r : ℕ) (client : MqttClient k c)
      → error_of (Token.connect r) client.world.tokens ≡ none
      → Settled none r client.world.state (accept_connect now session_present r client)
  unfolding renew
  accept_connect-Settled now session_present r client clear =
      let t = Token.connect r in
      let ts = mark_session session_present r client.world.tokens in
      record {
        completed = state_of-flow_complete ts t t ∙ (rw ((token_beq_iff t t).1 refl));
        error =
            error_of-flow_complete ts t t
            ∙ (error_of-mark_session session_present r client.world.tokens ∙ clear);
        status = refl;
        ids = refl;
        trie = refl;
        table = refl;
        pending = refl;
        channel = refl;
      }

  connack-Settled :
      (now r : ℕ) (code : k.ConnectReturnCode) (session_present b : Bool) (client : MqttClient k c)
      → error_of (Token.connect r) client.world.tokens ≡ none
      → Settled
          (if b then none else some (connect_failed (k.to_u8 code)))
          r
          client.world.state
          (if b then accept_connect now session_present r client else refuse_connect code r client)
  connack-Settled now r code session_present true client clear =
      accept_connect-Settled now session_present r client clear
  connack-Settled now r code session_present false client clear =
      fail_connect-Settled (connect_failed (k.to_u8 code)) r (record client {
        world = record (client.world) {
          tokens = record (client.world.tokens) {
            connects = modify r (set_return_code code) client.world.tokens.connects;
          };
        };
      })

  on_first-Settled :
      (now r : ℕ) (first : FirstFrame k) (client : MqttClient k c)
      → error_of (Token.connect r) client.world.tokens ≡ none
      → Settled (frame_error first) r client.world.state (on_first now r first client)
  on_first-Settled now r ended client clear = fail_connect-Settled (connect_failed 0) r client
  on_first-Settled now r (broken e) client clear = fail_connect-Settled (packet_error e) r client
  on_first-Settled now r (frame (VariablePacket.connack code session_present)) client clear =
      connack-Settled now r code session_present (k.is_accepted code) client clear
  on_first-Settled now r (frame _) client clear =
      fail_connect-Settled (packet_error "Not Connack Packet") r client

  -- The attempt settles, panics or never ends, as is expected of it.
  abbrev pub Settles : Await (Option TokenError) → ℕ → State k c → Await (MqttClient k c) → Type 0
  Settles (ready e) r before (ready after) = Settled e r before after
  Settles hangs r before hangs = Unit
  Settles panics r before panics = Unit
  Settles _ r before _ = ⊥

  on_dial-Settles :
      (now r : ℕ) (dial : Dial k) (client : MqttClient k c) (packet : ConnectPacket k)
      → build_connect_packet k client.options ≡ some packet
      → error_of (Token.connect r) client.world.tokens ≡ none
      → Settles (connect_end dial) r client.world.state (on_dial now r dial client)
  on_dial-Settles now r (refused e) client packet built clear = fail_connect-Settled e r client
  on_dial-Settles now r crashes client packet built clear = tt
  on_dial-Settles now r stalls client packet built clear = tt
  on_dial-Settles now r silent client packet built clear =
      subst (λ b. Settles hangs r client.world.state (greeted b hangs)) (sym built) tt
  on_dial-Settles now r (opened first) client packet built clear =
      subst
        (λ b.
          Settles (ready (frame_error first)) r client.world.state
            (greeted b (ready (on_first now r first client))))
        (sym built) (on_first-Settled now r first client clear)

  pub new_token-state :
      (client : MqttClient k c)
      → let (r, tokens) = new_connect client.world.tokens in
        ((state_of (Token.connect r) tokens).complete ≡ false)
        × (error_of (Token.connect r) tokens ≡ none)
  unfolding state_of error_of
  new_token-state client =
      let r = client.world.tokens.connects.next in
      let self : nat_beq r r ≡ true = (nat_beq_iff r r).1 refl in
      (rw (state_of, self), rw (error_of, self))

-- An attempt to connect from a disconnected client whose options make a packet panics exactly if the
-- transport does, and never ends exactly if the transport never does or no first frame ever comes. Else its
-- token is complete with the error that the network's answer or the return code stands for, or
-- with none on an accepted connection; the client is then connected exactly if there is no error, and the
-- identifiers, the subscriptions and the pending packets are kept.
pub connect-Settles :
    {k : Codec} {c : Cache k.PublishPacket} (now : ℕ) (dial : Dial k) (client : MqttClient k c)
    (packet : ConnectPacket k)
    → client.connect_status ≡ ConnectStatus.disconnected
    → build_connect_packet k client.options ≡ some packet
    → let (r, client') = connect now dial client in
      Settles (connect_end dial) r client.world.state client'
unfolding connect
connect-Settles now dial client packet h built =
    let (r, tokens) = new_connect client.world.tokens in
    rw h (
      on_dial-Settles now r dial
        (record client {
          world = record (client.world) { tokens = tokens };
          connect_status = ConnectStatus.connecting;
        })
        packet built (new_token-state client).1)
