-- ===== src/Client/Dialing.antt =====
-- `connect`: one step from the state before to the state after, with what the network answered. The
-- tasks of an earlier connection have ended by then.
use mesquitte_client.Base.{ℕ, Bool, true, false, Option, none, some, [], String, if◌then◌else◌}
use mesquitte_client.Codec.{Codec}
use mesquitte_client.Token.{
  TokenError, connect_failed, reconnecting, packet_error, Token, Tokens, modify, flow_complete,
  set_return_code, set_session_present, new_connect,
}
use mesquitte_client.Packets.{VariablePacket, ConnectPacket}
use mesquitte_client.State.{Cache, State, state_new}
use mesquitte_client.Client.Greeting.{build_connect_packet}
use mesquitte_client.Client.Shared.{MqttClient, ConnectStatus, reject, Await, ready, hangs, panics}

-- What comes first over a new connection: the end, an error's text, or a packet.
pub data FirstFrame (k : Codec) : Type 0 where
  ended : FirstFrame k
  broken : String → FirstFrame k
  frame : VariablePacket k → FirstFrame k

-- What `Transport::connect` comes to, and what follows over the connection: an error, a panic, as on a host
-- that is not found, no end, or a connection, over which a first frame comes or none ever does.
pub data Dial (k : Codec) : Type 0 where
  refused : TokenError → Dial k
  crashes stalls : Dial k
  opened : FirstFrame k → Dial k
  silent : Dial k

-- `if p.connack_flags().session_present`
abbrev pub mark_session : {k : Codec} → Bool → ℕ → Tokens k → Tokens k
mark_session true r ts = record ts { connects = modify r set_session_present ts.connects }
mark_session false r ts = ts

module _ {k : Codec} {c : Cache k.PublishPacket} where
  abbrev pub fail_connect : TokenError → ℕ → MqttClient k c → MqttClient k c
  fail_connect e r client = record client {
    world = reject e (Token.connect r) client.world;
    connect_status = ConnectStatus.disconnected;
  }

  -- The new shared state, which takes over all but the channel and the clock.
  unfoldable pub renew : ℕ → State k c → State k c
  unfolding state_new
  renew now s = record (state_new now) {
    packet_ids = s.packet_ids;
    subscriptions = s.subscriptions;
    topic_manager = s.topic_manager;
    pending_packets = s.pending_packets;
    outgoing_tx = some [];
  }

  abbrev pub accept_connect : ℕ → Bool → ℕ → MqttClient k c → MqttClient k c
  accept_connect now session_present r client = record client {
    world = record (client.world) {
      state = renew now client.world.state;
      tokens = flow_complete (Token.connect r) (mark_session session_present r client.world.tokens);
    };
    connect_status = ConnectStatus.connected;
    manual_disconnect = false;
  }

  abbrev pub refuse_connect : k.ConnectReturnCode → ℕ → MqttClient k c → MqttClient k c
  refuse_connect code r client = fail_connect (connect_failed (k.to_u8 code)) r (record client {
    world = record (client.world) {
      tokens = record (client.world.tokens) {
        connects = modify r (set_return_code code) client.world.tokens.connects;
      };
    };
  })

  abbrev pub on_frame : ℕ → ℕ → VariablePacket k → MqttClient k c → MqttClient k c
  on_frame now r (VariablePacket.connack code session_present) client =
      if k.is_accepted code
      then accept_connect now session_present r client
      else refuse_connect code r client
  on_frame now r _ client = fail_connect (packet_error "Not Connack Packet") r client

  abbrev pub on_first : ℕ → ℕ → FirstFrame k → MqttClient k c → MqttClient k c
  on_first now r ended client = fail_connect (connect_failed 0) r client
  on_first now r (broken e) client = fail_connect (packet_error e) r client
  on_first now r (frame packet) client = on_frame now r packet client

  -- `build_connect_packet` may panic; whether the packet could be sent is not looked at.
  abbrev pub greeted : Option (ConnectPacket k) → Await (MqttClient k c) → Await (MqttClient k c)
  greeted none rest = panics
  greeted (some packet) rest = rest

  -- Nothing limits the wait for the first frame.
  abbrev pub on_dial : ℕ → ℕ → Dial k → MqttClient k c → Await (MqttClient k c)
  on_dial now r (refused e) client = ready (fail_connect e r client)
  on_dial now r crashes client = panics
  on_dial now r stalls client = hangs
  on_dial now r (opened first) client =
      greeted (build_connect_packet k client.options) (ready (on_first now r first client))
  on_dial now r silent client = greeted (build_connect_packet k client.options) hangs

  abbrev pub connect_from : ConnectStatus → ℕ → ℕ → Dial k → MqttClient k c → Await (MqttClient k c)
  connect_from ConnectStatus.connected now r dial client = ready (record client {
    world = record (client.world) {
      tokens = record (client.world.tokens) {
        connects = modify r (set_return_code k.connection_accepted) client.world.tokens.connects;
      };
    };
  })
  connect_from ConnectStatus.connecting now r dial client =
      ready (record client { world = reject reconnecting (Token.connect r) client.world })
  connect_from ConnectStatus.disconnected now r dial client =
      on_dial now r dial (record client { connect_status = ConnectStatus.connecting })

  -- The token's cell, and the client after the operation, if it ends
  unfoldable pub connect : ℕ → Dial k → MqttClient k c → ℕ × Await (MqttClient k c)
  unfolding renew build_connect_packet
  connect now dial client =
      let (r, tokens) = new_connect client.world.tokens in
      (
        r,
        connect_from client.connect_status now r dial
            (record client { world = record (client.world) { tokens = tokens } }),
      )
