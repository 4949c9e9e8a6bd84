-- ===== src/Race.antt =====
-- src/client.rs: `connect` in its steps, among those of the task that it spawns for the connection. The
-- task sets the status when the loops have ended, and holds the lock of the status until it has cleaned
-- up: what `connect` does with the status then waits. An operation of the caller is one step up to its wait on
-- the channel: that the task may come between its test of the status and the rest is not modelled.
pub mod Fit
pub mod Agree
pub mod Status
pub mod Stale
use mesquitte_client.Base.{
  ℕ, ◌≡◌, ◌≢◌, Bool, true, false, Option, some, List, [], ◌∷◌, ◌++◌, if◌then◌else◌,
}
use mesquitte_client.Codec.{Codec}
use mesquitte_client.Token.{
  Token, TokenError, connect_failed, packet_error, flow_complete, new_connect,
}
use mesquitte_client.Pkid.{PacketIds, clean_up}
use mesquitte_client.Packets.{VariablePacket, ConnectPacket}
use mesquitte_client.State.{Cache, World}
use mesquitte_client.Options.{ClientOptions}
use mesquitte_client.Client.{
  MqttClient, ConnectStatus, client_new, FirstFrame, ended, broken, frame, Dial, mark_session,
  fail_connect, refuse_connect, renew, build_connect_packet, connect, ready,
}
use mesquitte_client.System.{
  empty_heap, cleaned, TaskStep, Step, tasks, drops, publishes, subscribes, subscribes_multiple,
  unsubscribes, disconnects, connects, starts_over,
}

-- Where `connect` is, with the cell of its token: it waits for the transport, for the first frame, or has
-- spawned the task and has yet to set the status.
pub data Phase : Type 0 where
  resting : Phase
  dialing : ℕ → Phase
  greeting : ℕ → Phase
  spawned : ℕ → Bool → Phase

-- The connection of the client's shared state: its task waits for the loops, of which one may have ended; the
-- wait is over, and the task has yet to set the status; it has set it, and has yet to clean up; or there is
-- none.
pub data Link : Type 0 where
  up over down closed : Link

-- The client with its call of `connect` and its connection
pub record Racing (k : Codec) (c : Cache k.PublishPacket) : Type 0 where
  pub client : MqttClient k c
  pub phase : Phase
  pub link : Link

module _ {k : Codec} {c : Cache k.PublishPacket} where
  abbrev pub at_rest : MqttClient k c → Link → Racing k c
  at_rest client link = record { client = client; phase = resting; link = link }

  -- The caller waits or works, and `connect` has not been called.
  abbrev pub race_new : ClientOptions → ℕ → Racing k c
  race_new options now = at_rest (client_new options now (empty_heap k)) closed

  -- `connect` ends.
  abbrev pub rest : MqttClient k c → Racing k c → Racing k c
  rest client race = record race { client = client; phase = resting }

  -- `connect` up to the call of the transport, on a client that is disconnected
  unfoldable pub begin : Racing k c → Racing k c
  begin race =
      let (r, tokens) = new_connect race.client.world.tokens in
      record race {
        client = record (race.client) {
          world = record (race.client.world) { tokens = tokens };
          connect_status = ConnectStatus.connecting;
        };
        phase = dialing r;
      }

  -- The new shared state, and the task that is spawned with it
  unfoldable pub spawn : ℕ → ℕ → Bool → Racing k c → Racing k c
  unfolding renew
  spawn now r session_present race = record {
    client = record (race.client) {
      world = record (race.client.world) { state = renew now race.client.world.state };
    };
    phase = spawned r session_present;
    link = up;
  }

  -- The match on the first frame
  abbrev pub receive : ℕ → ℕ → FirstFrame k → Racing k c → Racing k c
  receive now r ended race = rest (fail_connect (connect_failed 0) r race.client) race
  receive now r (broken e) race = rest (fail_connect (packet_error e) r race.client) race
  receive now r (frame (VariablePacket.connack code session_present)) race =
      if k.is_accepted code
      then spawn now r session_present race
      else rest (refuse_connect code r race.client) race
  receive now r (frame _) race =
      rest (fail_connect (packet_error "Not Connack Packet") r race.client) race

  -- What `connect` does after it has spawned the task
  unfoldable pub conclude : ℕ → Bool → Racing k c → Racing k c
  conclude r session_present race =
      rest
        (record (race.client) {
          world = record (race.client.world) {
            tokens =
                flow_complete (Token.connect r)
                  (mark_session session_present r race.client.world.tokens);
          };
          connect_status = ConnectStatus.connected;
          manual_disconnect = false;
        })
        race

  -- The task, when its wait for the loops is over: it sets the status …
  unfoldable pub lose : Racing k c → Racing k c
  lose race = record race {
    client = record (race.client) { connect_status = ConnectStatus.disconnected };
    link = down;
  }

  -- … and cleans up.
  unfoldable pub clean : Racing k c → Racing k c
  clean race = record race {
    client = record (race.client) { world = cleaned race.client.world };
    link = closed;
  }

  -- Whether a step is one of the caller's operations, `connect` aside.
  abbrev pub by_caller : {client client' : MqttClient k c} → Step client client' → Bool
  by_caller (tasks _ _ _) = false
  by_caller (drops _) = false
  by_caller (connects _ _ _ _ _) = false
  by_caller (publishes _ _ _ _ _ _ _ _ _) = true
  by_caller (subscribes _ _ _ _ _ _ _ _) = true
  by_caller (subscribes_multiple _ _ _ _ _ _ _) = true
  by_caller (unsubscribes _ _ _ _ _ _) = true
  by_caller (disconnects _ _ _ _ _) = true
  by_caller (starts_over _) = true

  -- A step of the tasks, of the caller, of `connect`, or of the task of a connection.
  pub data Move : Racing k c → Racing k c → Type 0 where
    works :
        (race : Racing k c) (w' : World k c)
        → TaskStep race.client.world w'
        → Move race (record race { client = record (race.client) { world = w' } })
    calls :
        (race : Racing k c) (client' : MqttClient k c)
        → race.phase ≡ resting
        → (s : Step race.client client') → by_caller s ≡ true
        → Move race (record race { client = client' })
    repeats :
        (now : ℕ) (dial : Dial k) (race : Racing k c) (client' : MqttClient k c)
        → race.phase ≡ resting
        → race.client.connect_status ≢ ConnectStatus.disconnected
        → (connect now dial race.client).1 ≡ ready client'
        → Move race (record race { client = client' })
    begins :
        (race : Racing k c)
        → race.phase ≡ resting
        → race.link ≢ down
        → race.client.connect_status ≡ ConnectStatus.disconnected
        → Move race (begin race)
    is_refused :
        (e : TokenError) (r : ℕ) (race : Racing k c)
        → race.phase ≡ dialing r
        → Move race (rest (fail_connect e r race.client) race)
    greets :
        (packet : ConnectPacket k) (r : ℕ) (race : Racing k c)
        → race.phase ≡ dialing r
        → build_connect_packet k race.client.options ≡ some packet
        → Move race (record race { phase = greeting r })
    receives :
        (now r : ℕ) (first : FirstFrame k) (race : Racing k c)
        → race.phase ≡ greeting r
        → Move race (receive now r first race)
    finishes :
        (r : ℕ) (session_present : Bool) (race : Racing k c)
        → race.phase ≡ spawned r session_present
        → race.link ≢ down
        → Move race (conclude r session_present race)
    ends : (race : Racing k c) → race.link ≡ up → Move race (record race { link = over })
    loses : (race : Racing k c) → race.link ≡ over → Move race (lose race)
    cleans : (race : Racing k c) → race.link ≡ down → Move race (clean race)

  pub data Moves : Racing k c → Racing k c → Type 0 where
    stays : (race : Racing k c) → Moves race race
    goes_on :
        {race race' race'' : Racing k c} → Moves race race' → Move race' race'' → Moves race race''
