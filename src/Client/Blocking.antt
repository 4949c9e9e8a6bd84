-- ===== src/Client/Blocking.antt =====
-- `block`, and the end of a connection. The rounds of the loop are a list; each says what the other tasks
-- do before it and which branch of the `select!` comes first.
use mesquitte_client.Base.{
  ℕ, ◌+◌, ◌%◌, Bool, true, false, Option, none, some, List, [], ◌∷◌, String, leb, if◌then◌else◌,
}
use mesquitte_client.Codec.{Codec}
use mesquitte_client.Token.{Token, TokenError, error_of}
use mesquitte_client.Pkid.{clean_up}
use mesquitte_client.State.{Cache}
use mesquitte_client.Client.Shared.{Await, ready, hangs, panics, MqttClient, ConnectStatus}
use mesquitte_client.Client.Dialing.{Dial, connect}
use mesquitte_client.Client.Renewing.{Renewal, is_complete, renew_session}

-- The end of the task that `connect` spawns, when the loops have ended
unfoldable pub connection_ends :
    {k : Codec} {c : Cache k.PublishPacket} → MqttClient k c → MqttClient k c
connection_ends client =
    let (ids, ts) = clean_up (client.world.state.packet_ids, client.world.tokens) in
    record client {
      connect_status = ConnectStatus.disconnected;
      world = record (client.world) {
        state = record (client.world.state) { packet_ids = ids };
        tokens = ts;
      };
    }

-- What an attempt to connect again meets.
pub record Attempt (k : Codec) (c : Cache k.PublishPacket) : Type 0 where
  pub now : ℕ
  pub dial : Dial k
  pub renewals : String → Renewal k c

pub data Turn (k : Codec) (c : Cache k.PublishPacket) : Type 0 where
  interval : Turn k c
  notified : Attempt k c → Turn k c

pub record Round (k : Codec) (c : Cache k.PublishPacket) : Type 0 where
  pub others : MqttClient k c → MqttClient k c
  pub turn : Turn k c

-- The locals of `block`; `permit` is the permit of `notify`.
pub record Blocked (k : Codec) (c : Cache k.PublishPacket) : Type 0 where
  pub client : MqttClient k c
  pub cnt : ℕ
  pub permit : Bool

pub data Outcome (k : Codec) (c : Cache k.PublishPacket) : Type 0 where
  returned : MqttClient k c → Outcome k c
  running : Blocked k c → Outcome k c
  stuck panicked : Outcome k c

-- Whether the attempts are used up, if they are limited
abbrev pub exhausted : Option ℕ → ℕ → Bool
exhausted none cnt = false
exhausted (some times) cnt = leb times cnt

module _ {k : Codec} {c : Cache k.PublishPacket} where
  abbrev pub with_true : Await (MqttClient k c) → Await (Bool × MqttClient k c)
  with_true (ready client) = ready (true, client)
  with_true hangs = hangs
  with_true panics = panics

  -- After `token.await`: whether the client is connected again
  abbrev pub after_connect :
      ℕ → Attempt k c → Option TokenError → MqttClient k c → Await (Bool × MqttClient k c)
  after_connect r a (some e) client = ready (false, client)
  after_connect r a none client =
      with_true
        (renew_session (client.world.tokens.connects.cell r).own.session_present a.renewals client)

  abbrev pub await_connect :
      ℕ → Attempt k c → Await (MqttClient k c) → Await (Bool × MqttClient k c)
  await_connect r a hangs = hangs
  await_connect r a panics = panics
  await_connect r a (ready client) =
      if is_complete (Token.connect r) client
      then after_connect r a (error_of (Token.connect r) client.world.tokens) client
      else hangs

  unfoldable pub reconnect : Attempt k c → MqttClient k c → Await (Bool × MqttClient k c)
  unfolding renew_session
  reconnect a client = let (r, client') = connect a.now a.dial client in await_connect r a client'

  -- The branch of the interval; `none` leaves the loop.
  abbrev pub on_interval : ConnectStatus → Blocked k c → Option (Blocked k c)
  on_interval ConnectStatus.connected b = some b
  on_interval ConnectStatus.connecting b = some b
  on_interval ConnectStatus.disconnected b =
      if b.client.manual_disconnect
      then some b
      else if b.client.options.auto_reconnect
      then some (record b { permit = true })
      else none

  -- `cnt += 1` on u16, where the sum wraps, and `cnt = 0` on success
  abbrev pub counted : ℕ → Await (Bool × MqttClient k c) → Await (Blocked k c)
  counted cnt (ready (true, client)) = ready (record { client = client; cnt = 0; permit = false })
  counted cnt (ready (false, client)) =
      ready (record { client = client; cnt = (cnt + 1) % 65536; permit = false })
  counted cnt hangs = hangs
  counted cnt panics = panics

  -- The branch of the notification, which waits for a permit
  abbrev pub on_notified : Attempt k c → Blocked k c → Await (Blocked k c)
  on_notified a b = if b.permit then counted b.cnt (reconnect a b.client) else ready b

  abbrev pub settle : Turn k c → Blocked k c → Await (Option (Blocked k c))
  settle interval b = ready (on_interval b.client.connect_status b)
  settle (notified a) b = elim (on_notified a b) [
    | ready b' ↦ ready (some b')
    | hangs ↦ hangs
    | panics ↦ panics
  ]

  unfoldable pub block : List (Round k c) → Blocked k c → Outcome k c
  unfolding reconnect
  block [] b =
      if exhausted b.client.options.max_connect_retry_times b.cnt
      then returned b.client
      else running b
  block (round ∷ rounds) b =
      let woken : Blocked k c = record b { client = round.others b.client } in
      elim (exhausted b.client.options.max_connect_retry_times b.cnt) [
        | true ↦ returned b.client
        | false ↦ elim (settle round.turn woken) [
          | ready none ↦ returned woken.client
          | ready (some b') ↦ block rounds b'
          | hangs ↦ stuck
          | panics ↦ panicked
        ]
      ]
