-- ===== src/System.antt =====
-- src/client.rs with src/net.rs: the caller's operations and the tasks of a connection, step by step, in
-- any order. A task's step may also come while an operation waits on the channel.
pub mod Keeping
pub mod Sending
pub mod Requests
pub mod Operations
pub mod Reconnecting
pub mod Lasting
pub mod Limits
pub mod Making
pub mod Handling
pub mod Releasing
pub mod Registering
pub mod Registered
pub mod Alone
pub mod Unshared
pub mod Closing
pub mod Acknowledging
pub mod Ending
pub mod Unsent
pub mod Renewal
pub mod Reachable
pub mod Enduring
pub mod Blocking
use mesquitte_client.Base.{ℕ, ◌≡◌, Bool, Option, none, some, List, [], ◌∷◌, String}
use mesquitte_client.Codec.{Codec, QualityOfService}
use mesquitte_client.Token.{
  Tokens, Token, poll, default_connect, default_disconnect, default_publish, default_subscribe,
  default_unsubscribe,
}
use mesquitte_client.Pkid.{clean_up}
use mesquitte_client.Packets.{VariablePacket}
use mesquitte_client.State.{Cache, World}
use mesquitte_client.Net.{
  Next, dispatch, WriteEvent, write_to_server, Tick, Pause, keep_alive_round,
}
use mesquitte_client.Client.{
  MqttClient, ConnectStatus, Wait, publish, disconnect, subscribe, subscribe_multiple, unsubscribe,
  Dial, connect, start_over, ready,
}

-- A heap on which nothing was allocated
abbrev pub empty_heap : (k : Codec) → Tokens k
empty_heap k = record {
  connects = record { next = 0; cell = λ r. default_connect k };
  disconnects = record { next = 0; cell = λ r. default_disconnect };
  publishes = record { next = 0; cell = λ r. default_publish };
  subscribes = record { next = 0; cell = λ r. default_subscribe k };
  unsubscribes = record { next = 0; cell = λ r. default_unsubscribe };
  woken = [];
}

module _ {k : Codec} {c : Cache k.PublishPacket} where
  -- `pkids.clean_up()` in the world
  abbrev pub cleaned : World k c → World k c
  cleaned w =
      let (ids, ts) = clean_up (w.state.packet_ids, w.tokens) in
      record w { state = record (w.state) { packet_ids = ids }; tokens = ts }

  -- A step beside the caller's operations: a packet is handled, a round of the writing task or of the
  -- keep-alive, the clean-up at the end of a connection, and a poll of a token.
  pub data TaskStep : World k c → World k c → Type 0 where
    handles :
        (p : VariablePacket k) (w w' : World k c) (n : Next k)
        → dispatch p w ≡ some (w', n)
        → TaskStep w w'
    writes : (e : WriteEvent k) (w : World k c) → TaskStep w (write_to_server (e ∷ []) w).0
    pings :
        (duration : ℕ) (t : Tick k c) (w w' : World k c) (p : Pause)
        → keep_alive_round duration t w ≡ some (w', p)
        → TaskStep w w'
    cleans_up : (w : World k c) → TaskStep w (cleaned w)
    polls :
        (waker : ℕ) (t : Token) (w : World k c)
        → TaskStep w (record w { tokens = (poll waker t w.tokens).0 })

  pub data Tasks : World k c → World k c → Type 0 where
    idle : (w : World k c) → Tasks w w
    first : {w w' w'' : World k c} → TaskStep w w' → Tasks w' w'' → Tasks w w''

  -- While an operation waits, only steps of the tasks come.
  abbrev pub Waits : Wait k c → Type 0
  Waits wait = (w : World k c) → Tasks w (wait.others w)

  -- A step of the whole: of a task, the end of a connection as the client sees it, or an operation.
  pub data Step : MqttClient k c → MqttClient k c → Type 0 where
    tasks :
        (client : MqttClient k c) (w' : World k c)
        → TaskStep client.world w'
        → Step client (record client { world = w' })
    drops :
        (client : MqttClient k c)
        → Step client (record client { connect_status = ConnectStatus.disconnected })
    publishes :
        (topic : String) (qos : QualityOfService) (retained : Bool) (payload : List ℕ)
        (wait : Wait k c) (client client' : MqttClient k c)
        → Waits wait
        → (publish topic qos retained payload wait client).1 ≡ some client'
        → Step client client'
    subscribes :
        (topic : String) (qos : QualityOfService) (callback : ℕ) (wait : Wait k c)
        (client client' : MqttClient k c)
        → Waits wait
        → (subscribe topic qos callback wait client).1 ≡ some client'
        → Step client client'
    subscribes_multiple :
        (topics : List (String × QualityOfService)) (callback : ℕ) (wait : Wait k c)
        (client client' : MqttClient k c)
        → Waits wait
        → (subscribe_multiple topics callback wait client).1 ≡ some client'
        → Step client client'
    unsubscribes :
        (topics : List String) (wait : Wait k c) (client client' : MqttClient k c)
        → Waits wait
        → (unsubscribe topics wait client).1 ≡ some client'
        → Step client client'
    disconnects :
        (wait : Wait k c) (client client' : MqttClient k c)
        → Waits wait
        → (disconnect wait client).1 ≡ some client'
        → Step client client'
    connects :
        (now : ℕ) (dial : Dial k) (client client' : MqttClient k c)
        → (connect now dial client).1 ≡ ready client'
        → Step client client'
    starts_over : (client : MqttClient k c) → Step client (start_over client)

  pub data Steps : MqttClient k c → MqttClient k c → Type 0 where
    start : (client : MqttClient k c) → Steps client client
    later :
        {client client' client'' : MqttClient k c}
        → Steps client client'
        → Step client' client''
        → Steps client client''
