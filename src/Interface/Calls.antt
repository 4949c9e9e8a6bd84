-- ===== src/Interface/Calls.antt =====
-- src/client.rs: `MqttClient` as a `Client`. A sequence of calls is a run of the system.
use mesquitte_client.Base.{
  ℕ, ◌≡◌, ◌≢◌, refl, subst, inl, inr, Option, none, some, List, [], ◌∷◌, All,
}
use mesquitte_client.Codec.{Codec}
use mesquitte_client.State.{Cache}
use mesquitte_client.Options.{ClientOptions}
use mesquitte_client.Client.{
  MqttClient, Wait, Await, ready, hangs, panics, Dial, refused, opened, client_new,
  build_connect_packet, connect, disconnect, publish, subscribe, subscribe_multiple, unsubscribe,
}
use mesquitte_client.System.{empty_heap, Waits, Step, Steps, start, later}
use mesquitte_client.System.Reachable.{operations_never_panic}
use mesquitte_client.System.Reconnecting.{Leaves}
use mesquitte_client.Interface.{Client, Call, perform, run_calls}

-- What happens before a method runs and while it waits on the channel, and what a server answers to
-- `connect`, at a time.
pub record Surroundings (k : Codec) (c : Cache k.PublishPacket) : Type 0 where
  pub before : MqttClient k c → MqttClient k c
  pub wait : Wait k c
  pub now : ℕ
  pub dial : Dial k

-- The transport answers with an error, or with a connection over which something comes first.
abbrev pub IsAnswered : {k : Codec} → Dial k → Type 0
IsAnswered (refused e) = Unit
IsAnswered (opened first) = Unit
IsAnswered _ = ⊥

module _ {k : Codec} {c : Cache k.PublishPacket} where
  abbrev pub or_panic : Option (MqttClient k c) → Await (MqttClient k c)
  or_panic none = panics
  or_panic (some client) = ready client

  abbrev pub method : ℕ × Option (MqttClient k c) → ℕ × Await (MqttClient k c)
  method (r, o) = (r, or_panic o)

  -- `impl Client for MqttClient`
  abbrev pub mqtt_client : Client (Surroundings k c) (MqttClient k c)
  mqtt_client = record {
    connect = λ e client. connect e.now e.dial client;
    disconnect = λ e client. method (disconnect e.wait client);
    publish = λ topic qos retained payload e client.
        method (publish topic qos retained payload e.wait client);
    subscribe = λ topic qos callback e client. method (subscribe topic qos callback e.wait client);
    subscribe_multiple =
        λ topics callback e client. method (subscribe_multiple topics callback e.wait client);
    unsubscribe = λ topics e client. method (unsubscribe topics e.wait client);
  }

  abbrev pub before_call : Surroundings k c → MqttClient k c → MqttClient k c
  before_call e = e.before

  -- Before a call come steps of the system, while it waits only those of the tasks, and the network answers.
  abbrev pub IsPlaced : Call × Surroundings k c → Type 0
  IsPlaced (call, e) =
      Waits e.wait
      × ((client : MqttClient k c) → Steps client (e.before client))
      × IsAnswered e.dial

  or_panic-ready :
      (o : Option (MqttClient k c)) (client' : MqttClient k c)
      → or_panic o ≡ ready client'
      → o ≡ some client'
  or_panic-ready none client' h = cc h
  or_panic-ready (some client) client' h = cc h

  trans-Steps : {x y z : MqttClient k c} → Steps x y → Steps y z → Steps x z
  trans-Steps h (start _) = h
  trans-Steps h (later g s) = later (trans-Steps h g) s

  -- A call that does not panic is a step.
  perform-Step :
      (call : Call) (e : Surroundings k c) (client client' : MqttClient k c)
      → Waits e.wait
      → (perform mqtt_client call e client).1 ≡ ready client'
      → Step client client'
  unfolding perform
  perform-Step Call.connects e client client' waits h = Step.connects e.now e.dial client client' h
  perform-Step Call.disconnects e client client' waits h =
      Step.disconnects e.wait client client' waits (or_panic-ready _ client' h)
  perform-Step (Call.publishes topic qos retained payload) e client client' waits h =
      Step.publishes topic qos retained payload e.wait client client' waits
        (or_panic-ready _ client' h)
  perform-Step (Call.subscribes topic qos callback) e client client' waits h =
      Step.subscribes topic qos callback e.wait client client' waits (or_panic-ready _ client' h)
  perform-Step (Call.subscribes_multiple topics callback) e client client' waits h =
      Step.subscribes_multiple topics callback e.wait client client' waits
        (or_panic-ready _ client' h)
  perform-Step (Call.unsubscribes topics) e client client' waits h =
      Step.unsubscribes topics e.wait client client' waits (or_panic-ready _ client' h)

module _ {k : Codec} {c : Cache k.PublishPacket} (options : ClientOptions) (now : ℕ)
    (greets : build_connect_packet k options ≢ none) where
  -- The call ends without a panic.
  abbrev Ends : Await (MqttClient k c) → Type 0
  Ends o = (client : MqttClient k c) × (o ≡ ready client)

  or_panic-Ends : (o : Option (MqttClient k c)) → o ≢ none → Ends (or_panic o)
  or_panic-Ends none h = absurd (h refl)
  or_panic-Ends (some client) h = (client, refl)

  Leaves-Ends :
      (dial : Dial k) (o : Await (MqttClient k c))
      → IsAnswered dial
      → Leaves options dial o
      → Ends o
  Leaves-Ends dial (ready client) answered h = (client, refl)
  Leaves-Ends dial panics answered (inl crash) = absurd (subst IsAnswered crash answered)
  Leaves-Ends dial panics answered (inr missing) = absurd (greets missing)
  Leaves-Ends dial hangs answered (inl stall) = absurd (subst IsAnswered stall answered)
  Leaves-Ends dial hangs answered (inr silence) = absurd (subst IsAnswered silence answered)

  perform-Ends :
      (call : Call) (e : Surroundings k c) (client : MqttClient k c)
      → Steps (client_new options now (empty_heap k)) client
      → Waits e.wait
      → IsAnswered e.dial
      → Ends (perform mqtt_client call e client).1
  unfolding perform
  perform-Ends call e client history waits answered =
      let (publishes, subscribes, multiple, unsubscribes, disconnects, connects) =
        operations_never_panic options now client e.wait history waits in
      elim call as (λ call. Ends (perform mqtt_client call e client).1) [
        | Call.connects ↦ Leaves-Ends e.dial _ answered (connects e.now e.dial)
        | Call.disconnects ↦ or_panic-Ends _ disconnects
        | Call.publishes topic qos retained payload ↦
            or_panic-Ends _ (publishes topic qos retained payload)
        | Call.subscribes topic qos callback ↦ or_panic-Ends _ (subscribes topic qos callback)
        | Call.subscribes_multiple topics callback ↦ or_panic-Ends _ (multiple topics callback)
        | Call.unsubscribes topics ↦ or_panic-Ends _ (unsubscribes topics)
      ]

  pub calls-Steps :
      (calls : List (Call × Surroundings k c)) (client : MqttClient k c)
      → Steps (client_new options now (empty_heap k)) client
      → All IsPlaced calls
      → (client' : MqttClient k c) × (run_calls mqtt_client before_call calls client
          ≡ ready client')
        × Steps (client_new options now (empty_heap k)) client'
  unfolding run_calls
  calls-Steps [] client history run = (client, refl, history)
  calls-Steps ((call, e) ∷ calls) client history ((waits, busy, answered), run) =
      let called = before_call e client in
      let until = trans-Steps history (busy client) in
      let (client', h) = perform-Ends call e called until waits answered in
      rw (run_calls, h)
        (calls-Steps calls client' (later until (perform-Step call e called client' waits h)) run)

-- In a build without overflow checks: where the greeting can be built from the options, and the transport
-- answers each `connect` with an error or with a connection over which something comes first, a program
-- that makes a new client and calls its methods, in any order, with any steps of the system before each
-- call and those of the tasks while it waits on the channel, where each such wait ends, comes to its end
-- without a panic, and in a state that is reached step by step.
pub calls_end :
    {k : Codec} {c : Cache k.PublishPacket} (options : ClientOptions) (now : ℕ)
    (calls : List (Call × Surroundings k c))
    → build_connect_packet k options ≢ none
    → All IsPlaced calls
    → let client = client_new options now (empty_heap k) in
      (client' : MqttClient k c) × (run_calls mqtt_client before_call calls client ≡ ready client')
      × Steps client client'
calls_end {k = k} options now calls greets run =
    let client = client_new options now (empty_heap k) in
    calls-Steps options now greets calls client (start client) run
