-- ===== src/Race/Status.antt =====
-- What the status of a client says of its connection.
use mesquitte_client.Base.{
  ℕ, ◌≡◌, ◌≢◌, refl, subst, sym, Bool, true, false, ◌||◌, Option, none, some, if◌then◌else◌, inl,
  inr, Bool-cases,
}
use mesquitte_client.Codec.{Codec}
use mesquitte_client.Packets.{VariablePacket}
use mesquitte_client.State.{Cache, World}
use mesquitte_client.Options.{ClientOptions}
use mesquitte_client.Client.{
  MqttClient, ConnectStatus, connected, disconnected, connecting, Await, ready, client_new,
  is_connected, put, FirstFrame, ended, broken, frame, Dial, connect_from, connect, publish,
  disconnect, subscribe, subscribe_multiple, unsubscribe, start_over,
}
use mesquitte_client.System.{
  Step, tasks, drops, publishes, subscribes, subscribes_multiple, unsubscribes, disconnects,
  connects, starts_over,
}
use mesquitte_client.Race.{
  Phase, greeting, Racing, race_new, begin, spawn, receive, conclude, lose, clean, by_caller, Move,
  works, calls, repeats, begins, is_refused, greets, receives, finishes, ends, loses, cleans, Moves,
  stays, goes_on,
}
use mesquitte_client.Race.Agree.{
  in_between, Agree, begin-Agree, dialing-Agree, greeting-Agree, conclude-Agree, lose-Agree,
  end-Agree, clean-Agree, given_up,
}

module _ {k : Codec} {c : Cache k.PublishPacket} where
  -- An operation that does not panic leaves this status.
  abbrev Left : ConnectStatus → Option (MqttClient k c) → Type 0
  Left s none = Unit
  Left s (some client) = client.connect_status ≡ s

  put-Left :
      (client : MqttClient k c) (o : Option (World k c)) → Left client.connect_status (put client o)
  put-Left client none = tt
  put-Left client (some w) = refl

  if-Left :
      (b : Bool) (s : ConnectStatus) (o o' : Option (MqttClient k c))
      → Left s o
      → Left s o'
      → Left s (if b then o else o')
  if-Left true s o o' h h' = h
  if-Left false s o o' h h' = h'

  -- None of the caller's operations but `connect` sets the status.
  pub call-status :
      {client client' : MqttClient k c} (s : Step client client')
      → by_caller s ≡ true
      → client'.connect_status ≡ client.connect_status
  unfolding publish subscribe subscribe_multiple unsubscribe disconnect start_over
  call-status (tasks client w' s) h = cc
  call-status (drops client) h = cc
  call-status (connects now dial client client' e) h = cc
  call-status (publishes topic qos retained payload wait client client' waits e) h =
      subst (Left client.connect_status) e (put-Left client _)
  call-status (subscribes topic qos callback wait client client' waits e) h =
      subst (Left client.connect_status) e (put-Left client _)
  call-status (subscribes_multiple topics callback wait client client' waits e) h =
      subst (Left client.connect_status) e (put-Left client _)
  call-status (unsubscribes topics wait client client' waits e) h =
      subst (Left client.connect_status) e (put-Left client _)
  call-status (disconnects wait client client' waits e) h = subst (Left client.connect_status) e (
      if-Left (is_connected client) client.connect_status _ _
        (put-Left (record client { manual_disconnect = true }) _) refl)
  call-status (starts_over client) h = refl

  -- The same of `connect`, if it ends
  abbrev LeftBy : ConnectStatus → Await (MqttClient k c) → Type 0
  LeftBy s (ready client) = client.connect_status ≡ s
  LeftBy s _ = Unit

  connect_from-Left :
      (s : ConnectStatus) (now r : ℕ) (dial : Dial k) (client : MqttClient k c)
      → s ≢ disconnected
      → LeftBy client.connect_status (connect_from s now r dial client)
  connect_from-Left connected now r dial client h = refl
  connect_from-Left connecting now r dial client h = refl
  connect_from-Left disconnected now r dial client h = absurd (h refl)

  -- Nor does `connect` where it returns at once.
  pub repeat-status :
      (now : ℕ) (dial : Dial k) (client client' : MqttClient k c)
      → client.connect_status ≢ disconnected
      → (connect now dial client).1 ≡ ready client'
      → client'.connect_status ≡ client.connect_status
  unfolding connect
  repeat-status now dial client client' busy h =
      subst (LeftBy client.connect_status) h
        (connect_from-Left client.connect_status now _ dial _ busy)

  -- Whether a task sets the status after it was spawned and before the status is set.
  abbrev pub overtakes : {race race' : Racing k c} → Move race race' → Bool
  overtakes (loses race _) = in_between race.phase
  overtakes _ = false

  abbrev pub overtaken : {race race' : Racing k c} → Moves race race' → Bool
  overtaken (stays race) = false
  overtaken (goes_on ms m) = overtakes m || overtaken ms

  abbrev pub Agrees : Bool → Racing k c → Type 0
  Agrees o race = Agree race.phase race.client.connect_status race.link o

  -- The same, in a phase that is known.
  pub in_phase :
      {p : Phase} (o : Bool) (race : Racing k c)
      → race.phase ≡ p
      → Agrees o race
      → Agree p race.client.connect_status race.link o
  in_phase o race at v = subst (λ p. Agree p race.client.connect_status race.link o) at v

  module _ (o : Bool) (race : Racing k c) where
    receive-Agrees :
        (now r : ℕ) (first : FirstFrame k)
        → race.phase ≡ greeting r
        → Agrees o race
        → Agrees o (receive now r first race)
    unfolding spawn
    receive-Agrees now r ended at v =
        given_up race.link o (greeting-Agree _ _ o r (in_phase o race at v)).0
    receive-Agrees now r (broken e) at v =
        given_up race.link o (greeting-Agree _ _ o r (in_phase o race at v)).0
    receive-Agrees now r (frame (VariablePacket.connack code session_present)) at v =
        let (shut, calling) = greeting-Agree _ _ o r (in_phase o race at v) in
        elim (Bool-cases (k.is_accepted code)) [
          | inl accepted ↦ rw (accepted, calling) tt
          | inr unwanted ↦ rw unwanted (given_up race.link o shut)
        ]
    receive-Agrees now r (frame _) at v =
        given_up race.link o (greeting-Agree _ _ o r (in_phase o race at v)).0

  Move-Agrees :
      {race race' : Racing k c} (o : Bool) (m : Move race race')
      → Agrees o race
      → Agrees (overtakes m || o) race'
  unfolding begin lose clean conclude
  Move-Agrees o (works race w' s) v = v
  Move-Agrees o (calls race client' at s h) v =
      subst (λ x. Agree race.phase x race.link o) (sym (call-status s h)) v
  Move-Agrees o (repeats now dial race client' at busy h) v =
      subst (λ x. Agree race.phase x race.link o)
        (sym (repeat-status now dial race.client client' busy h)) v
  Move-Agrees o (begins race at free is) v =
      begin-Agree _ race.link o race.client.world.tokens.connects.next free is
        (in_phase o race at v)
  Move-Agrees o (is_refused e r race at) v =
      given_up race.link o (dialing-Agree _ _ o r (in_phase o race at v)).0
  Move-Agrees o (greets packet r race at built) v =
      let (shut, calling) = dialing-Agree _ _ o r (in_phase o race at v) in rw (shut, calling) tt
  Move-Agrees o (receives now r first race at) v = receive-Agrees o race now r first at v
  Move-Agrees o (finishes r session_present race at free) v =
      conclude-Agree _ race.link o r session_present (in_phase o race at v)
  Move-Agrees o (ends race is) v =
      end-Agree race.phase race.client.connect_status o
        (subst (λ l. Agree race.phase race.client.connect_status l o) is v)
  Move-Agrees o (loses race is) v =
      lose-Agree race.phase race.client.connect_status o
        (subst (λ l. Agree race.phase race.client.connect_status l o) is v)
  Move-Agrees o (cleans race is) v =
      clean-Agree race.phase race.client.connect_status o
        (subst (λ l. Agree race.phase race.client.connect_status l o) is v)

  pub Moves-Agrees :
      {race race' : Racing k c} (ms : Moves race race')
      → Agrees false race
      → Agrees (overtaken ms) race'
  Moves-Agrees (stays race) v = v
  Moves-Agrees (goes_on ms m) v = Move-Agrees (overtaken ms) m (Moves-Agrees ms v)

pub new-Agrees :
    (k : Codec) (c : Cache k.PublishPacket) (options : ClientOptions) (now : ℕ)
    → Agrees false (race_new {k = k} {c = c} options now)
unfolding client_new
new-Agrees k c options now = tt
