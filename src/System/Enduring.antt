-- ===== src/System/Enduring.antt =====
-- An attempt of `block` to connect again, with the renewal of the subscriptions, from a client as it is
-- at any time.
use mesquitte_client.Base.{
  ℕ, ◌≢◌, Bool, true, false, Option, none, some, inl, inr, List, [], ◌∷◌, String, if◌then◌else◌,
}
use mesquitte_client.Codec.{Codec}
use mesquitte_client.Subscription.{Subscription}
use mesquitte_client.Token.{Token, TokenError, error_of}
use mesquitte_client.State.{Cache}
use mesquitte_client.Options.{ClientOptions}
use mesquitte_client.Client.{
  MqttClient, build_connect_packet, Await, ready, hangs, panics, crashes, Renewal, is_complete,
  awaited, renew_one, resubscribe, start_over, renew_session, Attempt, Turn, interval, notified,
  Round, with_true, after_connect, await_connect, counted, subscribe,
}
use mesquitte_client.System.{Waits, Steps}
use mesquitte_client.System.Operations.{IsFit, Continues, subscribe-Continues}
use mesquitte_client.System.Reconnecting.{Leaves}
use mesquitte_client.System.Reachable.{steps-IsFit, start_over-IsFit}

module _ {k : Codec} {c : Cache k.PublishPacket} where
  -- The transport does not panic, and what comes between are steps of the client and its tasks.
  abbrev pub IsFairRenewal : Renewal k c → Type 0
  IsFairRenewal renewal =
      Waits renewal.wait × ((client : MqttClient k c) → Steps client (renewal.until client))

  abbrev pub IsFairTurn : Turn k c → Type 0
  IsFairTurn interval = Unit
  IsFairTurn (notified a) =
      (a.dial ≢ crashes) × ((topic : String) → IsFairRenewal (a.renewals topic))

  abbrev pub IsFair : Round k c → Type 0
  IsFair round =
      ((client : MqttClient k c) → Steps client (round.others client)) × IsFairTurn round.turn

-- No panic, and what there is in the end satisfies the predicate.
abbrev pub GoesOn {ℓ} : {A : Type ℓ} → (A → Type 0) → Await A → Type 0
GoesOn P (ready a) = P a
GoesOn P hangs = Unit
GoesOn P panics = ⊥

if-GoesOn {ℓ} :
    {A : Type ℓ} (P : A → Type 0) (b : Bool) (x y : Await A)
    → GoesOn P x
    → GoesOn P y
    → GoesOn P (if b then x else y)
if-GoesOn P true x y p q = p
if-GoesOn P false x y p q = q

pub bind-GoesOn {ℓ κ} :
    {A : Type ℓ} {B : Type κ} (P : A → Type 0) (Q : B → Type 0) (x : Await A) (f : A → Await B)
    → GoesOn P x
    → ((a : A) → P a → GoesOn Q (f a))
    → GoesOn Q (elim x [ ready a ↦ f a | hangs ↦ hangs | panics ↦ panics ])
bind-GoesOn P Q (ready a) f p h = h a p
bind-GoesOn P Q hangs f p h = tt
bind-GoesOn P Q panics f p h = p

module _ {k : Codec} {c : Cache k.PublishPacket} (options : ClientOptions) where
  -- A client with whether it is connected again
  abbrev pub IsBack : Bool × MqttClient k c → Type 0
  IsBack (back, client) = IsFit options client

  awaited-GoesOn :
      (t : Token) (renewal : Renewal k c) (o : Option (MqttClient k c))
      → IsFairRenewal renewal
      → Continues options o
      → GoesOn (IsFit options) (awaited t renewal o)
  awaited-GoesOn t renewal none fair h = h
  awaited-GoesOn t renewal (some client) (waits, steps) h =
      let after = renewal.until client in
      if-GoesOn (IsFit options) (is_complete t after) (ready after) hangs
        (steps-IsFit options (steps client) h) tt

  renew_one-GoesOn :
      (renewal : Renewal k c) (topic : String) (sub : Subscription) (client : MqttClient k c)
      → IsFairRenewal renewal
      → IsFit options client
      → GoesOn (IsFit options) (renew_one renewal topic sub client)
  unfolding renew_one
  renew_one-GoesOn renewal topic sub client fair v =
      let o = subscribe topic sub.qos sub.handler renewal.wait client in
      awaited-GoesOn (Token.subscribe o.0) renewal o.1 fair
        (subscribe-Continues options topic sub.qos sub.handler renewal.wait client fair.0 v)

  resubscribe-GoesOn :
      (renewals : String → Renewal k c) (table : List (String × Subscription))
      (client : MqttClient k c)
      → ((topic : String) → IsFairRenewal (renewals topic))
      → IsFit options client
      → GoesOn (IsFit options) (resubscribe renewals table client)
  unfolding resubscribe
  resubscribe-GoesOn renewals [] client fair v = v
  resubscribe-GoesOn renewals ((topic, sub) ∷ table) client fair v =
      bind-GoesOn (IsFit options) (IsFit options) (renew_one (renewals topic) topic sub client)
        (resubscribe renewals table)
        (renew_one-GoesOn (renewals topic) topic sub client (fair topic) v)
        (λ client'. resubscribe-GoesOn renewals table client' fair)

  renew_session-GoesOn :
      (session_present : Bool) (renewals : String → Renewal k c) (client : MqttClient k c)
      → ((topic : String) → IsFairRenewal (renewals topic))
      → IsFit options client
      → GoesOn (IsFit options) (renew_session session_present renewals client)
  unfolding renew_session
  renew_session-GoesOn true renewals client fair v = v
  renew_session-GoesOn false renewals client fair v =
      resubscribe-GoesOn renewals client.world.state.subscriptions (start_over client) fair
        (start_over-IsFit options client v)

  with_true-GoesOn :
      (x : Await (MqttClient k c)) → GoesOn (IsFit options) x → GoesOn IsBack (with_true x)
  with_true-GoesOn (ready client) h = h
  with_true-GoesOn hangs h = tt
  with_true-GoesOn panics h = h

  after_connect-GoesOn :
      (r : ℕ) (a : Attempt k c) (e : Option TokenError) (client : MqttClient k c)
      → ((topic : String) → IsFairRenewal (a.renewals topic))
      → IsFit options client
      → GoesOn IsBack (after_connect r a e client)
  after_connect-GoesOn r a (some e) client fair v = v
  after_connect-GoesOn r a none client fair v =
      let present = (client.world.tokens.connects.cell r).own.session_present in
      with_true-GoesOn (renew_session present a.renewals client)
        (renew_session-GoesOn present a.renewals client fair v)

  pub await_connect-GoesOn :
      (r : ℕ) (a : Attempt k c) (o : Await (MqttClient k c))
      → IsFairTurn (notified a)
      → build_connect_packet k options ≢ none
      → Leaves options a.dial o
      → GoesOn IsBack (await_connect r a o)
  await_connect-GoesOn r a panics (sturdy, fair) built (inl crash) = sturdy crash
  await_connect-GoesOn r a panics (sturdy, fair) built (inr missing) = built missing
  await_connect-GoesOn r a hangs fair built h = tt
  await_connect-GoesOn r a (ready client) (sturdy, fair) built h =
      let e = error_of (Token.connect r) client.world.tokens in
      if-GoesOn IsBack (is_complete (Token.connect r) client) (after_connect r a e client) hangs
        (after_connect-GoesOn r a e client fair h) tt

  pub counted-GoesOn :
      (cnt : ℕ) (x : Await (Bool × MqttClient k c))
      → GoesOn IsBack x
      → GoesOn (λ b. IsFit options b.client) (counted cnt x)
  counted-GoesOn cnt (ready (true, client)) h = h
  counted-GoesOn cnt (ready (false, client)) h = h
  counted-GoesOn cnt hangs h = tt
  counted-GoesOn cnt panics h = h
