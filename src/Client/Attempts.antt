-- ===== src/Client/Attempts.antt =====
-- An attempt of `block` to connect again whose connection is refused.
use mesquitte_client.Base.{ℕ, ◌+◌, ◌≡◌, refl, ap, ◌∙◌, true, false, some, String, arith}
use mesquitte_client.Codec.{Codec}
use mesquitte_client.Token.{Token, TokenState, TokenError, set_error, new_connect}
use mesquitte_client.State.{Cache}
use mesquitte_client.Client.Shared.{Await, ready, MqttClient, ConnectStatus}
use mesquitte_client.Client.Dialing.{refused, connect, fail_connect}
use mesquitte_client.Client.Renewing.{Renewal}
use mesquitte_client.Client.Blocking.{Attempt, reconnect, await_connect}
use mesquitte_client.Client.Outcomes.{Failed, reject-Failed}

module _ {k : Codec} {c : Cache k.PublishPacket} where
  -- The client is down and is to connect again, at most `times` times in a row.
  pub record IsDown (times : ℕ) (client : MqttClient k c) : Type 0 where
    pub status : client.connect_status ≡ ConnectStatus.disconnected
    pub wanted : client.manual_disconnect ≡ false
    pub auto : client.options.auto_reconnect ≡ true
    pub limit : client.options.max_connect_retry_times ≡ some times

  -- The client after an attempt whose connection is refused
  abbrev pub after_refusal : TokenError → MqttClient k c → MqttClient k c
  after_refusal e client =
      let (r, tokens) = new_connect client.world.tokens in
      fail_connect e r (record client {
        world = record (client.world) { tokens = tokens };
        connect_status = ConnectStatus.connecting;
      })

  connect_refused :
      (now : ℕ) (e : TokenError) (client : MqttClient k c)
      → client.connect_status ≡ ConnectStatus.disconnected
      → connect now (refused e) client
        ≡ (client.world.tokens.connects.next, ready (after_refusal e client))
  unfolding connect
  connect_refused now e client h = rw h

  await-Failed :
      (r : ℕ) (a : Attempt k c) (client : MqttClient k c) (e : TokenError)
      → Failed e (Token.connect r) client.world
      → await_connect r a (ready client) ≡ ready (false, client)
  await-Failed r a client e (completed, error) =
      let complete = ap (λ (s : TokenState). s.complete) completed in rw (complete, error)

  pub reconnect-refused :
      (now : ℕ) (e : TokenError) (renewals : String → Renewal k c) (client : MqttClient k c)
      → client.connect_status ≡ ConnectStatus.disconnected
      → reconnect (record { now = now; dial = refused e; renewals = renewals }) client
        ≡ ready (false, after_refusal e client)
  unfolding reconnect
  reconnect-refused now e renewals client h =
      let a : Attempt k c = record { now = now; dial = refused e; renewals = renewals } in
      let r = client.world.tokens.connects.next in
      ap (λ (x : ℕ × Await (MqttClient k c)). await_connect x.0 a x.1)
        (connect_refused now e client h)
      ∙ await-Failed r a (after_refusal e client) e (
          reject-Failed e (Token.connect r)
            (record (client.world) { tokens = (new_connect client.world.tokens).1 }))

  pub next-refusal :
      (e : TokenError) (client : MqttClient k c)
      → (after_refusal e client).world.tokens.connects.next ≡ client.world.tokens.connects.next + 1
  unfolding set_error
  next-refusal e client = omega arith

  pub refusal-IsDown :
      (times : ℕ) (e : TokenError) (client : MqttClient k c)
      → IsDown times client
      → IsDown times (after_refusal e client)
  refusal-IsDown times e client d = record {
    status = refl;
    wanted = d.wanted;
    auto = d.auto;
    limit = d.limit;
  }
