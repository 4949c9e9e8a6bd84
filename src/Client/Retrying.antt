-- ===== src/Client/Retrying.antt =====
-- How often `block` tries to connect again.
use mesquitte_client.Base.{
  ℕ, ◌+◌, ◌%◌, ◌<◌, ◌≡◌, ap, ◌∙◌, Bool, true, false, Option, none, some, List, [], ◌∷◌, ◌++◌,
  String, length, if◌then◌else◌, arith,
}
use mesquitte_client.Codec.{Codec}
use mesquitte_client.Token.{TokenError}
use mesquitte_client.State.{Cache}
use mesquitte_client.Client.Shared.{Await, ready, hangs, panics, MqttClient, ConnectStatus}
use mesquitte_client.Client.Dialing.{refused}
use mesquitte_client.Client.Renewing.{Renewal}
use mesquitte_client.Client.Blocking.{
  Turn, interval, notified, Round, Blocked, returned, block, exhausted, settle, counted,
  on_interval,
}
use mesquitte_client.Client.Attempts.{
  IsDown, after_refusal, reconnect-refused, next-refusal, refusal-IsDown,
}

if_nested {ℓ} :
    {A : Type ℓ} (b b' : Bool) (x y z : A)
    → b ≡ false
    → b' ≡ true
    → (if b then x else (if b' then y else z)) ≡ y
if_nested b b' x y z h h' = rw (h, h')

module _ {k : Codec} {c : Cache k.PublishPacket} where
  abbrev quiet : Turn k c → Round k c
  quiet turn = record { others = λ client. client; turn = turn }

  -- Two rounds for each attempt, which is refused with the error: the interval, then the attempt.
  abbrev pub refusals : (String → Renewal k c) → List (ℕ × TokenError) → List (Round k c)
  refusals renewals [] = []
  refusals renewals ((now, e) ∷ attempts) =
      quiet interval
      ∷ quiet (notified (record { now = now; dial = refused e; renewals = renewals }))
      ∷ refusals renewals attempts

  block-exhausted :
      (rounds : List (Round k c)) (b : Blocked k c)
      → exhausted b.client.options.max_connect_retry_times b.cnt ≡ true
      → block rounds b ≡ returned b.client
  unfolding block
  block-exhausted [] b h = rw h
  block-exhausted (round ∷ rounds) b h = rw (block, h)

  block_step :
      (round : Round k c) (rounds : List (Round k c)) (b b' : Blocked k c)
      → exhausted b.client.options.max_connect_retry_times b.cnt ≡ false
      → settle round.turn (record b { client = round.others b.client }) ≡ ready (some b')
      → block (round ∷ rounds) b ≡ block rounds b'
  unfolding block
  block_step round rounds b b' left settled = rw (block, left, settled)

  left-IsDown :
      (times cnt : ℕ) (client : MqttClient k c)
      → IsDown times client
      → cnt < times
      → exhausted client.options.max_connect_retry_times cnt ≡ false
  left-IsDown times cnt client d more = ap (λ limit. exhausted limit cnt) d.limit ∙ ground arith

  interval-IsDown :
      (times : ℕ) (b : Blocked k c)
      → IsDown times b.client
      → settle interval b ≡ ready (some (record b { permit = true }))
  interval-IsDown times b d = ap ready (
      ap (λ status. on_interval status b) d.status
      ∙ if_nested b.client.manual_disconnect b.client.options.auto_reconnect (some b)
          (some (record b { permit = true })) none d.wanted d.auto)

  attempt_refused :
      (now : ℕ) (e : TokenError) (renewals : String → Renewal k c) (client : MqttClient k c)
      (cnt : ℕ)
      → client.connect_status ≡ ConnectStatus.disconnected
      → settle
          (notified (record { now = now; dial = refused e; renewals = renewals }))
          (record { client = client; cnt = cnt; permit = true })
        ≡ ready (
            some
              (record { client = after_refusal e client; cnt = (cnt + 1) % 65536; permit = false }))
  attempt_refused now e renewals client cnt h =
      ap
        (λ r.
          let b : Await (Blocked k c) = counted cnt r in
          let s : Await (Option (Blocked k c)) = elim b [
            | ready b' ↦ ready (some b')
            | hangs ↦ hangs
            | panics ↦ panics
          ] in
          s)
        (reconnect-refused now e renewals client h)

  block_refused :
      (times cnt : ℕ) (renewals : String → Renewal k c) (attempts : List (ℕ × TokenError))
      (rest : List (Round k c)) (client : MqttClient k c)
      → times < 65536
      → cnt + length attempts ≡ times
      → IsDown times client
      → (client' : MqttClient k c) × (block
            (refusals renewals attempts ++ rest)
            (record { client = client; cnt = cnt; permit = false })
          ≡ returned client')
        × IsDown times client'
        × (client'.world.tokens.connects.next ≡ client.world.tokens.connects.next + length attempts)
  block_refused times cnt renewals [] rest client h total d =
      let over : exhausted client.options.max_connect_retry_times cnt ≡ true =
        ap (λ limit. exhausted limit cnt) d.limit ∙ ground arith in
      (client, block-exhausted rest _ over, d, omega arith)
  block_refused times cnt renewals ((now, e) ∷ attempts) rest client h total d =
      let left = left-IsDown times cnt client d (omega arith) in
      let b : Blocked k c = record { client = client; cnt = cnt; permit = true } in
      let first =
        block_step (quiet interval)
          (quiet (notified (record { now = now; dial = refused e; renewals = renewals }))
              ∷ refusals renewals attempts
            ++ rest)
          (record { client = client; cnt = cnt; permit = false }) b left
          (interval-IsDown times (record { client = client; cnt = cnt; permit = false }) d) in
      let second =
        block_step (quiet (notified (record { now = now; dial = refused e; renewals = renewals })))
          (refusals renewals attempts ++ rest) b _ left
          (attempt_refused now e renewals client cnt d.status) in
      let (client', run, down, next) =
        block_refused times (cnt + 1) renewals attempts rest (after_refusal e client) h
          (omega arith) (refusal-IsDown times e client d) in
      let small : (cnt + 1) % 65536 ≡ cnt + 1 = omega arith in
      (
        client',
        first
            ∙ second
            ∙ ap
                (λ n.
                  block (refusals renewals attempts ++ rest)
                    (record { client = after_refusal e client; cnt = n; permit = false }))
                small
            ∙ run,
        down,
        omega (arith, next, next-refusal e client),
      )

-- When the client is down, is to connect again, and may try `times` times in a row, a 16-bit number,
-- `block` makes exactly that many attempts if each is refused, each with a token of its own, and returns
-- with the client disconnected, whatever would come after.
pub block_gives_up :
    {k : Codec} {c : Cache k.PublishPacket} (renewals : String → Renewal k c)
    (attempts : List (ℕ × TokenError)) (rest : List (Round k c)) (client : MqttClient k c)
    → length attempts < 65536
    → IsDown (length attempts) client
    → (client' : MqttClient k c) × (block
          (refusals renewals attempts ++ rest)
          (record { client = client; cnt = 0; permit = false })
        ≡ returned client')
      × IsDown (length attempts) client'
      × (client'.world.tokens.connects.next ≡ client.world.tokens.connects.next + length attempts)
block_gives_up renewals attempts rest client h d =
    block_refused (length attempts) 0 renewals attempts rest client h (omega arith) d
