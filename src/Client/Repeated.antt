-- ===== src/Client/Repeated.antt =====
-- `connect` on a client that is connected.
use mesquitte_client.Base.{ℕ, ◌≡◌, refl, ap, ◌∙◌, false, List}
use mesquitte_client.Codec.{Codec}
use mesquitte_client.Token.{
  TokenState, Token, Tokens, modify, set_return_code, new_connect, state_of, poll, pending,
}
use mesquitte_client.Token.Runs.{TokenOp, run_ops, ends, poll-run_ops}
use mesquitte_client.State.{Cache}
use mesquitte_client.Net.Subscribing.{state-modify}
use mesquitte_client.Client.Shared.{MqttClient, ConnectStatus}
use mesquitte_client.Client.Dialing.{Dial, connect}
use mesquitte_client.Client.Shared.{ready}
use mesquitte_client.Client.Connecting.{new_token-state}

given-state :
    {k : Codec} (r : ℕ) (ts : Tokens k)
    → (state_of (Token.connect r) (record ts {
      connects = modify r (set_return_code k.connection_accepted) ts.connects;
    })).complete
      ≡ (state_of (Token.connect r) ts).complete
unfolding state_of
given-state {k} r ts =
    ap (λ (s : TokenState). s.complete)
      (state-modify r r (set_return_code k.connection_accepted) ts.connects).0

unfinished-poll :
    {k : Codec} (w : ℕ) (t : Token) (ops : List TokenOp) (ts : Tokens k)
    → (state_of t ts).complete ≡ false
    → ends t ops ≡ false
    → (poll w t (run_ops ops ts)).1 ≡ pending
unfinished-poll w t ops ts h n = poll-run_ops w t ops ts ∙ (rw (h, n))

-- On a connected client `connect` does not panic and returns a token that is not complete: as long as no operation on this
-- very token completes it, polling it answers Pending, whatever happens to all others.
pub connect_waits :
    {k : Codec} {c : Cache k.PublishPacket} (now w : ℕ) (dial : Dial k) (ops : List TokenOp)
    (client : MqttClient k c)
    → client.connect_status ≡ ConnectStatus.connected
    → ends (Token.connect client.world.tokens.connects.next) ops ≡ false
    → let (r, client') = connect now dial client in
      (after : MqttClient k c) × (client' ≡ ready after)
      × (r ≡ client.world.tokens.connects.next)
      × ((poll w (Token.connect r) (run_ops ops after.world.tokens)).1 ≡ pending)
unfolding connect
connect_waits {k} {c} now w dial ops client h n =
    let (r, tokens) = new_connect client.world.tokens in
    let given : Tokens k = record tokens {
      connects = modify r (set_return_code k.connection_accepted) tokens.connects;
    } in
    let waiting : (state_of (Token.connect r) given).complete ≡ false =
      given-state r tokens ∙ (new_token-state client).0 in
    (
      record client { world = record (client.world) { tokens = given } },
      rw h,
      refl,
      unfinished-poll w (Token.connect r) ops given waiting n,
    )
