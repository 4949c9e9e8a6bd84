-- ===== src/Client/Outcomes.antt =====
-- What becomes of an operation: the token that the caller gets, the packet that goes out.
use mesquitte_client.Base.{ℕ, ◌≡◌, refl, ◌∙◌, Bool, false, Option, none, some, List, String}
use mesquitte_client.Codec.{Codec, QualityOfService}
use mesquitte_client.Token.{
  TokenError, connection_lost, Token, Tokens, state_of, error_of, token_beq_iff, new_publish,
  new_subscribe, new_unsubscribe, new_disconnect, modify, set_qos,
}
use mesquitte_client.Token.Laws.{done, state_of-set_error, error_of-set_error}
use mesquitte_client.State.{Cache, World}
use mesquitte_client.Client.Shared.{MqttClient, is_connected, Wait, reject, put}
use mesquitte_client.Client.Sending.{publish, disconnect}
use mesquitte_client.Client.Requests.{subscribe, subscribe_multiple, unsubscribe}

module _ {k : Codec} {c : Cache k.PublishPacket} where
  -- The token is complete with the error.
  abbrev pub Failed : TokenError → Token → World k c → Type 0
  Failed e t w = (state_of t w.tokens ≡ done) × (error_of t w.tokens ≡ some e)

  pub reject-Failed : (e : TokenError) (t : Token) (w : World k c) → Failed e t (reject e t w)
  reject-Failed e t w =
      let self = (token_beq_iff t t).1 refl in
      (state_of-set_error w.tokens t t e ∙ (rw self), error_of-set_error w.tokens t t e ∙ (rw self))

  -- The operation did not panic, its token failed, and the shared state is the one before.
  abbrev pub Refused : TokenError → Token → MqttClient k c → Option (MqttClient k c) → Type 0
  Refused e t client none = ⊥
  Refused e t client (some client') =
      Failed e t client'.world
      × (client'.world.state ≡ client.world.state)
      × (client'.world.spawned ≡ client.world.spawned)
      × (client'.manual_disconnect ≡ client.manual_disconnect)

  reject-Refused :
      (e : TokenError) (client : MqttClient k c) (t : Token) (ts : Tokens k)
      → Refused e t client (put client (some (reject e t (record (client.world) { tokens = ts }))))
  reject-Refused e client t ts =
      (reject-Failed e t (record (client.world) { tokens = ts }), refl, refl, refl)

-- On a client that is not connected each operation fails its token with ConnectionLost and changes
-- nothing of the shared state: no identifier is taken and no packet goes out.
pub offline_operations :
    {k : Codec} {c : Cache k.PublishPacket} (client : MqttClient k c) (wait : Wait k c)
    (topic : String) (topics : List String) (requests : List (String × QualityOfService))
    (qos : QualityOfService) (retained : Bool) (payload : List ℕ) (callback : ℕ)
    → is_connected client ≡ false
    → (let (r, client') = publish topic qos retained payload wait client in
        Refused connection_lost (Token.publish r) client client')
      × (let (r, client') = subscribe topic qos callback wait client in
          Refused connection_lost (Token.subscribe r) client client')
      × (let (r, client') = subscribe_multiple requests callback wait client in
          Refused connection_lost (Token.subscribe r) client client')
      × (let (r, client') = unsubscribe topics wait client in
          Refused connection_lost (Token.unsubscribe r) client client')
      × (let (r, client') = disconnect wait client in
          Refused connection_lost (Token.disconnect r) client client')
unfolding publish subscribe subscribe_multiple unsubscribe disconnect
offline_operations client wait topic topics requests qos retained payload callback h =
    let ts = client.world.tokens in
    let (r, published) = new_publish ts in
    let (s, requested) = new_subscribe ts in
    let (u, removed) = new_unsubscribe ts in
    let (d, ended) = new_disconnect ts in
    (
      rw h (
          reject-Refused connection_lost client (Token.publish r)
            (record published { publishes = modify r (set_qos qos) published.publishes })),
      rw h (reject-Refused connection_lost client (Token.subscribe s) requested),
      rw h (reject-Refused connection_lost client (Token.subscribe s) requested),
      rw h (reject-Refused connection_lost client (Token.unsubscribe u) removed),
      rw h (reject-Refused connection_lost client (Token.disconnect d) ended),
    )
