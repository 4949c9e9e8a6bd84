-- ===== src/Client/Shared.antt =====
-- The client, and what its operations share. A result of `none` is a panic. Handing a packet to the
-- channel is the one point at which an operation waits: whether the channel takes the packet, and what
-- the other tasks do to the shared state meanwhile, are arguments.
use mesquitte_client.Base.{
  ℕ, Bool, true, false, Option, none, some, [], ◌∷◌, ◌++◌, nat_beq, if◌then◌else◌,
}
use mesquitte_client.Codec.{Codec}
use mesquitte_client.Token.{
  TokenError, connection_lost, packet_id_error, internal_server_error, Token, Tokens, set_error,
}
use mesquitte_client.Pkid.{get_id}
use mesquitte_client.Packets.{VariablePacket, new_with}
use mesquitte_client.State.{Cache, World, state_new}
use mesquitte_client.Options.{ClientOptions}

pub data ConnectStatus : Type 0 where
  connected disconnected connecting : ConnectStatus

-- `MqttClient` without its transport
pub record MqttClient (k : Codec) (c : Cache k.PublishPacket) : Type 0 where
  pub world : World k c
  pub connect_status : ConnectStatus
  pub manual_disconnect : Bool
  pub options : ClientOptions

abbrev pub is_connected : {k : Codec} {c : Cache k.PublishPacket} → MqttClient k c → Bool
is_connected client = elim client.connect_status [ ConnectStatus.connected ↦ true | _ ↦ false ]

-- `MqttClient::new`, on the heap of tokens as it is
unfoldable pub client_new :
    {k : Codec} {c : Cache k.PublishPacket} → ClientOptions → (now : ℕ) → Tokens k → MqttClient k c
unfolding state_new
client_new options now tokens = record {
  world = record { state = state_new now; tokens = tokens; spawned = [] };
  connect_status = ConnectStatus.disconnected;
  manual_disconnect = false;
  options = options;
}

-- The end of a step that awaits something other than the channel, which may never come.
pub data Await {ℓ} (A : Type ℓ) : Type ℓ where
  ready : A → Await A
  hangs panics : Await A

-- How a wait on the channel goes.
pub record Wait (k : Codec) (c : Cache k.PublishPacket) : Type 0 where
  pub accepted : Bool
  pub others : World k c → World k c

module _ {k : Codec} {c : Cache k.PublishPacket} where
  -- `token.set_error(…)`
  abbrev pub reject : TokenError → Token → World k c → World k c
  reject e token w = record w { tokens = set_error token e w.tokens }

  -- `outgoing_tx.clone().unwrap().send(…).await`, and what an error of it does to the token
  unfoldable pub hand_over : VariablePacket k → Token → Wait k c → World k c → Option (World k c)
  hand_over packet token wait w = elim w.state.outgoing_tx [
    | none ↦ none
    | some sent ↦ some (
        if wait.accepted
        then wait.others (record w {
          state = record (w.state) { outgoing_tx = some (sent ++ new_with packet token ∷ []) };
        })
        else reject internal_server_error token (wait.others w))
  ]

  -- Takes an identifier for the token, which fails on 0.
  unfoldable pub numbered :
      Token → (ℕ → World k c → Option (World k c)) → World k c → Option (World k c)
  numbered token rest w =
      let (ids, pkid) = get_id w.state.packet_ids token in
      let w' : World k c = record w { state = record (w.state) { packet_ids = ids } } in
      if nat_beq pkid 0 then some (reject packet_id_error token w') else rest pkid w'

  -- The world after an operation, or a panic
  abbrev pub put : MqttClient k c → Option (World k c) → Option (MqttClient k c)
  put client none = none
  put client (some w) = some (record client { world = w })

  -- What an operation does once its token is there: nothing but the error on a client that is not
  -- connected.
  abbrev pub when_connected :
      MqttClient k c → Token → World k c → (World k c → Option (World k c)) → Option (World k c)
  when_connected client token w rest =
      if is_connected client then rest w else some (reject connection_lost token w)
