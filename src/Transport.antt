-- ===== src/Transport.antt =====
-- src/transport.rs: the three transports. What the network answers is an argument; a result of `none` is
-- a panic.
use mesquitte_client.Base.{Bool, true, false, Option, none, some, List, [], ◌∷◌, String}
use mesquitte_client.Token.{
  TokenError, io_error, connect_timeout, network_unreachable, connect_error, connection_error,
}
use mesquitte_client.WsStream.{Answer, WsByteStream, ws_new}
pub mod Dialling

-- `TokenError::from`, of the three kinds of error that `?` meets
abbrev pub from_io_error : String → TokenError
from_io_error err = io_error err

abbrev pub from_start_error : String → TokenError
from_start_error err = connect_error err

abbrev pub from_connection_error : String → TokenError
from_connection_error err = connection_error err

pub data Result {ℓ} (S : Type ℓ) : Type ℓ where
  ok : S → Result S
  err : TokenError → Result S

-- The answer to an attempt under a timeout; an error comes as its text.
pub data Attempt {ℓ} (S : Type ℓ) : Type ℓ where
  opened : S → Attempt S
  failed : String → Attempt S
  timed_out : Attempt S

-- The loop of `Tcp::connect`, with the addresses that it tried.
unfoldable pub try_addresses {ℓ} :
    {A : Type 0} {S : Type ℓ} → (A → Attempt S) → TokenError → List A → Result S × List A
try_addresses dial error [] = (err error, [])
try_addresses dial error (addr ∷ addrs) = elim (dial addr) [
  | opened s ↦ (ok s, addr ∷ [])
  | failed e ↦
      let (result, tried) = try_addresses dial (from_io_error e) addrs in (result, addr ∷ tried)
  | timed_out ↦
      let (result, tried) = try_addresses dial connect_timeout addrs in (result, addr ∷ tried)
]

-- `Tcp::connect`: the addresses are what `lookup_host` answers, and its error is a panic.
unfoldable pub tcp_connect {ℓ} :
    {A : Type 0} {S : Type ℓ} → (A → Attempt S) → Option (List A) → Option (Result S × List A)
unfolding try_addresses
tcp_connect dial none = none
tcp_connect dial (some addrs) = some (try_addresses dial network_unreachable addrs)

-- What `timeout(connect_timeout, connect_async(request))` becomes.
abbrev pub ws_opened : Attempt (List Answer) → Result WsByteStream
ws_opened (opened inner) = ok (ws_new inner)
ws_opened (failed e) = err network_unreachable
ws_opened timed_out = err connect_timeout

-- `Ws::connect`: `request` is the request that the address makes, which may be none.
unfoldable pub ws_connect :
    {R : Type 0} → (R → Attempt (List Answer)) → Option R → Option (Result WsByteStream)
ws_connect dial none = none
ws_connect dial (some request) = some (ws_opened (dial request))

-- What the QUIC library answers, step by step; a text is an error.
pub record QuicAnswers (S : Type 0) : Type 0 where
  pub with_tls : Bool
  pub with_io : Option TokenError
  pub start : Option String
  pub address : Option String
  pub connect : Option String
  pub keep_alive : Option String
  pub stream : Attempt S

abbrev pub quic_opened : {S : Type 0} → Attempt S → Result S
quic_opened (opened s) = ok s
quic_opened (failed e) = err (from_connection_error e)
quic_opened timed_out = err connect_timeout

-- `step?`
abbrev pub try_step {ℓ κ} :
    {E : Type ℓ} {S : Type κ} → Option E → (E → TokenError) → Result S → Result S
try_step none from rest = rest
try_step (some e) from rest = err (from e)

-- `Quic::connect`: a certificate that is refused is a panic.
unfoldable pub quic_connect : {S : Type 0} → QuicAnswers S → Option (Result S)
quic_connect a = elim a.with_tls [
  | false ↦ none
  | true ↦ some (
      try_step a.with_io (λ e. e)
        (try_step a.start from_start_error (
          try_step a.address connect_error (
            try_step a.connect from_connection_error
              (try_step a.keep_alive from_connection_error (quic_opened a.stream))))))
]
