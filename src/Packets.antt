-- ===== src/Packets.antt =====
-- The packets that the client exchanges with the server: `VariablePacket` of mqtt_codec_kit, each case
-- with what the source gives to the packet or reads from it.
use mesquitte_client.Base.{ℕ, Bool, Option, none, some, List, String}
use mesquitte_client.Codec.{Codec, QualityOfService}
use mesquitte_client.Token.{Token}

-- What the source sets on a `ConnectPacket`; `none` leaves what `ConnectPacket::new` made.
pub record ConnectPacket (k : Codec) : Type 0 where
  pub client_id : String
  pub clean_session : Bool
  pub keep_alive : ℕ
  pub will_qos : Option ℕ
  pub will_retain : Option Bool
  pub will : Option k.LastWill
  pub username : Option String
  pub password : Option String

pub data VariablePacket (k : Codec) : Type 0 where
  connect : ConnectPacket k → VariablePacket k
  connack : (code : k.ConnectReturnCode) (session_present : Bool) → VariablePacket k
  publish : k.PublishPacket → VariablePacket k
  puback pubrec pubrel pubcomp : (id : ℕ) → VariablePacket k
  subscribe : (id : ℕ) → List (k.TopicFilter × QualityOfService) → VariablePacket k
  suback : (id : ℕ) → List k.SubscribeReturnCode → VariablePacket k
  unsubscribe : (id : ℕ) → List k.TopicFilter → VariablePacket k
  unsuback : (id : ℕ) → VariablePacket k
  pingreq pingresp disconnect : VariablePacket k

-- src/token/mod.rs: a packet to be written, with the token of its operation.
pub record PacketAndToken (k : Codec) : Type 0 where
  pub packet : VariablePacket k
  pub token : Option Token

abbrev pub packet_only : {k : Codec} → VariablePacket k → PacketAndToken k
packet_only p = record { packet = p; token = none }

abbrev pub new_with : {k : Codec} → VariablePacket k → Token → PacketAndToken k
new_with p t = record { packet = p; token = some t }
