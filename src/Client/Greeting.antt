-- ===== src/Client/Greeting.antt =====
-- `build_connect_packet`.
use mesquitte_client.Base.{◌%◌, Option, none, some, String, if◌then◌else◌, string_beq}
use mesquitte_client.Codec.{Codec, qos_u8}
use mesquitte_client.Packets.{ConnectPacket}
use mesquitte_client.Options.{ClientOptions, as_secs}

-- A text that is set unless it is empty
abbrev pub unless_empty : String → Option String
unless_empty s = if string_beq s "" then none else some s

-- `will_msg.unwrap()`: a will that is refused is a panic.
abbrev pub with_will :
    {k : Codec} → Option k.LastWill → ClientOptions → ConnectPacket k → Option (ConnectPacket k)
with_will none o packet = none
with_will (some will) o packet = some (record packet {
  will_qos = some (qos_u8 o.will_qos);
  will_retain = some o.will_retained;
  will = some will;
})

unfoldable pub build_connect_packet : (k : Codec) → ClientOptions → Option (ConnectPacket k)
build_connect_packet k o =
    let plain : ConnectPacket k = record {
      client_id = o.client_id;
      clean_session = o.clean_session;
      keep_alive = as_secs o.keep_alive % 65536;
      will_qos = none;
      will_retain = none;
      will = none;
      username = unless_empty o.username;
      password = unless_empty o.password;
    } in
    if o.will_enabled
    then with_will (k.last_will_new o.will_topic o.will_payload) o plain
    else some plain
