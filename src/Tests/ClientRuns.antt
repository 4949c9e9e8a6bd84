-- ===== src/Tests/ClientRuns.antt =====
-- Operations of the client at concrete inputs.
use mesquitte_client.Base.{
  ℕ, contains_key, ◌≡◌, refl, true, false, none, some, [], ◌∷◌, arith, ◌<◌, insert_sorted,
}
use mesquitte_client.Codec.{QualityOfService, QosWithPacketIdentifier}
use mesquitte_client.Token.{Token, invalid_topic, state_of}
use mesquitte_client.Token.Laws.{done}
use mesquitte_client.Pkid.{packet_ids_new, get_token, get_id}
use mesquitte_client.Pkid.Issue.{IsFull}
use mesquitte_client.Packets.{VariablePacket, new_with}
use mesquitte_client.State.{World}
use mesquitte_client.Topics.{add, topic_manager_new}
use mesquitte_client.Net.{handle_suback}
use mesquitte_client.Samples.{plain, plain_cache, connected, news, refusing, tokens_of}
use mesquitte_client.Client.{ready, MqttClient, ConnectStatus, Wait, publish, subscribe}
use mesquitte_client.Client.{connect, opened, frame, ended}
use mesquitte_client.Client.Connecting.{Settles, connect-Settles}
use mesquitte_client.Client.Repeated.{connect_waits}
use mesquitte_client.Token.{poll, pending}
use mesquitte_client.Token.Runs.{polls, completes, run_ops}
use mesquitte_client.Options.{options_new, set_keep_alive, from_secs}
use mesquitte_client.Packets.{ConnectPacket}
use mathlib.Core.Option
use mesquitte_client.Client.{build_connect_packet}
use mesquitte_client.Client.Greetings.{Answers, build_connect_packet_lem}
use mesquitte_client.Client.Outcomes.{Failed}
use mesquitte_client.Client.Publishing.{publish_registers, publish_keeps_identifier}
use mesquitte_client.Client.Subscribing.{
  undisturbed, overtaken, subscribe_then_granted, subscribe-overtaken,
}

abbrev online : MqttClient plain plain_cache
online = record {
  world = connected;
  connect_status = ConnectStatus.connected;
  manual_disconnect = false;
  options = options_new;
}

new_low : online.world.state.packet_ids.last_issued_id < 65536
unfolding packet_ids_new
new_low = omega arith

new_free : ¬ IsFull online.world.state.packet_ids
unfolding packet_ids_new contains_key
new_free full = absurd (cc (full 1 (omega arith) (omega arith)))

publish_registers_example :
    let client' = (publish "a" QualityOfService.level2 false (1 ∷ []) undisturbed online).1 in
    (id : ℕ) × (w : World plain plain_cache) × (client' ≡ some (record online { world = w }))
    × (get_token packet_ids_new id ≡ none)
    × (get_token w.state.packet_ids id ≡ some (Token.publish 0))
    × (w.state.outgoing_tx
        ≡ some (
            new_with
              (VariablePacket.publish (
                plain.set_retain false
                  (plain.publish_new "a" (QosWithPacketIdentifier.level2 id) (1 ∷ []))))
              (Token.publish 0)
            ∷ []))
unfolding publish
publish_registers_example =
    publish_registers "a" "a" true false (1 ∷ []) undisturbed online [] refl new_low new_free refl
      refl refl

subscribe_then_granted_example :
    (id : ℕ) × (w : World plain plain_cache) × ((subscribe "sport/+" QualityOfService.level1 5
        undisturbed online).1
      ≡ some (record online { world = w }))
    × (get_token w.state.packet_ids id ≡ some (Token.subscribe 0))
    × (let w' = handle_suback id (1 ∷ []) w in
        (w'.state.topic_manager ≡ add news online.world.state.topic_manager)
        × (w'.state.subscriptions ≡ insert_sorted "sport/+" news online.world.state.subscriptions)
        × (state_of (Token.subscribe 0) w'.tokens ≡ done))
unfolding subscribe
subscribe_then_granted_example =
    subscribe_then_granted news "sport/+" online [] 1 refl new_low new_free refl refl refl

subscribe-overtaken_example :
    let wait : Wait plain plain_cache =
      overtaken (get_id packet_ids_new (Token.subscribe 0)).1 (1 ∷ []) in
    (w : World plain plain_cache) × ((subscribe "sport/+" QualityOfService.level1 5 wait online).1
      ≡ some (record online { world = w }))
    × (w.state.topic_manager ≡ online.world.state.topic_manager)
    × (w.state.subscriptions ≡ online.world.state.subscriptions)
    × (state_of (Token.subscribe 0) w.tokens ≡ done)
subscribe-overtaken_example =
    subscribe-overtaken news "sport/+" online [] (1 ∷ []) refl new_low new_free refl refl

abbrev refused : MqttClient refusing plain_cache
refused = record {
  world = record {
    state = record {
      packet_ids = packet_ids_new;
      topic_manager = topic_manager_new;
      subscriptions = [];
      pending_packets = [];
      outgoing_tx = some [];
      last_sent_packet_at = 0;
    };
    tokens = tokens_of refusing;
    spawned = [];
  };
  connect_status = ConnectStatus.connected;
  manual_disconnect = false;
  options = options_new;
}

publish_keeps_identifier_example :
    (id : ℕ) × (w : World refusing plain_cache) × ((publish "a" QualityOfService.level1 false
        (1 ∷ [])
        undisturbed
        refused).1
      ≡ some (record refused { world = w }))
    × Failed invalid_topic (Token.publish 0) w
    × (get_token packet_ids_new id ≡ none)
    × (get_token w.state.packet_ids id ≡ some (Token.publish 0))
    × (w.state.outgoing_tx ≡ some [])
unfolding publish
publish_keeps_identifier_example =
    publish_keeps_identifier "a" false false (1 ∷ []) undisturbed refused refl new_low new_free refl

abbrev closed_client : MqttClient plain plain_cache
closed_client = record online { connect_status = ConnectStatus.disconnected }

the_packet : (p : ConnectPacket plain) × (build_connect_packet plain options_new ≡ some p)
unfolding build_connect_packet
the_packet = (_, refl)

connect-Settles_example :
    Settles
      (ready none)
      0
      closed_client.world.state
      (connect 7 (opened (frame (VariablePacket.connack 0 true))) closed_client).1
unfolding connect
connect-Settles_example =
    connect-Settles 7 (opened (frame (VariablePacket.connack 0 true))) closed_client the_packet.0
      refl the_packet.1

connect_waits_example :
    let (r, client') = connect 7 (opened ended) online in
    (after : MqttClient plain plain_cache) × (client' ≡ ready after)
    × (r ≡ 0)
    × ((poll 3 (Token.connect r) (
          run_ops
            (polls 1 (Token.connect 0) ∷ completes (Token.publish 0) ∷ [])
            after.world.tokens)).1
        ≡ pending)
connect_waits_example =
    connect_waits 7 3 (opened ended) (polls 1 (Token.connect 0) ∷ completes (Token.publish 0) ∷ [])
      online refl refl

-- A keep-alive of 65536 seconds is 0 in the packet, which turns the server's watch off.
build_connect_packet_lem_example :
    let o = set_keep_alive (from_secs 65536) options_new in
    Answers false (some ("", [])) o (build_connect_packet plain o)
build_connect_packet_lem_example =
    build_connect_packet_lem plain (set_keep_alive (from_secs 65536) options_new)

wrapped :
    Option.map
      (λ (p : ConnectPacket plain). p.keep_alive)
      (build_connect_packet plain (set_keep_alive (from_secs 65536) options_new))
    ≡ some 0
unfolding build_connect_packet
wrapped = refl
