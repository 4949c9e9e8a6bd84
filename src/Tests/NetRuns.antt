-- ===== src/Tests/NetRuns.antt =====
-- The handlers and the loops of the client's tasks at concrete inputs.
use mesquitte_client.Base.{get, ◌≡◌, refl, false, none, some, List, [], ◌∷◌, ◌++◌}
use mesquitte_client.Codec.{QualityOfService, QosWithPacketIdentifier}
use mesquitte_client.Token.{
  Token, publish, subscribe, unsubscribe, disconnect, io_error, state_of, error_of,
}
use mesquitte_client.Token.Laws.{done}
use mesquitte_client.Pkid.{get_token}
use mesquitte_client.Pkid.Issue.{packet_ids_new-IsValid}
use mesquitte_client.Trie.{new_node}
use mesquitte_client.Trie.Pruned.{insert_at-IsPruned}
use mesquitte_client.Topics.{add, topic_manager_new, tokenize_topic}
use mesquitte_client.Packets.{VariablePacket}
use mesquitte_client.State.{World}
use mesquitte_client.Samples.{plain, plain_cache, plain_cache_keeps, PlainPublish, news, connected}
use mesquitte_client.Net.{handle_puback, handle_pubcomp, handle_suback, handle_unsuback}
use mesquitte_client.Net.{
  failure, read_from_server, WriteEvent, response, outgoing, write_to_server,
}
use mesquitte_client.Net.Publish.{deliver, replicate, pubrel_frame, publish_frame, exactly_once}
use mesquitte_client.Net.Acks.{Acknowledges, handle_puback_lem}
use mesquitte_client.Net.Subscribing.{Subscribes, handle_suback_lem}
use mesquitte_client.Net.Unsubscribing.{Unsubscribes, handle_unsuback_lem}
use mesquitte_client.Net.Reading.{Inv, Survives, read_from_server-Survives}
use mesquitte_client.Net.Writing.{write_to_server_lem}

abbrev Client : Type 0
Client = World plain plain_cache

-- The client with one operation in flight, under the identifier 2.
abbrev in_flight : Token → Client
in_flight t = record connected {
  state = record (connected.state) {
    packet_ids = record { index = (2, t) ∷ []; last_issued_id = 2 };
  };
}

-- A subscription that waits for its SUBACK, with two topics.
abbrev subscribing : Client
subscribing = record (in_flight (subscribe 0)) {
  tokens = record (connected.tokens) {
    subscribes = record (connected.tokens.subscribes) {
      cell = λ r. record (connected.tokens.subscribes.cell r) {
        own = record ((connected.tokens.subscribes.cell r).own) {
          subscriptions =
              news ∷ record { topic = "#"; qos = QualityOfService.level0; handler = 6 } ∷ [];
        };
      };
    };
  };
}

-- A request that waits for its UNSUBACK.
abbrev unsubscribing : Client
unsubscribing = record (in_flight (unsubscribe 0)) {
  tokens = record (connected.tokens) {
    unsubscribes = record (connected.tokens.unsubscribes) {
      cell = λ r. record (connected.tokens.unsubscribes.cell r) {
        own = record ((connected.tokens.unsubscribes.cell r).own) { subs = "sport/+" ∷ [] };
      };
    };
  };
}

-- A message at level 2 under the identifier 9
abbrev goal : PlainPublish
goal = record {
  name = "sport/football";
  bytes = 1 ∷ 0 ∷ [];
  level = QosWithPacketIdentifier.level2 9;
  again = false;
  kept = false;
}

exactly_once_example :
    (w' : Client) × (read_from_server
        (replicate 2 (publish_frame plain goal) ++ replicate 2 (pubrel_frame 9))
        connected
      ≡ some (w', replicate 2 (VariablePacket.pubrec 9) ++ replicate 2 (VariablePacket.pubcomp 9)))
    × (w'.spawned ≡ (deliver goal connected).spawned)
exactly_once_example = exactly_once 9 1 1 goal connected refl (plain_cache_keeps 9 goal)

handle_puback_lem_example :
    Acknowledges 2 (in_flight (publish 0)) (handle_puback 2 (in_flight (publish 0)))
    × Acknowledges 2 (in_flight (publish 0)) (handle_pubcomp 2 (in_flight (publish 0)))
handle_puback_lem_example = handle_puback_lem 2 (in_flight (publish 0))

waiting_subscribe : get_token subscribing.state.packet_ids 2 ≡ some (subscribe 0)
unfolding get_token get
waiting_subscribe = refl

handle_suback_lem_example :
    Subscribes 2 0 (1 ∷ 128 ∷ []) subscribing (handle_suback 2 (1 ∷ 128 ∷ []) subscribing)
handle_suback_lem_example = handle_suback_lem 2 0 (1 ∷ 128 ∷ []) subscribing waiting_subscribe

waiting_unsubscribe : get_token unsubscribing.state.packet_ids 2 ≡ some (unsubscribe 0)
unfolding get_token get
waiting_unsubscribe = refl

handle_unsuback_lem_example : Unsubscribes 2 0 unsubscribing (handle_unsuback 2 unsubscribing)
handle_unsuback_lem_example = handle_unsuback_lem 2 0 unsubscribing waiting_unsubscribe

waiting_early : get_token (in_flight (subscribe 0)).state.packet_ids 2 ≡ some (subscribe 0)
unfolding get_token get
waiting_early = refl

connected-Inv : Inv connected.state
unfolding add topic_manager_new
connected-Inv = record {
  ids = packet_ids_new-IsValid;
  trie = insert_at-IsPruned (tokenize_topic "sport/+") news new_node tt;
}

read_from_server-Survives_example :
    Survives (read_from_server (publish_frame plain goal ∷ pubrel_frame 9 ∷ failure ∷ []) connected)
read_from_server-Survives_example =
    read_from_server-Survives (publish_frame plain goal ∷ pubrel_frame 9 ∷ failure ∷ []) connected
      connected-Inv

abbrev written_first : List (WriteEvent plain)
written_first =
    response (VariablePacket.puback 4) none 10
    ∷ outgoing (record { packet = VariablePacket.disconnect; token = some (disconnect 0) }) none 11
    ∷ []

write_to_server_lem_example :
    let failed =
      outgoing
        (record { packet = VariablePacket.pingreq; token = some (publish 3) })
        (some "broken pipe")
        12 in
    let (w', written) =
      write_to_server
        (written_first ++ failed ∷ response (VariablePacket.puback 5) none 13 ∷ [])
        connected in
    (written ≡ VariablePacket.puback 4 ∷ VariablePacket.disconnect ∷ [])
    × (state_of (publish 3) w'.tokens ≡ done)
    × (error_of (publish 3) w'.tokens ≡ some (io_error "broken pipe"))
write_to_server_lem_example =
    write_to_server_lem written_first (response (VariablePacket.puback 5) none 13 ∷ [])
      VariablePacket.pingreq (publish 3) "broken pipe" 12 connected (refl, (refl, tt))
