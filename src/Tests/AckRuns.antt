-- ===== src/Tests/AckRuns.antt =====
-- A run with two operations in flight, one of which is acknowledged.
use mesquitte_client.Base.{
  ℕ, arith, ◌≡◌, ◌≢◌, refl, Option, some, [], ◌∷◌, get, contains_key, insert, false,
}
use mesquitte_client.Codec.{QualityOfService}
use mesquitte_client.Token.{Token, TokenError, ready, pending, poll, flow_complete}
use mesquitte_client.Pkid.{get_id, get_token, packet_ids_new}
use mesquitte_client.Options.{options_new}
use mesquitte_client.Net.{handle_puback, handle_pubcomp}
use mesquitte_client.Samples.{plain, plain_cache}
use mesquitte_client.Client.{
  MqttClient, client_new, connect, subscribe, publish, disconnect, build_connect_packet,
  connection_ends,
}
use mesquitte_client.Client.Subscribing.{undisturbed}
use mesquitte_client.System.{subscribes, publishes, connects, Steps, start, later, idle}
use mesquitte_client.System.Acknowledging.{EndsAlone, acknowledged_alone}
use mesquitte_client.System.Ending.{WaitsOrDone, operation_ends}
use mesquitte_client.System.Unsent.{unsent_operations}
use mesquitte_client.Tests.SystemRuns.{
  new_client, left, welcome, online, asked, connected_first, subscribed_next,
}

-- The client that waits for a SUBACK and for a PUBACK.
abbrev waiting : MqttClient plain plain_cache
waiting = left (publish "a" QualityOfService.level1 false [] undisturbed asked).1

published_last : (publish "a" QualityOfService.level1 false [] undisturbed asked).1 ≡ some waiting
unfolding connect build_connect_packet client_new subscribe publish get_id contains_key
    packet_ids_new insert
published_last = refl

subscribing : Steps new_client asked
subscribing =
    later (later (start new_client) (connects 7 welcome new_client online connected_first)) (
      subscribes "sport/+" QualityOfService.level1 5 undisturbed online asked (λ w. idle w)
        subscribed_next)

then_publishing : Steps asked waiting
then_publishing = later (start asked) (
    publishes "a" QualityOfService.level1 false [] undisturbed asked waiting (λ w. idle w)
      published_last)

asked_waits : get_token asked.world.state.packet_ids 2 ≡ some (Token.subscribe 0)
unfolding connect build_connect_packet client_new subscribe get_token get get_id contains_key
    packet_ids_new insert flow_complete
asked_waits = refl

two_operations : Steps new_client waiting
two_operations = later subscribing (
    publishes "a" QualityOfService.level1 false [] undisturbed asked waiting (λ w. idle w)
      published_last)

publish_waits : get_token waiting.world.state.packet_ids 3 ≡ some (Token.publish 0)
unfolding connect build_connect_packet client_new subscribe publish get_token get get_id
    contains_key packet_ids_new insert flow_complete
publish_waits = refl

subscribe_waits : get_token waiting.world.state.packet_ids 2 ≡ some (Token.subscribe 0)
unfolding connect build_connect_packet client_new subscribe publish get_token get get_id
    contains_key packet_ids_new insert flow_complete
subscribe_waits = refl

abbrev published_id : ℕ
published_id = 3

abbrev subscribed_id : ℕ
subscribed_id = 2

other_id : published_id ≢ subscribed_id
other_id e = absurd (omega (arith, e))

acknowledged_alone_example :
    EndsAlone 3
      (Token.publish 0)
      2
      (Token.subscribe 0)
      waiting.world
      (handle_puback 3 waiting.world)
    × EndsAlone 3
        (Token.publish 0)
        2
        (Token.subscribe 0)
        waiting.world
        (handle_pubcomp 3 waiting.world)
acknowledged_alone_example =
    acknowledged_alone options_new 0 waiting 3 (Token.publish 0) 2 (Token.subscribe 0)
      two_operations publish_waits subscribe_waits other_id

operation_ends_example :
    WaitsOrDone 2 (Token.subscribe 0) waiting.world
    × ((e : Option TokenError) × ((poll 4
            (Token.subscribe 0)
            (connection_ends waiting).world.tokens).1
          ≡ ready e))
operation_ends_example =
    operation_ends options_new 0 4 asked waiting 2 (Token.subscribe 0) subscribing asked_waits
      then_publishing

unsent_operations_example :
    (let (r, client') = publish "a" QualityOfService.level0 false (1 ∷ []) undisturbed waiting in
      (after : MqttClient plain plain_cache) × (client' ≡ some after)
      × ((poll 4 (Token.publish r) (connection_ends after).world.tokens).1 ≡ pending))
    × (let (r, client') = disconnect undisturbed waiting in
        (after : MqttClient plain plain_cache) × (client' ≡ some after)
        × ((poll 4 (Token.disconnect r) (connection_ends after).world.tokens).1 ≡ pending))
unfolding connect build_connect_packet client_new subscribe publish get_id contains_key
    packet_ids_new insert
unsent_operations_example =
    unsent_operations options_new 0 4 "a" "a" false (1 ∷ []) waiting two_operations refl refl
