-- ===== src/Tests/SystemRuns.antt =====
-- Runs of the whole: a client that connects and subscribes, `block`, the keep-alive and the dialling.
use mathlib.Core.List.{Memᴰ}
use mesquitte_client.Base.{
  ℕ, zero, suc, ◌≡◌, ◌≢◌, ◌↔◌, refl, Bool, true, false, Option, none, some, List, [], ◌∷◌, String,
  arith, ◌+◌, ◌++◌, get, contains_key, insert, insert_sorted,
}
use mesquitte_client.Pkid.{get_id, get_token, packet_ids_new}
use mesquitte_client.Codec.{QualityOfService}
use mesquitte_client.Subscription.{Subscription}
use mesquitte_client.Token.{
  TokenError, connect_timeout, network_unreachable, flow_complete, add_subscriptions,
}
use mesquitte_client.Topics.{match_topic, tokenize_topic}
use mesquitte_client.Trie.Matching.{Matches}
use mesquitte_client.Packets.{VariablePacket}
use mesquitte_client.State.{World}
use mesquitte_client.Options.{options_new, set_auto_reconnect, set_max_connect_retry_times}
use mesquitte_client.Transport.{Attempt, opened, failed, timed_out, Result, tcp_connect}
use mesquitte_client.Transport.Dialling.{Dialled, tcp_connect-Dialled}
use mesquitte_client.Net.{Tick, sleep, sleep_until, keep_alive, proceed, dispatch, handle_suback}
use mesquitte_client.Net.Pings.{
  pinged, quiet_tick, quiet_ticks, no_pauses, pings, keep_alive_lem, keep_alive_zero,
}
use mesquitte_client.Samples.{plain, plain_cache, connected}
use mesquitte_client.Client.{
  MqttClient, Round, notified, client_new, publish, subscribe, subscribe_multiple, unsubscribe,
  disconnect, connect, Dial, frame, Await, ready, renew_session, returned, block,
  build_connect_packet,
}
use mesquitte_client.Client.Subscribing.{undisturbed}
use mesquitte_client.Client.Renewed.{answered}
use mesquitte_client.Client.Restored.{entries}
use mesquitte_client.Client.Attempts.{IsDown}
use mesquitte_client.Client.Retrying.{refusals, block_gives_up}
use mesquitte_client.System.{
  empty_heap, tasks, subscribes, connects, handles, Steps, start, later, idle,
}
use mesquitte_client.System.Operations.{IsFit}
use mesquitte_client.System.Reconnecting.{Leaves}
use mesquitte_client.System.Reachable.{steps_new-IsFit, operations_never_panic, renewal_restores}

abbrev pub new_client : MqttClient plain plain_cache
new_client = client_new options_new 0 (empty_heap plain)

-- The client after an operation that does not panic
abbrev pub left : Option (MqttClient plain plain_cache) → MqttClient plain plain_cache
left none = new_client
left (some client) = client

-- The client after a `connect` that ends
abbrev pub back : Await (MqttClient plain plain_cache) → MqttClient plain plain_cache
back (ready client) = client
back _ = new_client

abbrev pub welcome : Dial plain
welcome = Dial.opened (frame (VariablePacket.connack 0 false))

abbrev pub online : MqttClient plain plain_cache
online = back (connect 7 welcome new_client).1

abbrev pub asked : MqttClient plain plain_cache
asked = left (subscribe "sport/+" QualityOfService.level1 5 undisturbed online).1

-- The client that connected, subscribed, and was granted the subscription.
abbrev granted_client : MqttClient plain plain_cache
granted_client = record asked { world = handle_suback 2 (1 ∷ []) asked.world }

pub connected_first : (connect 7 welcome new_client).1 ≡ ready online
unfolding connect build_connect_packet client_new
connected_first = refl

pub subscribed_next :
    (subscribe "sport/+" QualityOfService.level1 5 undisturbed online).1 ≡ some asked
unfolding connect build_connect_packet client_new subscribe get_id contains_key packet_ids_new
subscribed_next = refl

history : Steps new_client granted_client
unfolding dispatch
history =
    later
      (later (later (start new_client) (connects 7 welcome new_client online connected_first)) (
        subscribes "sport/+" QualityOfService.level1 5 undisturbed online asked (λ w. idle w)
          subscribed_next))
      (tasks asked granted_client.world
        (handles (VariablePacket.suback 2 (1 ∷ [])) asked.world granted_client.world proceed refl))

table_kept :
    entries granted_client.world.state.subscriptions
    ≡ record { topic = "sport/+"; qos = QualityOfService.level1; handler = 5 } ∷ []
unfolding connect build_connect_packet client_new subscribe handle_suback get_token get get_id
    contains_key packet_ids_new insert flow_complete add_subscriptions insert_sorted
table_kept = refl

steps_new-IsFit_example : IsFit options_new granted_client
steps_new-IsFit_example = steps_new-IsFit options_new 0 granted_client history

operations_never_panic_example :
    ((topic : String) (qos : QualityOfService) (retained : Bool) (payload : List ℕ)
      → (publish topic qos retained payload undisturbed granted_client).1 ≢ none)
    × ((topic : String) (qos : QualityOfService) (callback : ℕ)
        → (subscribe topic qos callback undisturbed granted_client).1 ≢ none)
    × ((topics : List (String × QualityOfService)) (callback : ℕ)
        → (subscribe_multiple topics callback undisturbed granted_client).1 ≢ none)
    × ((topics : List String) → (unsubscribe topics undisturbed granted_client).1 ≢ none)
    × ((disconnect undisturbed granted_client).1 ≢ none)
    × ((at : ℕ) (dial : Dial plain) → Leaves options_new dial (connect at dial granted_client).1)
operations_never_panic_example =
    operations_never_panic options_new 0 granted_client undisturbed history (λ w. idle w)

renewal_restores_example :
    (client' : MqttClient plain plain_cache) × (renew_session false
        (λ topic. answered 1)
        granted_client
      ≡ ready client')
    × ((s : Subscription) (topic : String)
        → Memᴰ s (match_topic topic client'.world.state.topic_manager) ↔ (
            Memᴰ s (entries granted_client.world.state.subscriptions)
            × Matches (tokenize_topic s.topic) (tokenize_topic topic)))
    × ((s : Subscription) (topic : String)
        → Memᴰ s (match_topic topic granted_client.world.state.topic_manager)
        → (t : Subscription) × (t.topic ≡ s.topic)
          × Memᴰ t (match_topic topic client'.world.state.topic_manager))
unfolding connect build_connect_packet client_new subscribe get_id contains_key packet_ids_new
renewal_restores_example = renewal_restores options_new 0 granted_client 1 history refl refl

-- The client is to try three times, and each attempt is refused.
abbrev down : MqttClient plain plain_cache
down = record new_client {
  options = set_auto_reconnect true (set_max_connect_retry_times (some 3) options_new);
}

down-IsDown : IsDown 3 down
unfolding client_new
down-IsDown = record { status = refl; wanted = refl; auto = refl; limit = refl }

abbrev three_errors : List (ℕ × TokenError)
three_errors = (1, connect_timeout) ∷ (6, network_unreachable) ∷ (12, connect_timeout) ∷ []

block_gives_up_example :
    (client' : MqttClient plain plain_cache) × (block
        (refusals (λ topic. answered 1) three_errors ++ [])
        (record { client = down; cnt = 0; permit = false })
      ≡ returned client')
    × IsDown 3 client'
    × (client'.world.tokens.connects.next ≡ down.world.tokens.connects.next + 3)
block_gives_up_example =
    block_gives_up (λ topic. answered 1) three_errors [] down (omega arith) down-IsDown

abbrev early : Tick plain plain_cache
early = quiet_tick 10 11

abbrev late : Tick plain plain_cache
late = quiet_tick 31 31

keep_alive_lem_example :
    keep_alive 30 (early ∷ late ∷ []) connected
    ≡ some (pinged [] connected, sleep_until 31 ∷ sleep 30 ∷ [])
keep_alive_lem_example =
    keep_alive_lem 30 early late connected [] refl refl refl (omega arith) (omega arith)
      (omega arith) refl refl (omega arith)

keep_alive_zero_example :
    (w' : World plain plain_cache) × (keep_alive 0 (quiet_ticks (5 ∷ 5 ∷ 6 ∷ [])) connected
      ≡ some (w', no_pauses (5 ∷ 5 ∷ 6 ∷ [])))
    × (w'.state.outgoing_tx ≡ some ([] ++ pings plain (5 ∷ 5 ∷ 6 ∷ [])))
keep_alive_zero_example = keep_alive_zero (5 ∷ 5 ∷ 6 ∷ []) connected [] refl (omega arith)

-- The second of three addresses answers.
abbrev dial_second : ℕ → Attempt String
dial_second zero = timed_out
dial_second (suc zero) = opened "stream"
dial_second _ = failed "refused"

tcp_connect-Dialled_example :
    (r : Result String × List ℕ) × (tcp_connect dial_second (some (0 ∷ 1 ∷ 2 ∷ [])) ≡ some r)
    × Dialled dial_second network_unreachable (0 ∷ 1 ∷ 2 ∷ []) r
tcp_connect-Dialled_example = tcp_connect-Dialled dial_second (0 ∷ 1 ∷ 2 ∷ [])

-- An attempt to connect again, after which the subscription is renewed.
abbrev again : Round plain plain_cache
again = record {
  others = λ client. client;
  turn = notified (record {
    now = 9;
    dial = welcome;
    renewals = λ topic. record { wait = undisturbed; until = λ client. client };
  });
}

pub built : build_connect_packet plain options_new ≢ none
unfolding build_connect_packet
built e = cc e
