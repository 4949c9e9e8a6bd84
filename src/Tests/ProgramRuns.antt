-- ===== src/Tests/ProgramRuns.antt =====
-- A program that connects, subscribes and publishes, and loses its connection in between.
use mesquitte_client.Base.{◌≡◌, false, List, [], ◌∷◌}
use mesquitte_client.Codec.{QualityOfService}
use mesquitte_client.Options.{options_new}
use mesquitte_client.Client.{ready, MqttClient, ConnectStatus}
use mesquitte_client.Client.Subscribing.{undisturbed}
use mesquitte_client.System.{Steps, drops, start, later, idle}
use mesquitte_client.Interface.{Call, run_calls}
use mesquitte_client.Interface.Calls.{Surroundings, mqtt_client, before_call, IsPlaced, calls_end}
use mesquitte_client.Samples.{plain, plain_cache}
use mesquitte_client.Tests.SystemRuns.{new_client, welcome, built}

abbrev calm : Surroundings plain plain_cache
calm = record { before = λ client. client; wait = undisturbed; now = 7; dial = welcome }

abbrev after_loss : Surroundings plain plain_cache
after_loss = record {
  before = λ client. record client { connect_status = ConnectStatus.disconnected };
  wait = undisturbed;
  now = 9;
  dial = welcome;
}

abbrev program : List (Call × Surroundings plain plain_cache)
program =
    (Call.connects, calm)
    ∷ (Call.subscribes "sport/+" QualityOfService.level1 5, calm)
    ∷ (Call.connects, after_loss)
    ∷ (Call.publishes "sport/tennis" QualityOfService.level1 false (1 ∷ []), calm)
    ∷ []

alone : IsPlaced (Call.connects, calm)
alone = (λ w. idle w, λ client. start client, tt)

loses : IsPlaced (Call.connects, after_loss)
loses = (λ w. idle w, λ client. later (start client) (drops client), tt)

calls_end_example :
    (client' : MqttClient plain plain_cache) × (run_calls mqtt_client before_call program new_client
      ≡ ready client')
    × Steps new_client client'
calls_end_example = calls_end options_new 0 program built (alone, (alone, (loses, (alone, tt))))
