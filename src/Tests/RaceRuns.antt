-- ===== src/Tests/RaceRuns.antt =====
-- Runs of `connect` among the steps of its connection's task.
use mesquitte_client.Base.{◌≡◌, ◌≢◌, refl, false, some}
use mesquitte_client.Packets.{VariablePacket, ConnectPacket}
use mesquitte_client.Options.{options_new}
use mesquitte_client.Samples.{plain, plain_cache}
use mesquitte_client.Client.{client_new, build_connect_packet, FirstFrame, frame}
use mesquitte_client.Client.Subscribing.{undisturbed}
use mesquitte_client.System.{idle}
use mesquitte_client.System.Operations.{IsFit}
use mesquitte_client.System.Reachable.{NeverPanics}
use mesquitte_client.Race.{
  greeting, Link, up, over, down, closed, Racing, race_new, begin, spawn, conclude, lose, clean,
  begins, greets, receives, finishes, ends, loses, cleans, Moves, stays, goes_on,
}
use mesquitte_client.Race.Fit.{moves_never_panic}
use mesquitte_client.Race.Stale.{IsStale, never_dials_again}

abbrev fresh_race : Racing plain plain_cache
fresh_race = race_new options_new 0

abbrev begun : Racing plain plain_cache
begun = begin fresh_race

abbrev greeted_race : Racing plain plain_cache
greeted_race = record begun { phase = greeting 0 }

abbrev accepted : FirstFrame plain
accepted = frame (VariablePacket.connack 0 false)

abbrev spawned_race : Racing plain plain_cache
spawned_race = spawn 7 0 false greeted_race

abbrev done_race : Racing plain plain_cache
done_race = conclude 0 false spawned_race

-- Connected, and then lost.
abbrev lost_race : Racing plain plain_cache
lost_race = clean (lose done_race)

packet_built : (p : ConnectPacket plain) × (build_connect_packet plain options_new ≡ some p)
unfolding build_connect_packet
packet_built = (_, refl)

closed-ne-down : closed ≢ down
closed-ne-down e = cc e

up-ne-down : up ≢ down
up-ne-down e = cc e

abbrev connects_and_is_lost : Moves fresh_race lost_race
unfolding begin spawn conclude lose clean client_new
connects_and_is_lost =
    goes_on
      (goes_on
        (goes_on
          (goes_on
            (goes_on
              (goes_on (goes_on (stays fresh_race) (begins fresh_race refl closed-ne-down refl))
                (greets packet_built.0 0 begun refl packet_built.1))
              (receives 7 0 accepted greeted_race refl))
            (finishes 0 false spawned_race refl up-ne-down))
          (ends done_race refl))
        (loses (record done_race { link = Link.over }) refl))
      (cleans (lose done_race) refl)

moves_never_panic_example :
    IsFit options_new lost_race.client × NeverPanics options_new undisturbed lost_race.client
moves_never_panic_example =
    moves_never_panic options_new 0 lost_race undisturbed connects_and_is_lost (λ w. idle w)

never_dials_again_example :
    Moves spawned_race (conclude 0 false (clean (lose spawned_race)))
    × ((race' : Racing plain plain_cache)
        → Moves (conclude 0 false (clean (lose spawned_race))) race'
        → IsStale race')
unfolding spawn
never_dials_again_example = never_dials_again spawned_race 0 false refl refl
