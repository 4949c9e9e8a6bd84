-- ===== src/Race/Stale.antt =====
-- A connection that ends before `connect` has set the status.
use mesquitte_client.Base.{ℕ, ◌≡◌, ◌≢◌, refl, ◌∙◌, Bool}
use mesquitte_client.Codec.{Codec}
use mesquitte_client.State.{Cache}
use mesquitte_client.Client.{connected}
use mesquitte_client.Race.{
  resting, spawned, up, over, Racing, conclude, lose, clean, Move, works, calls, repeats, begins,
  is_refused, greets, receives, finishes, ends, loses, cleans, Moves, stays, goes_on,
}
use mesquitte_client.Race.Status.{call-status, repeat-status}

module _ {k : Codec} {c : Cache k.PublishPacket} where
  -- The client counts as connected while no loop runs.
  pub record IsStale (race : Racing k c) : Type 0 where
    pub at_rest : race.phase ≡ resting
    pub status : race.client.connect_status ≡ connected
    pub gone : race.link ≢ up
    pub settled : race.link ≢ over

  Move-IsStale : {race race' : Racing k c} → Move race race' → IsStale race → IsStale race'
  unfolding lose clean
  Move-IsStale (works race w' s) v = record {
    at_rest = v.at_rest;
    status = v.status;
    gone = v.gone;
    settled = v.settled;
  }
  Move-IsStale (calls race client' at s h) v = record {
    at_rest = v.at_rest;
    status = call-status s h ∙ v.status;
    gone = v.gone;
    settled = v.settled;
  }
  Move-IsStale (repeats now dial race client' at busy h) v = record {
    at_rest = v.at_rest;
    status = repeat-status now dial race.client client' busy h ∙ v.status;
    gone = v.gone;
    settled = v.settled;
  }
  Move-IsStale (begins race at free is) v = absurd (cc (is, v.status))
  Move-IsStale (is_refused e r race at) v = absurd (cc (at, v.at_rest))
  Move-IsStale (greets packet r race at built) v = absurd (cc (at, v.at_rest))
  Move-IsStale (receives now r first race at) v = absurd (cc (at, v.at_rest))
  Move-IsStale (finishes r session_present race at free) v = absurd (cc (at, v.at_rest))
  Move-IsStale (ends race is) v = absurd (v.gone is)
  Move-IsStale (loses race is) v = absurd (v.settled is)
  Move-IsStale (cleans race is) v = record {
    at_rest = v.at_rest;
    status = v.status;
    gone = λ e. cc e;
    settled = λ e. cc e;
  }

  Moves-IsStale : {race race' : Racing k c} → Moves race race' → IsStale race → IsStale race'
  Moves-IsStale (stays race) v = v
  Moves-IsStale (goes_on ms m) v = Move-IsStale m (Moves-IsStale ms v)

-- A connection may end when its task is spawned and the status is not yet set. When the task has cleaned
-- up, `connect` goes on to count the client as connected, and whatever happens from there on, it counts as
-- connected for ever, no loop runs, and no call of `connect` gets as far as to dial.
pub never_dials_again :
    {k : Codec} {c : Cache k.PublishPacket} (race : Racing k c) (r : ℕ) (session_present : Bool)
    → race.phase ≡ spawned r session_present
    → race.link ≡ up
    → let after = conclude r session_present (clean (lose race)) in
      Moves race after × ((race' : Racing k c) → Moves after race' → IsStale race')
unfolding lose clean conclude
never_dials_again race r session_present at is =
    let lost =
      goes_on (goes_on (stays race) (ends race is)) (loses (record race { link = over }) refl) in
    (
      goes_on (goes_on lost (cleans (lose race) refl))
          (finishes r session_present (clean (lose race)) at (λ e. cc e)),
      λ race' ms.
          Moves-IsStale ms
            (record { at_rest = refl; status = refl; gone = λ e. cc e; settled = λ e. cc e }),
    )
