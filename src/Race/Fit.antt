-- ===== src/Race/Fit.antt =====
-- What every step keeps, those of `connect` and of the connections' tasks included.
use mesquitte_client.Base.{ℕ, ◌≡◌, refl, subst, ◌∙◌, inl, inr, Bool, [], Bool-cases}
use mesquitte_client.Codec.{Codec}
use mesquitte_client.Token.{
  Token, TokenError, connect_failed, packet_error, flow_complete, new_connect,
}
use mesquitte_client.Pkid.{clean_up}
use mesquitte_client.Packets.{VariablePacket}
use mesquitte_client.State.{Cache}
use mesquitte_client.Options.{ClientOptions}
use mesquitte_client.Net.Sound.{same-Sound, own-flow_complete}
use mesquitte_client.Client.{
  MqttClient, FirstFrame, ended, broken, frame, mark_session, fail_connect, renew, Wait,
}
use mesquitte_client.System.{Waits}
use mesquitte_client.System.Keeping.{IsOpen, task-Keeps, clean-Goes}
use mesquitte_client.System.Operations.{IsFit}
use mesquitte_client.System.Reconnecting.{
  own-mark_session, retokened, offline-IsFit, fail_connect-IsFit, refuse_connect-IsFit, Leaves,
  connect-Leaves,
}
use mesquitte_client.System.Reachable.{
  client_new-IsFit, step-IsFit, NeverPanics, operations-Continues,
}
use mesquitte_client.Race.{
  spawned, Link, Racing, race_new, rest, begin, spawn, receive, conclude, lose, clean, Move, works,
  calls, repeats, begins, is_refused, greets, receives, finishes, ends, loses, cleans, Moves, stays,
  goes_on,
}

module _ {k : Codec} {c : Cache k.PublishPacket} (options : ClientOptions) where
  -- The client is fit, and has a channel from the new shared state on.
  pub record IsFitRace (race : Racing k c) : Type 0 where
    pub fit : IsFit options race.client
    pub ready :
        (r : ℕ) (session_present : Bool)
        → race.phase ≡ spawned r session_present
        → IsOpen race.client.world

  rest-IsFitRace :
      (client : MqttClient k c) (race : Racing k c)
      → IsFit options client
      → IsFitRace (rest client race)
  rest-IsFitRace client race v = record { fit = v; ready = λ r session_present e. absurd (cc e) }

  -- The client changes, and `connect` is where it was.
  same-IsFitRace :
      (race : Racing k c) (client : MqttClient k c) (link : Link)
      → IsFit options client
      → (IsOpen race.client.world → IsOpen client.world)
      → IsFitRace race
      → IsFitRace (record race { client = client; link = link })
  same-IsFitRace race client link v opens v' = record {
    fit = v;
    ready = λ r session_present e. opens (v'.ready r session_present e);
  }

  spawn-IsFitRace :
      (now r : ℕ) (session_present : Bool) (race : Racing k c)
      → IsFitRace race
      → IsFitRace (spawn now r session_present race)
  unfolding spawn renew
  spawn-IsFitRace now r session_present race v = record {
    fit = record {
      same = v.fit.same;
      sound =
          same-Sound race.client.world _ refl (λ f x h. h) (λ s. refl) v.fit.sound v.fit.sound.ids;
      open_channel = λ h. ([], refl);
    };
    ready = λ r' s' e. ([], refl);
  }

  fail-IsFitRace :
      (e : TokenError) (r : ℕ) (race : Racing k c)
      → IsFitRace race
      → IsFitRace (rest (fail_connect e r race.client) race)
  fail-IsFitRace e r race v =
      rest-IsFitRace _ race (fail_connect-IsFit options e r race.client v.fit.same v.fit.sound)

  receive-IsFitRace :
      (now r : ℕ) (first : FirstFrame k) (race : Racing k c)
      → IsFitRace race
      → IsFitRace (receive now r first race)
  receive-IsFitRace now r ended race v = fail-IsFitRace (connect_failed 0) r race v
  receive-IsFitRace now r (broken e) race v = fail-IsFitRace (packet_error e) r race v
  receive-IsFitRace now r (frame (VariablePacket.connack code session_present)) race v =
      elim (Bool-cases (k.is_accepted code)) [
        | inl accepted ↦ rw accepted (spawn-IsFitRace now r session_present race v)
        | inr unwanted ↦ rw unwanted (
            rest-IsFitRace _ race
              (refuse_connect-IsFit options code r race.client v.fit.same v.fit.sound))
      ]
  receive-IsFitRace now r (frame _) race v =
      fail-IsFitRace (packet_error "Not Connack Packet") r race v

  conclude-IsFitRace :
      (r : ℕ) (session_present : Bool) (race : Racing k c)
      → race.phase ≡ spawned r session_present
      → IsFitRace race
      → IsFitRace (conclude r session_present race)
  unfolding conclude
  conclude-IsFitRace r session_present race at v =
      let marked = mark_session session_present r race.client.world.tokens in
      rest-IsFitRace _ race (record {
        same = v.fit.same;
        sound =
            retokened race.client.world (flow_complete (Token.connect r) marked)
              (λ s.
                own-flow_complete (Token.connect r) marked s
                ∙ own-mark_session session_present r race.client.world.tokens s)
              v.fit.sound;
        open_channel = λ h. v.ready r session_present at;
      })

  pub Move-IsFitRace :
      {race race' : Racing k c} → Move race race' → IsFitRace race → IsFitRace race'
  unfolding begin lose clean clean_up
  Move-IsFitRace (works race w' s) v =
      let a = task-Keeps s v.fit.sound in
      same-IsFitRace race (record (race.client) { world = w' }) race.link
        (record {
          same = v.fit.same;
          sound = a.sound;
          open_channel = λ e. a.open_channel (v.fit.open_channel e);
        })
        a.open_channel v
  Move-IsFitRace (calls race client' at s h) v = record {
    fit = step-IsFit options s v.fit;
    ready = λ r b e. absurd (cc (e, at));
  }
  Move-IsFitRace (repeats now dial race client' at busy h) v = record {
    fit = subst (Leaves options dial) h (connect-Leaves options now dial race.client v.fit);
    ready = λ r b e. absurd (cc (e, at));
  }
  Move-IsFitRace (begins race at idle down) v = record {
    fit = offline-IsFit options _ refl v.fit.same (
        retokened race.client.world (new_connect race.client.world.tokens).1 (λ s. refl)
          v.fit.sound);
    ready = λ r b e. absurd (cc e);
  }
  Move-IsFitRace (is_refused e r race at) v = fail-IsFitRace e r race v
  Move-IsFitRace (greets packet r race at built) v = record {
    fit = v.fit;
    ready = λ r' b e. absurd (cc e);
  }
  Move-IsFitRace (receives now r first race at) v = receive-IsFitRace now r first race v
  Move-IsFitRace (finishes r session_present race at idle) v =
      conclude-IsFitRace r session_present race at v
  Move-IsFitRace (ends race at) v = same-IsFitRace race race.client Link.over v.fit (λ h. h) v
  Move-IsFitRace (loses race at) v =
      same-IsFitRace race _ Link.down (offline-IsFit options _ refl v.fit.same v.fit.sound) (λ h. h)
        v
  Move-IsFitRace (cleans race at) v =
      let g = clean-Goes race.client.world v.fit.sound in
      same-IsFitRace race _ Link.closed
        (record { same = v.fit.same; sound = g.sound; open_channel = v.fit.open_channel }) (λ h. h)
        v

  pub Moves-IsFitRace :
      {race race' : Racing k c} → Moves race race' → IsFitRace race → IsFitRace race'
  Moves-IsFitRace (stays race) v = v
  Moves-IsFitRace (goes_on ms m) v = Move-IsFitRace m (Moves-IsFitRace ms v)

-- In a build without overflow checks: whatever a new client went through, in whatever order the steps of
-- `connect`, of the connections' tasks and of the caller came, where each operation of the caller is one
-- step up to its wait on the channel, its identifiers and the last one issued are those of the protocol, its
-- table, its trie, the subscriptions of its tokens and its options are as they should be, it has a channel
-- if it counts as connected, and none of the caller's operations panics on it, but `connect` where the
-- transport does or the greeting cannot be built.
pub moves_never_panic :
    {k : Codec} {c : Cache k.PublishPacket} (options : ClientOptions) (now : ℕ) (race : Racing k c)
    (wait : Wait k c)
    → Moves (race_new options now) race
    → Waits wait
    → IsFit options race.client × NeverPanics options wait race.client
moves_never_panic options now race wait ms waits =
    let new : IsFitRace options (race_new options now) = record {
      fit = client_new-IsFit options now;
      ready = λ r b e. absurd (cc e);
    } in
    let v = (Moves-IsFitRace options ms new).fit in
    (v, operations-Continues options race.client wait v waits)
