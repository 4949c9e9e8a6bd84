-- ===== src/Tests/TokenRuns.antt =====
-- Runs of the tokens at concrete inputs.
use mesquitte_client.Base.{◌≡◌, refl, none, some, List, [], ◌∷◌}
use mesquitte_client.Samples.{no_tokens}
use mesquitte_client.Token.{ready, wake, connection_lost}
use mesquitte_client.Token.{publish, poll, set_error, flow_complete, state_of, error_of}
use mesquitte_client.Token.Runs.{TokenOp, polls, completes, run_ops, poll-run_ops, woken-run_ops}

abbrev history : List TokenOp
history = polls 7 (publish 0) ∷ completes (publish 1) ∷ polls 8 (publish 0) ∷ []

poll-run_ops_example : (poll 9 (publish 1) (run_ops history no_tokens)).1 ≡ ready none
unfolding state_of error_of
poll-run_ops_example = poll-run_ops 9 (publish 1) history no_tokens

woken-run_ops_example :
    let now = run_ops history no_tokens in
    ((set_error (publish 0) connection_lost now).woken ≡ wake (some 8) now.woken)
    × ((flow_complete (publish 0) now).woken ≡ wake (some 8) now.woken)
    × ((flow_complete (publish 0) (set_error (publish 0) connection_lost now)).woken
        ≡ wake (some 8) now.woken)
unfolding state_of
woken-run_ops_example = woken-run_ops (publish 0) connection_lost history no_tokens refl refl

-- The waker that is left is that of the last poll.
woken_once : (flow_complete (publish 0) (run_ops history no_tokens)).woken ≡ 8 ∷ []
unfolding run_ops poll flow_complete
woken_once = refl
