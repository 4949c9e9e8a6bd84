-- ===== src/Tests/PkidRuns.antt =====
-- Packet identifiers at concrete inputs.
use mesquitte_client.Base.{
  ℕ, ◌≡◌, ◌≢◌, ◌↔◌, ◌⊎◌, refl, some, none, [], ◌∷◌, All, contains_key, get, insert, arith,
  if◌then◌else◌,
}
use mesquitte_client.Samples.{no_tokens}
use mesquitte_client.Token.{Token, publish, state_of, error_of, connection_lost}
use mesquitte_client.Token.Laws.{done}
use mesquitte_client.Pkid.{PacketIds, packet_ids_new, get_id, get_token, clean_up}
use mesquitte_client.Pkid.Issue.{
  Issued, IsFull, get_id-cases, get_id-eq-zero_iff, get_id-IsValid, packet_ids_new-IsValid,
}
use mesquitte_client.Pkid.Runs.{gets, frees, run_ids, returned, run_ids_keep}
use mesquitte_client.Pkid.Cleanup.{holds, clean_up_lem}

-- The identifier 65535 was issued last, and 1 is taken.
abbrev wrapping : PacketIds
wrapping = record { index = (1, publish 0) ∷ []; last_issued_id = 65535 }

-- The search wraps, steps over 0 and finds 2.
wraps : (get_id wrapping (publish 1)).1 ≡ 2
unfolding get_id contains_key
wraps = refl

-- A new client issues 2 first.
first_id : (get_id packet_ids_new (publish 0)).1 ≡ 2
unfolding get_id packet_ids_new contains_key
first_id = refl

get_id-cases_example :
    Issued wrapping (publish 1) (get_id wrapping (publish 1)).0 (get_id wrapping (publish 1)).1
    ⊎ (((get_id wrapping (publish 1)).0 ≡ wrapping)
        × ((get_id wrapping (publish 1)).1 ≡ 0)
        × IsFull wrapping)
get_id-cases_example = get_id-cases wrapping (publish 1) (omega arith)

get_id-eq-zero_iff_example : ((get_id wrapping (publish 1)).1 ≡ 0) ↔ IsFull wrapping
get_id-eq-zero_iff_example = get_id-eq-zero_iff wrapping (publish 1) (omega arith)

abbrev issued_once : PacketIds
issued_once = (get_id packet_ids_new (publish 0)).0

issued_token : get_token issued_once 2 ≡ some (publish 0)
unfolding get_id get_token packet_ids_new contains_key get insert
issued_token = refl

run_ids_keep_example :
    (get_token (run_ids (gets (publish 1) ∷ frees 3 ∷ gets (publish 2) ∷ []) issued_once) 2
      ≡ some (publish 0))
    × All (λ j. j ≢ 2) (returned (gets (publish 1) ∷ frees 3 ∷ gets (publish 2) ∷ []) issued_once)
run_ids_keep_example =
    run_ids_keep 2 (publish 0) (gets (publish 1) ∷ frees 3 ∷ gets (publish 2) ∷ []) issued_once
      (get_id-IsValid packet_ids_new (publish 0) packet_ids_new-IsValid) issued_token
      (tt, ((λ e. absurd (omega arith)), (tt, tt)))

clean_up_lem_example :
    let (ids', ts') = clean_up (wrapping, no_tokens) in
    ((id : ℕ) → get_token ids' id ≡ none)
    × (ids'.last_issued_id ≡ 65535)
    × ((t : Token)
        → state_of t ts' ≡ (if holds t wrapping.index then done else state_of t no_tokens))
    × ((t : Token)
        → error_of t ts'
          ≡ (if holds t wrapping.index then some connection_lost else error_of t no_tokens))
clean_up_lem_example = clean_up_lem wrapping no_tokens
