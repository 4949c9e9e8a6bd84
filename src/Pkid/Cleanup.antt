-- ===== src/Pkid/Cleanup.antt =====
-- The operations that end tokens: `clean_up` when the connection is lost, and `claim_id`.
use mesquitte_client.Base.{
  ℕ, ◌≤◌, ◌≡◌, ◌⊎◌, inl, inr, refl, Bool, true, false, Option, none, some, List, [], ◌∷◌, get,
  get-insert, insert, remove, nat_key, arith, nat_beq, if◌then◌else◌, ◌||◌,
}
use mesquitte_client.Codec.{Codec}
use mesquitte_client.Token.{
  Token, Tokens, token_beq, token_beq_iff, state_of, error_of, connection_lost, set_error,
  flow_complete,
}
use mesquitte_client.Token.Laws.{done, state_of-set_error, error_of-set_error}
use mesquitte_client.Pkid.{PacketIds, get_token, get_id, issue, probe, claim_id, clean_up, fail_all}

-- Whether some identifier is registered with the token.
abbrev pub holds : Token → List (ℕ × Token) → Bool
holds t [] = false
holds t ((_, u) ∷ m) = token_beq u t || holds t m

pub holds-get : (id : ℕ) (t : Token) (m : List (ℕ × Token)) → get id m ≡ some t → holds t m ≡ true
unfolding get
holds-get id t [] h = cc
holds-get id t ((j, u) ∷ m) h = ground (arith, holds-get id t m, token_beq_iff u t)

-- Inserting adds the token to those that are registered, at most, and removing adds none.
pub holds-insert :
    (id : ℕ) (t u : Token) (m : List (ℕ × Token))
    → holds u (insert id t m) ≡ true
    → (t ≡ u) ⊎ (holds u m ≡ true)
unfolding insert
holds-insert id t u [] h = inl (ground (arith, h, token_beq_iff t u))
holds-insert id t u ((j, v) ∷ m) h = ground (arith, h, token_beq_iff t u, holds-insert id t u m)

pub holds-remove :
    (id : ℕ) (u : Token) (m : List (ℕ × Token)) → holds u (remove id m) ≡ true → holds u m ≡ true
unfolding remove
holds-remove id u [] h = h
holds-remove id u ((j, v) ∷ m) h = ground (arith, h, holds-remove id u m)

holds-issue :
    (ids : PacketIds) (t u : Token) (r : Option (Option ℕ))
    → holds u (issue ids t r).0.index ≡ true
    → (t ≡ u) ⊎ (holds u ids.index ≡ true)
holds-issue ids t u none h = inr h
holds-issue ids t u (some none) h = inr h
holds-issue ids t u (some (some id)) h = holds-insert id t u ids.index h

pub holds-get_id :
    (ids : PacketIds) (t u : Token)
    → holds u (get_id ids t).0.index ≡ true
    → (t ≡ u) ⊎ (holds u ids.index ≡ true)
unfolding get_id
holds-get_id ids t u h =
    holds-issue ids t u (probe 65536 ids.index ids.last_issued_id ids.last_issued_id false) h

module _ {k : Codec} (t : Token) where
  state_of-fail_all :
      (m : List (ℕ × Token)) (ts : Tokens k)
      → state_of t (fail_all m ts) ≡ (if holds t m then done else state_of t ts)
  unfolding fail_all
  state_of-fail_all [] ts = refl
  state_of-fail_all ((_, u) ∷ m) ts = ground (
    arith,
    state_of-fail_all m (set_error u connection_lost ts),
    state_of-set_error ts u t connection_lost,
  )

  error_of-fail_all :
      (m : List (ℕ × Token)) (ts : Tokens k)
      → error_of t (fail_all m ts) ≡ (if holds t m then some connection_lost else error_of t ts)
  unfolding fail_all
  error_of-fail_all [] ts = refl
  error_of-fail_all ((_, u) ∷ m) ts = ground (
    arith,
    error_of-fail_all m (set_error u connection_lost ts),
    error_of-set_error ts u t connection_lost,
  )

-- `clean_up` ends every operation that holds an identifier with `ConnectionLost`, leaves every other
-- token as it was, and releases all the identifiers without resetting where the search goes on.
pub clean_up_lem :
    {k : Codec} (ids : PacketIds) (ts : Tokens k)
    → let (ids', ts') = clean_up (ids, ts) in
      ((id : ℕ) → get_token ids' id ≡ none)
      × (ids'.last_issued_id ≡ ids.last_issued_id)
      × ((t : Token) → state_of t ts' ≡ (if holds t ids.index then done else state_of t ts))
      × ((t : Token)
          → error_of t ts' ≡ (if holds t ids.index then some connection_lost else error_of t ts))
unfolding clean_up get_token get
clean_up_lem ids ts =
    (λ id. refl, refl, λ t. state_of-fail_all t ids.index ts, λ t. error_of-fail_all t ids.index ts)

-- In particular nobody waits for an operation that was in flight.
pub clean_up_ends :
    {k : Codec} (ids : PacketIds) (ts : Tokens k) (id : ℕ) (t : Token)
    → get_token ids id ≡ some t
    → (state_of t (clean_up (ids, ts)).1 ≡ done)
      × (error_of t (clean_up (ids, ts)).1 ≡ some connection_lost)
unfolding get_token
clean_up_ends ids ts id t h =
    let (_, _, states, errors) = clean_up_lem ids ts in
    let held = holds-get id t ids.index h in
    (ground (arith, states t, held), ground (arith, errors t, held))

-- `claim_id` registers the token under the identifier, whoever had it: that token is completed
-- with the error it had, no other token changes, and the search goes on at the larger identifier.
pub claim_id_lem :
    {k : Codec} (ids : PacketIds) (ts : Tokens k) (token : Token) (id : ℕ)
    → let (ids', ts') = claim_id token id (ids, ts) in
      ((j : ℕ) → get_token ids' j ≡ (if nat_beq id j then some token else get_token ids j))
      × ((old : Token) → get_token ids id ≡ some old → ts' ≡ flow_complete old ts)
      × (get_token ids id ≡ none → ts' ≡ ts)
      × (ids.last_issued_id ≤ ids'.last_issued_id)
      × (id ≤ ids'.last_issued_id)
unfolding claim_id get_token
claim_id_lem ids ts token id = (
  λ j. get-insert id j token ids.index,
  λ old h. rw (claim_id, h),
  λ h. rw (claim_id, h),
  ground arith,
  ground arith,
)
