-- ===== src/Pkid.antt =====
-- src/pkid.rs: the packet identifiers in use, each with the token of its operation. The `HashMap` is
-- an association list, and the tokens it holds are references into the heap.
pub mod Probe
pub mod Issue
pub mod Runs
pub mod Cleanup
use mesquitte_client.Base.{
  ℕ, zero, suc, ◌+◌, ◌%◌, Bool, true, false, ◌&&◌, ◌||◌, Option, none, some, List, [], ◌∷◌, get,
  contains_key, insert, remove, nat_beq, nat_key, ltb, if◌then◌else◌, not,
}
use mesquitte_client.Codec.{Codec}
use mesquitte_client.Token.{Token, Tokens, set_error, flow_complete, connection_lost}

abbrev pub pkid_max : ℕ
pkid_max = 65535

abbrev pub pkid_min : ℕ
pkid_min = 1

pub record PacketIds : Type 0 where
  pub index : List (ℕ × Token)
  pub last_issued_id : ℕ

unfoldable pub packet_ids_new : PacketIds
packet_ids_new = record { index = []; last_issued_id = pkid_min }

-- `*get_mut(&id)`, completed: an identifier that is claimed again ends its old token.
unfoldable pub claim_id : {k : Codec} → Token → ℕ → PacketIds × Tokens k → PacketIds × Tokens k
claim_id token id (ids, ts) =
    let last = if ltb ids.last_issued_id id then id else ids.last_issued_id in
    (
      record { index = insert id token ids.index; last_issued_id = last },
      elim (get id ids.index) [ none ↦ ts | some old ↦ flow_complete old ts ],
    )

-- `i += 1` on u16, where the sum wraps.
abbrev pub increment : ℕ → ℕ
increment i = (i + 1) % 65536

-- The identifier that a round of the loop tries: 0 is stepped over.
abbrev pub candidate : ℕ → ℕ
candidate i = if nat_beq (increment i) 0 then increment (increment i) else increment i

-- The loop of `get_id`. `some (some i)`: `i` is vacant; `some none`: every identifier was tried;
-- `none`: the fuel ran out.
unfoldable pub probe : ℕ → List (ℕ × Token) → ℕ → ℕ → Bool → Option (Option ℕ)
probe zero index last i looped = none
probe (suc fuel) index last i looped =
    let tried = candidate i in
    let wrapped = nat_beq (increment i) 0 || looped in
    let rest = probe fuel index last tried wrapped in
    if not (contains_key tried index)
    then some (some tried)
    else if (wrapped && nat_beq tried last) || (nat_beq last 0 && nat_beq tried pkid_max)
    then some none
    else rest

abbrev pub issue : PacketIds → Token → Option (Option ℕ) → PacketIds × ℕ
issue ids token (some (some i)) =
    (record { index = insert i token ids.index; last_issued_id = i }, i)
issue ids token _ = (ids, 0)

-- The loop gets 65536 rounds.
unfoldable pub get_id : PacketIds → Token → PacketIds × ℕ
unfolding probe
get_id ids token =
    issue ids token (probe 65536 ids.index ids.last_issued_id ids.last_issued_id false)

unfoldable pub get_token : PacketIds → ℕ → Option Token
get_token ids id = get id ids.index

unfoldable pub free_id : ℕ → PacketIds → PacketIds
free_id id ids = record ids { index = remove id ids.index }

-- The loop of `clean_up`
unfoldable pub fail_all : {k : Codec} → List (ℕ × Token) → Tokens k → Tokens k
fail_all [] ts = ts
fail_all ((_, token) ∷ index) ts = fail_all index (set_error token connection_lost ts)

unfoldable pub clean_up : {k : Codec} → PacketIds × Tokens k → PacketIds × Tokens k
unfolding fail_all
clean_up (ids, ts) = (record ids { index = [] }, fail_all ids.index ts)
