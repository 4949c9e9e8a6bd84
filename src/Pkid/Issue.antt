-- ===== src/Pkid/Issue.antt =====
-- What `get_id` returns, and the life of an identifier between its issue and its release.
use mesquitte_client.Base.{
  ℕ, ◌≤◌, ◌<◌, ◌≡◌, ◌≢◌, ◌↔◌, refl, subst, ◌⊎◌, inl, inr, true, false, Option, none, some, List,
  get, get-insert, get-remove, contains_key-get, contains_key, nat_key, arith, nat_beq,
  if◌then◌else◌, Bool-cases,
}
use mesquitte_client.Codec.{Codec}
use mesquitte_client.Token.{Token, Tokens}
use mesquitte_client.Pkid.{PacketIds, packet_ids_new, issue, probe, get_id, free_id, clean_up}
use mesquitte_client.Pkid.Probe.{Verdict, probe-Verdict}

-- No identifier of the protocol is vacant.
abbrev pub IsFull : PacketIds → Type 0
IsFull ids = (j : ℕ) → 1 ≤ j → j < 65536 → contains_key j ids.index ≡ true

get_id-Verdict :
    (ids : PacketIds) (token : Token)
    → ids.last_issued_id < 65536
    → (r : Option (Option ℕ)) × (get_id ids token ≡ issue ids token r) × Verdict ids.index r
unfolding get_id
get_id-Verdict ids token h = (
  _,
  refl,
  probe-Verdict ids.index ids.last_issued_id 65536 ids.last_issued_id false (omega arith)
      (omega arith) (λ j t. absurd (omega arith)),
)

-- The loop of `get_id` ends within its 65536 rounds, from whatever 16-bit identifier was issued
-- last.
pub probe_total :
    (ids : PacketIds)
    → ids.last_issued_id < 65536
    → probe 65536 ids.index ids.last_issued_id ids.last_issued_id false ≢ none
probe_total ids h e = subst (Verdict ids.index) e verdict
  where
    verdict : Verdict ids.index (probe 65536 ids.index ids.last_issued_id ids.last_issued_id false)
    verdict =
        probe-Verdict ids.index ids.last_issued_id 65536 ids.last_issued_id false (omega arith)
          (omega arith) (λ j t. absurd (omega arith))

-- An identifier was issued: it is in range, it was vacant, and only its entry changes.
pub record Issued (ids : PacketIds) (token : Token) (ids' : PacketIds) (id : ℕ) : Type 0 where
  pub low : 1 ≤ id
  pub high : id < 65536
  pub vacant : get id ids.index ≡ none
  pub entry : (j : ℕ) → get j ids'.index ≡ (if nat_beq id j then some token else get j ids.index)
  pub last : ids'.last_issued_id ≡ id

vacant-get : (id : ℕ) (m : List (ℕ × Token)) → contains_key id m ≡ false → get id m ≡ none
vacant-get id m h = ground (arith, contains_key-get id m)

issue-cases :
    (ids : PacketIds) (token : Token) (r : Option (Option ℕ))
    → Verdict ids.index r
    → Issued ids token (issue ids token r).0 (issue ids token r).1
      ⊎ (((issue ids token r).0 ≡ ids) × ((issue ids token r).1 ≡ 0) × IsFull ids)
issue-cases ids token none v = absurd v
issue-cases ids token (some none) v = inr (refl, refl, v)
issue-cases ids token (some (some i)) (lo, hi, vacant) = inl (record {
  low = lo;
  high = hi;
  vacant = vacant-get i ids.index vacant;
  entry = λ j. get-insert i j token ids.index;
  last = refl;
})

-- Where the last identifier issued fits 16 bits, `get_id` either issues an identifier in 1 to
-- 65535 that was vacant, registers the token under it and leaves every other entry as it was, or
-- returns 0, changes nothing, and all 65535 are in use.
pub get_id-cases :
    (ids : PacketIds) (token : Token)
    → ids.last_issued_id < 65536
    → Issued ids token (get_id ids token).0 (get_id ids token).1
      ⊎ (((get_id ids token).0 ≡ ids) × ((get_id ids token).1 ≡ 0) × IsFull ids)
get_id-cases ids token h =
    let (r, e, v) = get_id-Verdict ids token h in rw e (issue-cases ids token r v)

-- Where the last identifier issued fits 16 bits, `get_id` returns 0 exactly when all the
-- identifiers from 1 to 65535 are in use.
pub get_id-eq-zero_iff :
    (ids : PacketIds) (token : Token)
    → ids.last_issued_id < 65536
    → ((get_id ids token).1 ≡ 0) ↔ IsFull ids
get_id-eq-zero_iff ids token h = elim (get_id-cases ids token h) [
  | inr (_, zero_id, full) ↦ (λ _. full, λ _. zero_id)
  | inl i ↦ (
    λ e. absurd (omega (arith, i.low)),
    λ full. absurd (cc (full _ i.low i.high, contains_key-get _ ids.index, i.vacant)),
  )
]

-- Every key is an identifier of the protocol, and so is the last one issued.
pub record IsValid (ids : PacketIds) : Type 0 where
  pub last_low : 1 ≤ ids.last_issued_id
  pub last_high : ids.last_issued_id < 65536
  pub keys : (j : ℕ) → get j ids.index ≢ none → (1 ≤ j) × (j < 65536)

-- When every key and the last identifier issued are identifiers of the protocol, 1 to 65535, they are
-- so after `get_id`.
pub get_id-IsValid : (ids : PacketIds) (token : Token) → IsValid ids → IsValid (get_id ids token).0
get_id-IsValid ids token v = elim (get_id-cases ids token v.last_high) [
  | inr (same, _, _) ↦ rw same v
  | inl i ↦ record {
    last_low = omega (arith, i.last, i.low);
    last_high = omega (arith, i.last, i.high);
    keys = λ j h. elim (Bool-cases (nat_beq (get_id ids token).1 j)) [
      | inl e ↦ let same : (get_id ids token).1 ≡ j = ground arith in rw (← same) (i.low, i.high)
      | inr e ↦ v.keys j (ground (arith, i.entry j))
    ];
  }
]

pub free_id-IsValid : (id : ℕ) (ids : PacketIds) → IsValid ids → IsValid (free_id id ids)
unfolding free_id
free_id-IsValid id ids v = record {
  last_low = v.last_low;
  last_high = v.last_high;
  keys = λ j h. v.keys j (ground (arith, get-remove id j ids.index));
}

pub clean_up-IsValid :
    {k : Codec} (ids : PacketIds) (ts : Tokens k) → IsValid ids → IsValid (clean_up (ids, ts)).0
unfolding clean_up get
clean_up-IsValid ids ts v = record {
  last_low = v.last_low;
  last_high = v.last_high;
  keys = λ j h. absurd (h refl);
}

pub packet_ids_new-IsValid : IsValid packet_ids_new
unfolding packet_ids_new get
packet_ids_new-IsValid = record {
  last_low = omega arith;
  last_high = omega arith;
  keys = λ j h. absurd (h refl);
}
