-- ===== src/Pkid/Probe.antt =====
-- The search of `get_id`: it ends, it finds an identifier that is vacant, and it gives up only when
-- none is.
use mesquitte_client.Base.{
  ℕ, zero, suc, ◌+◌, ◌-◌, ◌≤◌, ◌<◌, ◌≡◌, ◌⊎◌, inl, inr, Bool, not, Bool-cases, true, false, Option,
  none, some, List, contains_key, nat_key, arith, nat_beq, if◌then◌else◌,
}
use native.Mathlib.Decide.{dec_lt, dec_le}
use mesquitte_client.Token.{Token}
use mesquitte_client.Pkid.{probe, candidate, increment}

-- Between its rounds the loop stands at `i`, and has not yet come back to `last`.
abbrev pub Walks : ℕ → ℕ → Bool → Type 0
Walks last i false = (last ≤ i) × (i < 65536) × ((last ≡ 0) → i < 65535)
Walks last i true = (1 ≤ i) × (i < last) × (last < 65536)

-- The rounds that are left.
abbrev pub rounds : ℕ → ℕ → Bool → ℕ
rounds last i false = 65535 - i + last
rounds last i true = last - i

-- The identifiers that the loop has tried.
abbrev pub Tried : ℕ → ℕ → Bool → ℕ → Type 0
Tried last i false j = (last < j) × (j ≤ i)
Tried last i true j = ((last < j) × (j < 65536)) ⊎ ((1 ≤ j) × (j ≤ i))

abbrev pub Verdict : List (ℕ × Token) → Option (Option ℕ) → Type 0
Verdict index none = ⊥
Verdict index (some none) = (j : ℕ) → 1 ≤ j → j < 65536 → contains_key j index ≡ true
Verdict index (some (some i)) = (1 ≤ i) × (i < 65536) × (contains_key i index ≡ false)

candidate_below : (i : ℕ) → i < 65535 → (candidate i ≡ i + 1) × (nat_beq (increment i) 0 ≡ false)
candidate_below i h = ground arith

-- Below the end of the range and before a wrap the next candidate is the successor.
module _ (index : List (ℕ × Token)) (last : ℕ) where
  abbrev Full : Type 0
  Full = (j : ℕ) → 1 ≤ j → j < 65536 → contains_key j index ≡ true

  abbrev Seen : ℕ → Bool → Type 0
  Seen i looped = (j : ℕ) → Tried last i looped j → contains_key j index ≡ true

  -- One round, whatever the rest of the search is.
  round-Verdict :
      (c : ℕ) (stop : Bool) (rest : Option (Option ℕ))
      → 1 ≤ c
      → c < 65536
      → (contains_key c index ≡ true → stop ≡ true → Full)
      → (contains_key c index ≡ true → stop ≡ false → Verdict index rest)
      → Verdict index
          (if not (contains_key c index) then some (some c) else if stop then some none else rest)
  round-Verdict c stop rest lo hi full more = elim (Bool-cases (contains_key c index)) [
    | inr vacant ↦ rw vacant (lo, hi, vacant)
    | inl taken ↦ rw taken (elim (Bool-cases stop) [
      | inl ends ↦ rw ends (full taken ends)
      | inr goes_on ↦ rw goes_on (more taken goes_on)
    ])
  ]

  -- An identifier that was tried before, or just now.
  Seen-false : (i : ℕ) → Seen i false → contains_key (i + 1) index ≡ true → Seen (i + 1) false
  Seen-false i seen now j (lo, hi) = elim (dec_le j i) [
    | yes old ↦ seen j (lo, old)
    | no new ↦ let same : j ≡ i + 1 = omega arith in rw same now
  ]

  Seen-true : (i : ℕ) → Seen i true → contains_key (i + 1) index ≡ true → Seen (i + 1) true
  Seen-true i seen now j (inl old) = seen j (inl old)
  Seen-true i seen now j (inr (lo, hi)) = elim (dec_le j i) [
    | yes old ↦ seen j (inr (lo, old))
    | no new ↦ let same : j ≡ i + 1 = omega arith in rw same now
  ]

  Seen-wrapped : Seen 65535 false → contains_key 1 index ≡ true → Seen 1 true
  Seen-wrapped seen now j (inl (lo, hi)) = seen j (lo, omega arith)
  Seen-wrapped seen now j (inr (lo, hi)) = let same : j ≡ 1 = omega arith in rw same now

  Seen-Full-false : last ≡ 0 → Seen 65535 false → Full
  Seen-Full-false e seen j lo hi = seen j (omega arith, omega arith)

  Seen-Full-true : (i : ℕ) → i ≡ last → Seen i true → Full
  Seen-Full-true i e seen j lo hi = elim (dec_le j i) [
    | yes low ↦ seen j (inr (lo, low))
    | no high ↦ seen j (inl (omega arith, hi))
  ]

  pub probe-Verdict :
      (fuel i : ℕ) (looped : Bool)
      → Walks last i looped
      → rounds last i looped ≤ fuel
      → Seen i looped
      → Verdict index (probe fuel index last i looped)
  unfolding probe
  probe-Verdict zero i false w f seen = absurd (omega arith)
  probe-Verdict zero i true w f seen = absurd (omega arith)
  probe-Verdict (suc fuel) i true w f seen =
      let (next, same) = candidate_below i (omega arith) in
      rw (next, same)
        (round-Verdict (i + 1) _ _ (omega arith) (omega arith)
          (λ now stop. Seen-Full-true (i + 1) (ground arith) (Seen-true i seen now))
          (λ now stop.
            probe-Verdict fuel (i + 1) true (ground arith) (omega arith) (Seen-true i seen now)))
  probe-Verdict (suc fuel) i false w f seen = elim (dec_lt i 65535) [
    | yes below ↦
        let (next, same) = candidate_below i below in
        rw (next, same)
          (round-Verdict (i + 1) _ _ (omega arith) (omega arith)
            (λ now stop.
              let end : i + 1 ≡ 65535 = ground arith in
              Seen-Full-false (ground arith) (rw end at (Seen-false i seen now)))
            (λ now stop.
              probe-Verdict fuel (i + 1) false (ground arith) (omega arith)
                (Seen-false i seen now)))
    | no top ↦
        let end : i ≡ 65535 = omega arith in
        rw end (
          round-Verdict 1 _ _ (omega arith) (omega arith)
            (λ now stop. Seen-Full-true 1 (ground arith) (Seen-wrapped (rw end at seen) now))
            (λ now stop.
              probe-Verdict fuel 1 true (ground arith) (omega arith)
                (Seen-wrapped (rw end at seen) now)))
  ]
