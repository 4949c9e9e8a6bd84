-- ===== src/Transport/Dialling.antt =====
-- Which address `Tcp::connect` ends with.
use mesquitte_client.Base.{
  ◌≡◌, refl, ap, sym, subst, ◌∙◌, ◌⊎◌, inl, inr, Option, none, some, List, [], ◌∷◌, ◌++◌, All,
}
use mesquitte_client.Token.{TokenError, io_error, connect_timeout, network_unreachable}
use mesquitte_client.Transport.{
  Result, ok, err, Attempt, opened, failed, timed_out, try_addresses, tcp_connect,
}

-- The error that an attempt leaves, if it fails.
abbrev pub attempt_error {ℓ} : {S : Type ℓ} → Attempt S → Option TokenError
attempt_error (opened s) = none
attempt_error (failed e) = some (io_error e)
attempt_error timed_out = some connect_timeout

-- The last error of attempts that all fail, after `e`
abbrev pub last_error {ℓ} :
    {A : Type 0} {S : Type ℓ} → (A → Attempt S) → TokenError → List A → TokenError
last_error dial e [] = e
last_error dial e (addr ∷ addrs) = elim (attempt_error (dial addr)) [
  | none ↦ last_error dial e addrs
  | some e' ↦ last_error dial e' addrs
]

abbrev pub Fails {ℓ} : {A : Type 0} {S : Type ℓ} → (A → Attempt S) → A → Type 0
Fails dial addr = (e : TokenError) × (attempt_error (dial addr) ≡ some e)

-- How the attempts on `addrs` go: one address answers after others that failed, or all fail.
abbrev pub Dialled {ℓ} :
    {A : Type 0} {S : Type ℓ} → (A → Attempt S) → TokenError → List A → Result S × List A → Type ℓ
Dialled {A} {S} dial e addrs (result, tried) =
    ((before : List A) × (addr : A) × (after : List A) × (s : S) × (addrs ≡ before ++ addr ∷ after)
      × All (Fails dial) before
      × (dial addr ≡ opened s)
      × (result ≡ ok s)
      × (tried ≡ before ++ addr ∷ []))
    ⊎ (All (Fails dial) addrs × (result ≡ err (last_error dial e addrs)) × (tried ≡ addrs))

module _ {ℓ} {A : Type 0} {S : Type ℓ} (dial : A → Attempt S) where
  Dialled-cons :
      (e e' : TokenError) (addr : A) (addrs : List A) (r : Result S × List A)
      → attempt_error (dial addr) ≡ some e'
      → Dialled dial e' addrs r
      → Dialled dial e (addr ∷ addrs) (r.0, addr ∷ r.1)
  Dialled-cons e e' addr addrs (result, tried) h
        (inl (before, a, after, s, split, fail, open_a, res, same)) =
      inl (
        addr ∷ before,
        a,
        after,
        s,
        ap (λ xs. addr ∷ xs) split,
        ((e', h), fail),
        open_a,
        res,
        ap (λ xs. addr ∷ xs) same,
      )
  Dialled-cons e e' addr addrs (result, tried) h (inr (fail, res, same)) =
      inr (((e', h), fail), res ∙ (rw (last_error, h)), ap (λ xs. addr ∷ xs) same)

  try_round :
      (e : TokenError) (addr : A) (addrs : List A) (a : Attempt S)
      → dial addr ≡ a
      → ((e' : TokenError) → Dialled dial e' addrs (try_addresses dial e' addrs))
      → Dialled dial e (addr ∷ addrs) (try_addresses dial e (addr ∷ addrs))
  unfolding try_addresses
  try_round e addr addrs (opened s) h rest =
      rw (try_addresses, h) (inl ([], addr, addrs, s, refl, tt, h, refl, refl))
  try_round e addr addrs (failed x) h rest =
      let r = try_addresses dial (io_error x) addrs in
      let step : try_addresses dial e (addr ∷ addrs) ≡ (r.0, addr ∷ r.1) = rw (try_addresses, h) in
      subst (Dialled dial e (addr ∷ addrs)) (sym step)
        (Dialled-cons e (io_error x) addr addrs r (ap attempt_error h) (rest (io_error x)))
  try_round e addr addrs timed_out h rest =
      let r = try_addresses dial connect_timeout addrs in
      let step : try_addresses dial e (addr ∷ addrs) ≡ (r.0, addr ∷ r.1) = rw (try_addresses, h) in
      subst (Dialled dial e (addr ∷ addrs)) (sym step)
        (Dialled-cons e connect_timeout addr addrs r (ap attempt_error h) (rest connect_timeout))

  try_addresses-Dialled :
      (e : TokenError) (addrs : List A) → Dialled dial e addrs (try_addresses dial e addrs)
  unfolding try_addresses
  try_addresses-Dialled e [] = inr (tt, refl, refl)
  try_addresses-Dialled e (addr ∷ addrs) =
      try_round e addr addrs (dial addr) refl (λ e'. try_addresses-Dialled e' addrs)

-- `Tcp::connect` tries the addresses in order up to the first that answers, gives back its stream and
-- tries none after it; where all fail, it has tried them all and its error is that of the last attempt,
-- or NetworkUnreachable if there is no address.
pub tcp_connect-Dialled {ℓ} :
    {A : Type 0} {S : Type ℓ} (dial : A → Attempt S) (addrs : List A)
    → (r : Result S × List A) × (tcp_connect dial (some addrs) ≡ some r)
      × Dialled dial network_unreachable addrs r
unfolding tcp_connect
tcp_connect-Dialled dial addrs = (
  try_addresses dial network_unreachable addrs,
  refl,
  try_addresses-Dialled dial network_unreachable addrs,
)
