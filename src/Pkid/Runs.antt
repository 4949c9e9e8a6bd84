-- ===== src/Pkid/Runs.antt =====
-- An identifier is its operation's own until it is released.
use mesquitte_client.Base.{
  ℕ, ◌≡◌, ◌≢◌, subst, inl, inr, none, some, List, [], ◌∷◌, get, get-remove, nat_key, arith, All,
}
use mesquitte_client.Token.{Token}
use mesquitte_client.Pkid.{PacketIds, get_id, get_token, free_id}
use mesquitte_client.Pkid.Issue.{IsValid, get_id-cases, get_id-IsValid, free_id-IsValid}

pub data IdOp : Type 0 where
  gets : Token → IdOp
  frees : ℕ → IdOp

unfoldable pub run_id : IdOp → PacketIds → PacketIds
run_id (gets t) ids = (get_id ids t).0
run_id (frees id) ids = free_id id ids

unfoldable pub run_ids : List IdOp → PacketIds → PacketIds
unfolding run_id
run_ids [] ids = ids
run_ids (op ∷ ops) ids = run_ids ops (run_id op ids)

-- What the calls of `get_id` return, in order.
unfoldable pub returned : List IdOp → PacketIds → List ℕ
unfolding run_id
returned [] ids = []
returned (gets t ∷ ops) ids = (get_id ids t).1 ∷ returned ops (get_id ids t).0
returned (frees id ∷ ops) ids = returned ops (free_id id ids)

abbrev pub Keeps : ℕ → IdOp → Type 0
Keeps id (gets t) = Unit
Keeps id (frees j) = j ≢ id

pub run_ids-IsValid : (ops : List IdOp) (ids : PacketIds) → IsValid ids → IsValid (run_ids ops ids)
unfolding run_ids
run_ids-IsValid [] ids v = v
run_ids-IsValid (gets t ∷ ops) ids v = run_ids-IsValid ops _ (get_id-IsValid ids t v)
run_ids-IsValid (frees id ∷ ops) ids v = run_ids-IsValid ops _ (free_id-IsValid id ids v)

module _ (id : ℕ) (token : Token) where
  get_id_keeps :
      (ids : PacketIds) (t : Token)
      → IsValid ids
      → get id ids.index ≡ some token
      → (get id (get_id ids t).0.index ≡ some token) × ((get_id ids t).1 ≢ id)
  get_id_keeps ids t v h = elim (get_id-cases ids t v.last_high) [
    | inr (same, zero_id, _) ↦ (rw same h, λ e. absurd (omega (arith, v.keys id (ground arith))))
    | inl i ↦
        let apart : (get_id ids t).1 ≢ id =
          λ e. absurd (cc (subst (λ j. get j ids.index ≡ none) e i.vacant)) in
        (ground (arith, i.entry id), apart)
  ]

  free_id_keeps :
      (ids : PacketIds) (j : ℕ)
      → j ≢ id
      → get id ids.index ≡ some token
      → get id (free_id j ids).index ≡ some token
  unfolding free_id
  free_id_keeps ids j n h = ground (arith, get-remove j id ids.index)

-- From a table whose keys and whose last identifier are identifiers of the protocol, over calls of
-- `get_id` and `free_id` that do not release an identifier in use, the identifier stays registered
-- with its token, and `get_id` never returns it again.
pub run_ids_keep :
    (id : ℕ) (token : Token) (ops : List IdOp) (ids : PacketIds)
    → IsValid ids
    → get_token ids id ≡ some token
    → All (Keeps id) ops
    → (get_token (run_ids ops ids) id ≡ some token) × All (λ j. j ≢ id) (returned ops ids)
unfolding run_ids returned get_token
run_ids_keep id token [] ids v h k = (h, tt)
run_ids_keep id token (gets t ∷ ops) ids v h (_, k) =
    let (kept, apart) = get_id_keeps id token ids t v h in
    let (last, others) = run_ids_keep id token ops _ (get_id-IsValid ids t v) kept k in
    (last, (apart, others))
run_ids_keep id token (frees j ∷ ops) ids v h (n, k) =
    run_ids_keep id token ops _ (free_id-IsValid j ids v) (free_id_keeps id token ids j n h) k
