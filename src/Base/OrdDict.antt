-- ===== src/Base/OrdDict.antt =====
-- The standard library's `BTreeMap` with texts for keys: an association list in the order of the
-- keys, in which it is iterated.
use Prim.Native.String.{String, compare}
use mathlib.Core.Path.{◌≡◌, refl}
use mathlib.Core.Option.{some}
use mathlib.Core.List.{List, [], ◌∷◌}
use native.Mathlib.Omega.{arith}
use text.Mathlib.Text.{is_lt}
use mesquitte_client.Base.Tests.{◌==◌, if◌then◌else◌, string_key, string_beq_iff}
use mesquitte_client.Base.Dict.{get}

module _ {ℓ} {V : Type ℓ} where
  unfoldable pub insert_sorted : String → V → List (String × V) → List (String × V)
  insert_sorted k v [] = (k, v) ∷ []
  insert_sorted k v ((j, w) ∷ m) =
      if j == k
      then (k, v) ∷ m
      else if is_lt (compare k j)
      then (k, v) ∷ (j, w) ∷ m
      else (j, w) ∷ insert_sorted k v m

  pub get-insert_sorted :
      (k j : String) (v : V) (m : List (String × V))
      → get j (insert_sorted k v m) ≡ (if k == j then some v else get j m)
  unfolding get insert_sorted
  get-insert_sorted k j v [] = refl
  get-insert_sorted k j v ((i, w) ∷ m) =
      ground (
        arith,
        string_beq_iff k j,
        string_beq_iff i k,
        string_beq_iff i j,
        get-insert_sorted k j v m,
      )
