-- ===== src/Base/Gather.antt =====
-- Lists gathered from the elements of a list, and membership in them.
use mathlib.Core.List.{append_assoc, Memᴰ}
use mathlib.Core.List.Memᴰ
use mathlib.Core.Path.{◌≡◌, refl, ap}
use mathlib.Core.Logic.{inl, inr}
use mathlib.Core.List.{List, [], ◌∷◌, ◌++◌, map}
use mesquitte_client.Base.Lists.{All}

abbrev pub gather {ℓ κ} : {A : Type ℓ} {B : Type κ} → (A → List B) → List A → List B
gather f [] = []
gather f (x ∷ xs) = f x ++ gather f xs

module _ {ℓ κ} {A : Type ℓ} {B : Type κ} (f : A → List B) where
  pub gather-append : (xs ys : List A) → gather f (xs ++ ys) ≡ gather f xs ++ gather f ys
  gather-append [] ys = refl
  gather-append (x ∷ xs) ys = simp (gather-append xs ys, append_assoc)

  pub gather_none : (xs : List A) → All (λ x. f x ≡ []) xs → gather f xs ≡ []
  gather_none [] h = refl
  gather_none (x ∷ xs) (h, hs) = rw (h, gather_none xs hs)

  pub gather_mem : (b : B) (xs : List A) → Memᴰ b (gather f xs) → (x : A) × Memᴰ x xs × Memᴰ b (f x)
  gather_mem b [] m = elim m [ ]
  gather_mem b (x ∷ xs) m = elim (Memᴰ.append_cases (f x) m) [
    | inl here ↦ (x, Memᴰ.head refl, here)
    | inr later ↦ let (y, among, there) = gather_mem b xs later in (y, Memᴰ.tail among, there)
  ]

  pub mem_gather : (b : B) (x : A) (xs : List A) → Memᴰ x xs → Memᴰ b (f x) → Memᴰ b (gather f xs)
  mem_gather b x [] among m = elim among [ ]
  mem_gather b x (y ∷ xs) (Memᴰ.head e) m = Memᴰ.append_left (gather f xs) (rw (← e) m)
  mem_gather b x (y ∷ xs) (Memᴰ.tail among) m = Memᴰ.append_right (f y) (mem_gather b x xs among m)

module _ {ℓ κ} {A : Type ℓ} {B : Type κ} (f : A → B) where
  pub mem_map : {a : A} {xs : List A} → Memᴰ a xs → Memᴰ (f a) (map f xs)
  mem_map (Memᴰ.head e) = Memᴰ.head (ap f e)
  mem_map (Memᴰ.tail m) = Memᴰ.tail (mem_map m)

  pub map_mem : (b : B) (xs : List A) → Memᴰ b (map f xs) → (a : A) × Memᴰ a xs × (b ≡ f a)
  map_mem b [] m = elim m [ ]
  map_mem b (x ∷ xs) (Memᴰ.head e) = (x, Memᴰ.head refl, e)
  map_mem b (x ∷ xs) (Memᴰ.tail m) = let (a, among, e) = map_mem b xs m in (a, Memᴰ.tail among, e)

pub gather_ext {ℓ κ} :
    {A : Type ℓ} {B : Type κ} (f g : A → List B) (xs : List A)
    → All (λ x. f x ≡ g x) xs
    → gather f xs ≡ gather g xs
gather_ext f g [] h = refl
gather_ext f g (x ∷ xs) (h, hs) = rw (h, gather_ext f g xs hs)

pub All-of_mem {ℓ κ} :
    {A : Type ℓ} (P : A → Type κ) (xs : List A) → ((x : A) → Memᴰ x xs → P x) → All P xs
All-of_mem P [] h = tt
All-of_mem P (x ∷ xs) h = (h x (Memᴰ.head refl), All-of_mem P xs (λ y m. h y (Memᴰ.tail m)))
