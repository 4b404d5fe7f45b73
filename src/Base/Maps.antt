-- ===== src/Base/Maps.antt =====
-- `HashMap` as an association list. A map is used only through these operations, so the order of
-- its entries is not observed; `Distinct` says that no key is stored twice.
use Prim.Native.Nat.{ℕ, suc, ◌≤◌}
use mathlib.Core.Path.{◌≡◌, refl}
use mathlib.Core.Bool.{Bool, true}
use mathlib.Core.Option.{Option, none, some}
use mathlib.Core.List.{List, [], ◌∷◌}
use native.Mathlib.Omega.{arith}
use remote_open_power.Base.Equality.{Eq, ◌==◌}
use remote_open_power.Base.Tests.{if◌then◌else◌, is_some}
use remote_open_power.Base.Lists.{length}

abbrev pub Dict {ℓ} : Type ℓ → Type ℓ → Type ℓ
Dict K V = List (K × V)

module _ {ℓ} {K V : Type ℓ} where
  -- `retain`
  unfoldable pub retain : (K → V → Bool) → Dict K V → Dict K V
  retain p [] = []
  retain p ((k, v) ∷ m) = if p k v then (k, v) ∷ retain p m else retain p m

  -- how many entries pass a test: `iter().filter(p).count()`
  unfoldable pub count : (K → V → Bool) → Dict K V → ℕ
  count p [] = 0
  count p ((k, v) ∷ m) = if p k v then suc (count p m) else count p m

  pub length-retain-le : (p : K → V → Bool) (m : Dict K V) → length (retain p m) ≤ length m
  unfolding retain
  length-retain-le p [] = omega arith
  length-retain-le p ((k, v) ∷ m) = ground (arith, length-retain-le p m)

  pub count-retain-le : (p q : K → V → Bool) (m : Dict K V) → count p (retain q m) ≤ count p m
  unfolding retain count
  count-retain-le p q [] = omega arith
  count-retain-le p q ((k, v) ∷ m) = ground (arith, count-retain-le p q m)

  pub count-le-length : (p : K → V → Bool) (m : Dict K V) → count p m ≤ length m
  unfolding count
  count-le-length p [] = omega arith
  count-le-length p ((k, v) ∷ m) = ground (arith, count-le-length p m)

module _ {ℓ} {K V : Type ℓ} ⦃e : Eq K⦄ where
  unfoldable pub get : K → Dict K V → Option V
  get k [] = none
  get k ((j, v) ∷ m) = if j == k then some v else get k m

  abbrev pub contains_key : K → Dict K V → Bool
  contains_key k m = is_some (get k m)

  -- Overwrites the value of a stored key.
  unfoldable pub insert : K → V → Dict K V → Dict K V
  insert k v [] = (k, v) ∷ []
  insert k v ((j, w) ∷ m) = if j == k then (j, v) ∷ m else (j, w) ∷ insert k v m

  unfoldable pub remove : K → Dict K V → Dict K V
  remove k [] = []
  remove k ((j, w) ∷ m) = if j == k then remove k m else (j, w) ∷ remove k m

  abbrev pub Distinct : Dict K V → Type ℓ
  Distinct [] = Unit
  Distinct ((k, v) ∷ m) = (get k m ≡ none) × Distinct m

  pub get-insert :
      (k j : K) (v : V) (m : Dict K V) → get j (insert k v m) ≡ (if k == j then some v else get j m)
  unfolding get insert
  get-insert k j v [] = ground arith
  get-insert k j v ((i, w) ∷ m) = ground (arith, get-insert k j v m)

  pub get-remove :
      (k j : K) (m : Dict K V) → get j (remove k m) ≡ (if k == j then none else get j m)
  unfolding get remove
  get-remove k j [] = ground arith
  get-remove k j ((i, w) ∷ m) = ground (arith, get-remove k j m)

  -- What `retain` leaves of the value at a key.
  abbrev pub kept : (K → V → Bool) → K → Option V → Option V
  kept p k none = none
  kept p k (some v) = if p k v then some v else none

  get-retain-none :
      (p : K → V → Bool) (k : K) (m : Dict K V) → get k m ≡ none → get k (retain p m) ≡ none
  unfolding get retain
  get-retain-none p k [] h = refl
  get-retain-none p k ((j, w) ∷ m) h = ground (arith, get-retain-none p k m)

  pub get-retain :
      (p : K → V → Bool) (k : K) (m : Dict K V)
      → Distinct m
      → get k (retain p m) ≡ kept p k (get k m)
  unfolding get retain
  get-retain p k [] d = refl
  get-retain p k ((j, w) ∷ m) d = ground (arith, get-retain p k m d.1, get-retain-none p k m)

  pub Distinct-retain : (p : K → V → Bool) (m : Dict K V) → Distinct m → Distinct (retain p m)
  unfolding retain
  Distinct-retain p [] d = tt
  Distinct-retain p ((j, w) ∷ m) d =
      ground (arith, get-retain-none p j m d.0, Distinct-retain p m d.1)

  pub Distinct-insert : (k : K) (v : V) (m : Dict K V) → Distinct m → Distinct (insert k v m)
  unfolding insert get
  Distinct-insert k v [] d = (refl, tt)
  Distinct-insert k v ((j, w) ∷ m) d = ground (arith, get-insert k j v m, Distinct-insert k v m d.1)

  pub Distinct-remove : (k : K) (m : Dict K V) → Distinct m → Distinct (remove k m)
  unfolding remove get
  Distinct-remove k [] d = tt
  Distinct-remove k ((j, w) ∷ m) d = ground (arith, get-remove k j m, Distinct-remove k m d.1)

  pub length-insert :
      (k : K) (v : V) (m : Dict K V)
      → length (insert k v m) ≡ (if contains_key k m then length m else suc (length m))
  unfolding insert get
  length-insert k v [] = refl
  length-insert k v ((j, w) ∷ m) = ground (arith, length-insert k v m)

  -- A fresh key counts once more, if it passes.
  pub count-insert_new :
      (p : K → V → Bool) (k : K) (v : V) (m : Dict K V)
      → get k m ≡ none
      → count p (insert k v m) ≡ (if p k v then suc (count p m) else count p m)
  unfolding insert get count
  count-insert_new p k v [] h = refl
  count-insert_new p k v ((j, w) ∷ m) h = ground (arith, count-insert_new p k v m)

  -- Overwriting does not raise the count where the new value passes only if the old one did.
  pub count-insert_old :
      (p : K → V → Bool) (k : K) (v w : V) (m : Dict K V)
      → get k m ≡ some w
      → (p k v ≡ true → p k w ≡ true)
      → count p (insert k v m) ≤ count p m
  unfolding insert get count
  count-insert_old p k v w [] h imp = cc
  count-insert_old p k v w ((j, u) ∷ m) h imp = ground (arith, count-insert_old p k v w m)

  pub length-remove-le : (k : K) (m : Dict K V) → length (remove k m) ≤ length m
  unfolding remove
  length-remove-le k [] = omega arith
  length-remove-le k ((j, w) ∷ m) = ground (arith, length-remove-le k m)

  pub count-remove-le : (p : K → V → Bool) (k : K) (m : Dict K V) → count p (remove k m) ≤ count p m
  unfolding remove count
  count-remove-le p k [] = omega arith
  count-remove-le p k ((j, w) ∷ m) = ground (arith, count-remove-le p k m)
