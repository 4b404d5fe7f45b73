-- ===== src/Base/Sort.antt =====
-- `sort_by`: stable, so the insertion sort that keeps equal elements in order is the same function.
use Prim.Native.Nat.{suc}
use remote_open_power.Base.Lists.{length}
use mathlib.Core.Path.{◌≡◌, refl}
use mathlib.Core.Bool.{Bool, true, false}
use mathlib.Core.List.{List, [], ◌∷◌, Perm}
use mathlib.Core.List.Perm
use native.Mathlib.Omega.{arith}
use remote_open_power.Base.Tests.{if◌then◌else◌, Bool-cases}
use mathlib.Core.Logic.{inl, inr}

module _ {ℓ} {A : Type ℓ} (le : A → A → Bool) where
  insert_sorted : A → List A → List A
  insert_sorted x [] = x ∷ []
  insert_sorted x (y ∷ ys) = if le x y then x ∷ y ∷ ys else y ∷ insert_sorted x ys

  unfoldable pub sort_by : List A → List A
  unfolding insert_sorted
  sort_by [] = []
  sort_by (x ∷ xs) = insert_sorted x (sort_by xs)

  -- Neighbours are in order.
  abbrev pub Ordered : List A → Type 0
  Ordered [] = Unit
  Ordered (x ∷ []) = Unit
  Ordered (x ∷ y ∷ ys) = (le x y ≡ true) × Ordered (y ∷ ys)

  insert_sorted_head : (x : A) (ys : List A) → Ordered (x ∷ ys) → insert_sorted x ys ≡ x ∷ ys
  unfolding insert_sorted
  insert_sorted_head x [] o = refl
  insert_sorted_head x (y ∷ ys) o = ground arith

  Ordered-tail : (x : A) (xs : List A) → Ordered (x ∷ xs) → Ordered xs
  Ordered-tail x [] o = tt
  Ordered-tail x (y ∷ ys) o = o.1

  pub sort_by_of_Ordered : (xs : List A) → Ordered xs → sort_by xs ≡ xs
  unfolding sort_by
  sort_by_of_Ordered [] o = refl
  sort_by_of_Ordered (x ∷ xs) o =
      rw (sort_by_of_Ordered xs (Ordered-tail x xs o)) (insert_sorted_head x xs o)

  insert_sorted-perm : (x : A) (ys : List A) → Perm (insert_sorted x ys) (x ∷ ys)
  unfolding insert_sorted
  insert_sorted-perm x [] = Perm.refl (x ∷ [])
  insert_sorted-perm x (y ∷ ys) = elim (Bool-cases (le x y)) [
    | inl e ↦ rw e (Perm.refl (x ∷ y ∷ ys))
    | inr e ↦ rw e (Perm.trans (Perm.cons y (insert_sorted-perm x ys)) (Perm.swap x y ys))
  ]

  pub sort_by-perm : (xs : List A) → Perm (sort_by xs) xs
  unfolding sort_by
  sort_by-perm [] = Perm.refl []
  sort_by-perm (x ∷ xs) =
      Perm.trans (insert_sorted-perm x (sort_by xs)) (Perm.cons x (sort_by-perm xs))

  length-insert_sorted : (x : A) (ys : List A) → length (insert_sorted x ys) ≡ suc (length ys)
  unfolding insert_sorted
  length-insert_sorted x [] = refl
  length-insert_sorted x (y ∷ ys) = ground (arith, length-insert_sorted x ys)

  pub length-sort_by : (xs : List A) → length (sort_by xs) ≡ length xs
  unfolding sort_by
  length-sort_by [] = refl
  length-sort_by (x ∷ xs) = omega (arith, length-insert_sorted x (sort_by xs), length-sort_by xs)

  module _ (total : (x y : A) → le x y ≡ false → le y x ≡ true) where
    insert_sorted-Ordered : (x : A) (ys : List A) → Ordered ys → Ordered (insert_sorted x ys)
    unfolding insert_sorted
    insert_sorted-Ordered x [] o = tt
    insert_sorted-Ordered x (y ∷ []) o = ground (arith, total x y)
    insert_sorted-Ordered x (y ∷ z ∷ zs) o =
        ground (arith, total x y, insert_sorted-Ordered x (z ∷ zs) o.1)

    pub sort_by-Ordered : (xs : List A) → Ordered (sort_by xs)
    unfolding sort_by
    sort_by-Ordered [] = tt
    sort_by-Ordered (x ∷ xs) = insert_sorted-Ordered x (sort_by xs) (sort_by-Ordered xs)
