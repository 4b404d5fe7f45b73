-- ===== src/Base/Sets.antt =====
-- `HashSet` as a list; `contains` is its membership test.
use mathlib.Core.Path.{◌≡◌, refl}
use mathlib.Core.Bool.{Bool, true, false, ◌&&◌, ◌||◌}
use mathlib.Core.List.{List, [], ◌∷◌}
use native.Mathlib.Omega.{arith}
use remote_open_power.Base.Tests.{if◌then◌else◌}
use remote_open_power.Base.Equality.{Eq, ◌==◌}
use remote_open_power.Base.Lists.{contains, filter, all}

module _ {ℓ} {A : Type ℓ} ⦃e : Eq A⦄ where
  -- `insert`: the set, and whether the element is new.
  unfoldable pub insert_set : A → List A → List A × Bool
  insert_set a s = if contains s a then (s, false) else (a ∷ s, true)

  -- `collect::<HashSet<_>>()`
  unfoldable pub collect : List A → List A
  unfolding insert_set
  collect [] = []
  collect (a ∷ xs) = (insert_set a (collect xs)).0

  pub contains-insert_set :
      (a b : A) (s : List A) → contains (insert_set a s).0 b ≡ ((a == b) || contains s b)
  unfolding insert_set
  contains-insert_set a b s = ground arith

  pub contains-collect : (b : A) (xs : List A) → contains (collect xs) b ≡ contains xs b
  unfolding collect
  contains-collect b [] = refl
  contains-collect b (x ∷ xs) = ground (arith, contains-collect b xs, contains-collect x xs)

  pub contains-filter :
      (p : A → Bool) (b : A) (xs : List A) → contains (filter p xs) b ≡ (p b && contains xs b)
  contains-filter p b [] = ground arith
  contains-filter p b (x ∷ xs) = ground (arith, contains-filter p b xs)

  pub all-contains :
      (p : A → Bool) (b : A) (xs : List A) → all p xs ≡ true → contains xs b ≡ true → p b ≡ true
  all-contains p b [] h m = cc
  all-contains p b (x ∷ xs) h m = ground (arith, all-contains p b xs)
