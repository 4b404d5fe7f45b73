-- ===== src/Base/Equality.antt =====
-- Decidable equality as an interface: one `==` for numbers, byte strings, lists and options.
use Prim.Native.Nat.{ℕ}
use mathlib.Core.Path.{◌≡◌, refl}
use mathlib.Core.Bool.{Bool, true, false}
use mathlib.Core.List.{List, [], ◌∷◌}
use mathlib.Core.Option.{Option, none, some}
use native.Mathlib.Omega.{arith}
use native.Mathlib.Decide.{ℕ_discrete}

pub record Eq {ℓ} (A : Type ℓ) : Type ℓ where
  pub eq? : Discrete A

infix 50 ◌==◌ ◌!=◌
abbrev pub ◌==◌ {ℓ} : {A : Type ℓ} ⦃e : Eq A⦄ → A → A → Bool
◌==◌ ⦃e⦄ a b = elim (e.eq? a b) [ yes _ ↦ true | no _ ↦ false ]

abbrev pub ◌!=◌ {ℓ} : {A : Type ℓ} ⦃e : Eq A⦄ → A → A → Bool
◌!=◌ ⦃e⦄ a b = elim (e.eq? a b) [ yes _ ↦ false | no _ ↦ true ]

unfoldable pub ℕ_eq? : Discrete ℕ
unfolding ℕ_discrete
ℕ_eq? = ℕ_discrete

instance abbrev pub nat_eq : Eq ℕ
nat_eq = record { eq? = ℕ_eq? }

module _ {ℓ} {A : Type ℓ} ⦃e : Eq A⦄ where
  unfoldable pub list_eq? : Discrete (List A)
  list_eq? [] [] = yes refl
  list_eq? [] (y ∷ ys) = no (λ p. cc)
  list_eq? (x ∷ xs) [] = no (λ p. cc)
  list_eq? (x ∷ xs) (y ∷ ys) =
      let rest = list_eq? xs ys in
      elim (e.eq? x y) [
        | yes p ↦ elim rest [ yes q ↦ yes (cc) | no q ↦ no (λ r. q (cc)) ]
        | no p ↦ no (λ r. p (cc))
      ]

  unfoldable pub option_eq? : Discrete (Option A)
  option_eq? none none = yes refl
  option_eq? none (some b) = no (λ p. cc)
  option_eq? (some a) none = no (λ p. cc)
  option_eq? (some a) (some b) = elim (e.eq? a b) [ yes p ↦ yes (cc) | no p ↦ no (λ r. p (cc)) ]

  instance abbrev pub list_eq : Eq (List A)
  list_eq = record { eq? = list_eq? }

  instance abbrev pub option_eq : Eq (Option A)
  option_eq = record { eq? = option_eq? }

  pub ==-refl : (a : A) → (a == a) ≡ true
  ==-refl a = ground arith

-- A string or an array of bytes.
abbrev pub Bytes : Type 0
Bytes = List ℕ
