-- ===== src/Base/Words.antt =====
-- Big-endian words, and slices of byte strings.
use Prim.Native.Nat.{ℕ, zero, suc, ◌+◌, ◌*◌, ◌/◌, ◌%◌, ◌^◌, ◌≤◌, ◌<◌}
use mathlib.Core.Path.{◌≡◌, refl, ap}
use mathlib.Core.List.{List, [], ◌∷◌, ◌++◌}
use mathlib.Core.Option.{Option, none, some}
use native.Mathlib.Omega.{arith}
use remote_open_power.Base.Equality.{Bytes}
use remote_open_power.Base.Lists.{length, length-append}

-- `to_be_bytes` of a `u32` and of a `u64`
abbrev pub be_bytes4 : ℕ → Bytes
be_bytes4 n = n / 2 ^ 24 % 256 ∷ n / 2 ^ 16 % 256 ∷ n / 2 ^ 8 % 256 ∷ n % 256 ∷ []

abbrev pub be_bytes8 : ℕ → Bytes
be_bytes8 n = be_bytes4 (n / 2 ^ 32) ++ be_bytes4 n

-- `u32::from_be_bytes` of the first four bytes, if there are four.
unfoldable pub header_length : Bytes → Option ℕ
header_length (a ∷ b ∷ c ∷ d ∷ rest) = some (a * 2 ^ 24 + b * 2 ^ 16 + c * 2 ^ 8 + d)
header_length (a ∷ b ∷ c ∷ []) = none
header_length (a ∷ b ∷ []) = none
header_length (a ∷ []) = none
header_length [] = none

pub header_length-be_bytes4 :
    (n : ℕ) (rest : Bytes) → n < 2 ^ 32 → header_length (be_bytes4 n ++ rest) ≡ some n
unfolding header_length
header_length-be_bytes4 n rest small =
    let e : n / 2 ^ 24 % 256 * 2 ^ 24
          + n / 2 ^ 16 % 256 * 2 ^ 16
          + n / 2 ^ 8 % 256 * 2 ^ 8
          + n % 256
        ≡ n =
      omega arith in
    ap some e

pub header_length-append :
    (s t : Bytes) (n : ℕ) → header_length s ≡ some n → header_length (s ++ t) ≡ some n
unfolding header_length
header_length-append (a ∷ b ∷ c ∷ d ∷ rest) t n h = h
header_length-append (a ∷ b ∷ c ∷ []) t n h = cc
header_length-append (a ∷ b ∷ []) t n h = cc
header_length-append (a ∷ []) t n h = cc
header_length-append [] t n h = cc

pub header_length-long : (s : Bytes) (n : ℕ) → header_length s ≡ some n → 4 ≤ length s
unfolding header_length
header_length-long (a ∷ b ∷ c ∷ d ∷ rest) n h = omega arith
header_length-long (a ∷ b ∷ c ∷ []) n h = cc
header_length-long (a ∷ b ∷ []) n h = cc
header_length-long (a ∷ []) n h = cc
header_length-long [] n h = cc

pub header_length_total : (s : Bytes) → 4 ≤ length s → (n : ℕ) × (header_length s ≡ some n)
unfolding header_length
header_length_total (a ∷ b ∷ c ∷ d ∷ rest) h = (_, refl)
header_length_total (a ∷ b ∷ c ∷ []) h = absurd (omega arith)
header_length_total (a ∷ b ∷ []) h = absurd (omega arith)
header_length_total (a ∷ []) h = absurd (omega arith)
header_length_total [] h = absurd (omega arith)

module _ {ℓ} {A : Type ℓ} where
  abbrev pub take : ℕ → List A → List A
  take zero xs = []
  take (suc n) [] = []
  take (suc n) (x ∷ xs) = x ∷ take n xs

  abbrev pub drop : ℕ → List A → List A
  drop zero xs = xs
  drop (suc n) [] = []
  drop (suc n) (x ∷ xs) = drop n xs

  pub take-drop : (n : ℕ) (xs : List A) → take n xs ++ drop n xs ≡ xs
  take-drop zero xs = refl
  take-drop (suc n) [] = refl
  take-drop (suc n) (x ∷ xs) = cc (take-drop n xs)

  pub length-take : (n : ℕ) (xs : List A) → n ≤ length xs → length (take n xs) ≡ n
  length-take zero xs h = refl
  length-take (suc n) [] h = absurd (omega arith)
  length-take (suc n) (x ∷ xs) h = omega (arith, length-take n xs)

  pub length-drop-le : (n : ℕ) (xs : List A) → length (drop n xs) ≤ length xs
  length-drop-le n xs =
      omega (arith, length-append (take n xs) (drop n xs), ap length (take-drop n xs))

  -- A prefix of a text that is at least as long as another prefix begins with that.
  pub take-append :
      (xs ys b i : List A)
      → b ++ i ≡ xs ++ ys
      → length xs ≤ length b
      → (take (length xs) b ≡ xs) × (drop (length xs) b ++ i ≡ ys)
  take-append [] ys b i e h = (refl, e)
  take-append (x ∷ xs) ys [] i e h = absurd (omega arith)
  take-append (x ∷ xs) ys (y ∷ b) i e h =
      ground (arith, e, take-append xs ys b i (cc) (omega arith))
