-- ===== src/Client/Batches.antt =====
-- The batches in which the actor of src/client.rs asks for the states of hosts.
use remote_open_power.Base.{
  ℕ, zero, suc, List, [], ◌∷◌, ◌++◌, ◌+◌, ◌-◌, ◌/◌, All, ◌≡◌, ◌≤◌, ◌<◌, ◌∙◌, ap, refl, arith,
  length, take, drop, take-drop, length-drop-le,
}
use remote_open_power.Client.Handle.{chunks, chunks_in}

-- `concat`
abbrev pub concat {ℓ} : {A : Type ℓ} → List (List A) → List A
concat [] = []
concat (xs ∷ xss) = xs ++ concat xss

abbrev pub IsBatch {ℓ} : {A : Type ℓ} → ℕ → List A → Type 0
IsBatch n xs = (0 < length xs) × (length xs ≤ n)

take_bounded {ℓ} : {A : Type ℓ} (n : ℕ) (xs : List A) → length (take n xs) ≤ n
take_bounded zero xs = omega arith
take_bounded (suc n) [] = omega arith
take_bounded (suc n) (x ∷ xs) = omega (arith, take_bounded n xs)

in_batches {ℓ} :
    {A : Type ℓ} (fuel n : ℕ) (xs : List A)
    → length xs ≤ fuel
    → (concat (chunks_in fuel (suc n) xs) ≡ xs) × All (IsBatch (suc n)) (chunks_in fuel (suc n) xs)
unfolding chunks_in
in_batches zero n [] h = (refl, tt)
in_batches zero n (x ∷ xs) h = absurd (omega (arith, h))
in_batches (suc fuel) n [] h = (refl, tt)
in_batches (suc fuel) n (x ∷ xs) h =
    let rest = drop n xs in
    let shorter : length rest ≤ fuel = omega (arith, h, length-drop-le n xs) in
    let (all_of, bounded) = in_batches fuel n rest shorter in
    (
      ap (λ ys. (x ∷ take n xs) ++ ys) all_of ∙ ap (λ ys. x ∷ ys) (take-drop n xs),
      ((omega arith, omega (arith, take_bounded n xs)), bounded),
    )

length-drop {ℓ} : {A : Type ℓ} (n : ℕ) (xs : List A) → length (drop n xs) ≡ length xs - n
length-drop zero xs = omega arith
length-drop (suc n) [] = omega arith
length-drop (suc n) (x ∷ xs) = omega (arith, length-drop n xs)

chunks_number {ℓ} :
    {A : Type ℓ} (fuel : ℕ) (xs : List A)
    → length xs ≤ fuel
    → length (chunks_in fuel 8 xs) ≡ (length xs + 7) / 8
unfolding chunks_in
chunks_number zero [] h = omega arith
chunks_number zero (x ∷ xs) h = absurd (omega (arith, h))
chunks_number (suc fuel) [] h = omega arith
chunks_number (suc fuel) (x ∷ xs) h =
    let rest : length (drop 7 xs) ≡ length xs - 7 = length-drop 7 xs in
    omega (arith, h, rest, chunks_number fuel (drop 7 xs) (omega (arith, h, rest)))

-- As many batches of eight as the elements divided by eight, rounded up.
pub length-chunks {ℓ} : {A : Type ℓ} (xs : List A) → length (chunks 8 xs) ≡ (length xs + 7) / 8
length-chunks xs = chunks_number (length xs) xs (omega arith)

-- The batches of a size above zero hold the list in order, and each holds at least one element and
-- at most the size.
pub chunks-IsBatch {ℓ} :
    {A : Type ℓ} (n : ℕ) (xs : List A)
    → 0 < n
    → (concat (chunks n xs) ≡ xs) × All (IsBatch n) (chunks n xs)
chunks-IsBatch zero xs h = absurd (omega (arith, h))
chunks-IsBatch (suc n) xs h = in_batches (length xs) n xs (omega arith)
