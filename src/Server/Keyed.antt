-- ===== src/Server/Keyed.antt =====
-- `KeyedConnectionLimiter` of src/server.rs: at most `maximum` permits for each key. `lock` makes
-- `acquire` and `release` atomic; a permit that is dropped calls `release` with its key.
pub mod Counts
use remote_open_power.Base.{
  ℕ, Bool, true, false, List, [], ◌∷◌, ◌++◌, Option, none, some, ◌+◌, ◌-◌, ◌==◌, leb, if◌then◌else◌,
  Eq, nat_eq, Dict, get, insert, remove, ◌≡◌,
}

module _ {K : Type 0} ⦃e : Eq K⦄ where
  -- `entry(key).or_insert(0)`: the map, and the count found.
  abbrev pub or_insert : Dict K ℕ → K → Dict K ℕ × ℕ
  or_insert active key = elim (get key active) [
    | some count ↦ (active, count)
    | none ↦ (insert key 0 active, 0)
  ]

  -- Whether a permit is given.
  unfoldable pub acquire : ℕ → Dict K ℕ → K → Dict K ℕ × Bool
  acquire maximum active key =
      let (touched, count) = or_insert active key in
      if leb maximum count then (touched, false) else (insert key (count + 1) touched, true)

  unfoldable pub release : Dict K ℕ → K → Dict K ℕ
  release active key = elim (get key active) [
    | none ↦ active
    | some count ↦ if count - 1 == 0 then remove key active else insert key (count - 1) active
  ]

-- The limiter, and the keys of the permits that have not been dropped.
pub record World (K : Type 0) : Type 0 where
  pub active : Dict K ℕ
  pub permits : List K

module _ {K : Type 0} ⦃e : Eq K⦄ where
  unfoldable pub acquired : ℕ → World K → K → World K
  acquired maximum w key =
      let (active', given) = acquire maximum w.active key in
      record { active = active'; permits = if given then key ∷ w.permits else w.permits }

  -- One call, and any number of them from the new limiter.
  pub data Step (maximum : ℕ) : World K → World K → Type 0 where
    acquires : (w : World K) (key : K) → Step maximum w (acquired maximum w key)
    drops :
        (active : Dict K ℕ) (before : List K) (key : K) (after : List K)
        → Step maximum
            (record { active = active; permits = before ++ key ∷ after })
            (record { active = release active key; permits = before ++ after })

  pub data Reachable (maximum : ℕ) : World K → Type 0 where
    new : Reachable maximum (record { active = []; permits = [] })
    next : (w w' : World K) → Reachable maximum w → Step maximum w w' → Reachable maximum w'
