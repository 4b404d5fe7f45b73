-- ===== src/Server/Host/Access.antt =====
-- Which hosts `authorized_hosts` of src/server.rs lets a client name.
use remote_open_power.Base.{
  ℕ, Bytes, true, false, List, [], ◌∷◌, some, ok, ◌≡◌, ◌≢◌, ◌≤◌, refl, arith, length, contains,
  nat_eq, list_eq, Dict, get, Result-cases, Option-cases, inl, inr, ◌↔◌, ◌⊎◌,
}
use remote_open_power.Server.Host.{HostEntry, authorize_each, authorized_hosts}

-- The identifiers are allowed, none of them in `seen` or twice, and the entries are what the
-- configuration has for them, in their order.
abbrev pub AreAuthorized :
    Dict Bytes HostEntry → List Bytes → List Bytes → List Bytes → List HostEntry → Type 0
AreAuthorized hosts allowed_hosts seen [] [] = Unit
AreAuthorized hosts allowed_hosts seen [] (entry ∷ entries) = ⊥
AreAuthorized hosts allowed_hosts seen (host_id ∷ host_ids) [] = ⊥
AreAuthorized hosts allowed_hosts seen (host_id ∷ host_ids) (entry ∷ entries) =
    (contains seen host_id ≡ false)
    × (contains allowed_hosts host_id ≡ true)
    × (get host_id hosts ≡ some entry)
    × AreAuthorized hosts allowed_hosts (host_id ∷ seen) host_ids entries

authorize_each-AreAuthorized :
    (hosts : Dict Bytes HostEntry) (allowed_hosts seen host_ids : List Bytes)
    (entries : List HostEntry)
    → authorize_each hosts allowed_hosts seen host_ids ≡ ok entries
    → AreAuthorized hosts allowed_hosts seen host_ids entries
unfolding authorize_each
authorize_each-AreAuthorized hosts allowed_hosts seen [] [] h = tt
authorize_each-AreAuthorized hosts allowed_hosts seen [] (entry ∷ entries) h = absurd (ground arith)
authorize_each-AreAuthorized hosts allowed_hosts seen (host_id ∷ host_ids) entries h =
    elim (Option-cases (get host_id hosts)) [
      | inl a ↦ absurd (ground (arith, a))
      | inr (found, a) ↦
          elim (Result-cases (authorize_each hosts allowed_hosts (host_id ∷ seen) host_ids)) [
            | inr (x, b) ↦ absurd (ground (arith, a, b))
            | inl (rest, b) ↦
                let same : entries ≡ found ∷ rest = ground (arith, a, b, h) in
                rw same (
                  ground (arith, a, b, h),
                  ground (arith, a, b, h),
                  a,
                  authorize_each-AreAuthorized hosts allowed_hosts (host_id ∷ seen) host_ids rest b,
                )
          ]
    ]

AreAuthorized-authorize_each :
    (hosts : Dict Bytes HostEntry) (allowed_hosts seen host_ids : List Bytes)
    (entries : List HostEntry)
    → AreAuthorized hosts allowed_hosts seen host_ids entries
    → authorize_each hosts allowed_hosts seen host_ids ≡ ok entries
unfolding authorize_each
AreAuthorized-authorize_each hosts allowed_hosts seen [] [] h = refl
AreAuthorized-authorize_each hosts allowed_hosts seen [] (entry ∷ entries) h = absurd h
AreAuthorized-authorize_each hosts allowed_hosts seen (host_id ∷ host_ids) [] h = absurd h
AreAuthorized-authorize_each hosts allowed_hosts seen (host_id ∷ host_ids) (entry ∷ entries)
      (new, allowed, found, rest) =
    ground (
      arith,
      new,
      allowed,
      found,
      AreAuthorized-authorize_each hosts allowed_hosts (host_id ∷ seen) host_ids entries rest,
    )

-- `authorized_hosts` returns entries exactly when there is at least one identifier and no more than
-- the maximum, no identifier is repeated, each is among the allowed ones, and the entries are those
-- that the configuration has for the identifiers, in their order.
pub authorized_hosts_iff :
    (hosts : Dict Bytes HostEntry) (allowed_hosts host_ids : List Bytes) (maximum : ℕ)
    (entries : List HostEntry)
    → (authorized_hosts hosts allowed_hosts host_ids maximum ≡ ok entries) ↔ (
        (host_ids ≢ [])
        × (length host_ids ≤ maximum)
        × AreAuthorized hosts allowed_hosts [] host_ids entries)
unfolding authorized_hosts
authorized_hosts_iff hosts allowed_hosts host_ids maximum entries = (
  λ h. (
    (λ e. ground arith),
    ground arith,
    authorize_each-AreAuthorized hosts allowed_hosts [] host_ids entries (ground arith),
  ),
  λ (some_id, few, each). ground (
    arith,
    some_id,
    few,
    AreAuthorized-authorize_each hosts allowed_hosts [] host_ids entries each,
  ),
)

-- Whether an entry stands in the list.
abbrev pub Among : List HostEntry → HostEntry → Type 0
Among [] entry = ⊥
Among (x ∷ xs) entry = (x ≡ entry) ⊎ Among xs entry

-- The identifier under which an authorized entry was asked for.
pub record Asked (hosts : Dict Bytes HostEntry) (allowed_hosts host_ids : List Bytes)
    (entry : HostEntry) : Type 0 where
  pub host_id : Bytes
  pub requested : contains host_ids host_id ≡ true
  pub allowed : contains allowed_hosts host_id ≡ true
  pub configured : get host_id hosts ≡ some entry

pub Among-Asked :
    (hosts : Dict Bytes HostEntry) (allowed_hosts seen host_ids : List Bytes)
    (entries : List HostEntry) (entry : HostEntry)
    → AreAuthorized hosts allowed_hosts seen host_ids entries
    → Among entries entry
    → Asked hosts allowed_hosts host_ids entry
Among-Asked hosts allowed_hosts seen [] [] entry a m = absurd m
Among-Asked hosts allowed_hosts seen [] (x ∷ xs) entry a m = absurd a
Among-Asked hosts allowed_hosts seen (i ∷ is) [] entry a m = absurd m
Among-Asked hosts allowed_hosts seen (i ∷ is) (x ∷ xs) entry (new, allowed, found, rest) (inl p) =
    record { host_id = i; requested = ground arith; allowed = allowed; configured = cc }
Among-Asked hosts allowed_hosts seen (i ∷ is) (x ∷ xs) entry (new, allowed, found, rest) (inr m) =
    let asked = Among-Asked hosts allowed_hosts (i ∷ seen) is xs entry rest m in
    record {
      host_id = asked.host_id;
      requested = ground (arith, asked.requested);
      allowed = asked.allowed;
      configured = asked.configured;
    }
