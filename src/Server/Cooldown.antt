-- ===== src/Server/Cooldown.antt =====
-- The wake cooldown of src/server.rs: `reserve_wake_targets_for_client`.
pub mod Keys
pub mod Once
use remote_open_power.Base.{
  ℕ, Bytes, Bool, true, false, List, [], ◌∷◌, Option, none, some, ◌+◌, ◌-◌, ◌==◌, ltb, not, any,
  contains, is_empty, is_some_and, if◌then◌else◌, nat_eq, list_eq, Dict, get, insert, retain,
  Instant, All, Distinct,
}
use remote_open_power.Server.Limits.{wake_cooldown}

-- For each client the time of the last reservation of each host.
abbrev pub Targets : Type 0
Targets = Dict Bytes Instant

abbrev pub WakeCooldowns : Type 0
WakeCooldowns = Dict Bytes Targets

-- `duration_since` is the truncated difference.
abbrev pub recent : Instant → Bytes → Instant → Bool
recent now _ value = ltb (now - value) wake_cooldown

unfoldable pub drop_stale : Instant → WakeCooldowns → WakeCooldowns
drop_stale now [] = []
drop_stale now ((client, targets) ∷ rest) =
    let targets' = retain (recent now) targets in
    if is_empty targets' then drop_stale now rest else (client, targets') ∷ drop_stale now rest

unfoldable pub is_blocked : WakeCooldowns → Bytes → List Bytes → Instant → Bool
is_blocked m client_key host_ids now =
    is_some_and (get client_key m)
      λ targets. any (λ host_id. is_some_and (get host_id targets) (recent now host_id)) host_ids

unfoldable pub insert_all : List Bytes → Instant → Targets → Targets
insert_all [] now targets = targets
insert_all (host_id ∷ host_ids) now targets = insert_all host_ids now (insert host_id now targets)

abbrev pub or_default : Option Targets → Targets
or_default none = []
or_default (some targets) = targets

unfoldable pub reserve_wake_targets :
    WakeCooldowns → Bytes → List Bytes → Instant → WakeCooldowns × Bool
reserve_wake_targets m client_key host_ids now =
    let pruned = drop_stale now m in
    if is_blocked pruned client_key host_ids now then (pruned, false) else (
      insert client_key (insert_all host_ids now (or_default (get client_key pruned))) pruned,
      true,
    )

-- A reservation by a client at a time.
pub record Event : Type 0 where
  pub client_key : Bytes
  pub host_ids : List Bytes
  pub now : Instant

abbrev pub step : WakeCooldowns → Event → WakeCooldowns
step m e = (reserve_wake_targets m e.client_key e.host_ids e.now).0

unfoldable pub run : WakeCooldowns → List Event → WakeCooldowns
run m [] = m
run m (e ∷ es) = run (step m e) es

-- How many reservations of a history give a client a host.
unfoldable pub granted : Bytes → Bytes → WakeCooldowns → Event → ℕ
granted client host m e =
    if e.client_key == client
    then (if contains e.host_ids host
        then (if (reserve_wake_targets m e.client_key e.host_ids e.now).1 then 1 else 0)
        else 0)
    else 0

unfoldable pub grants : Bytes → Bytes → WakeCooldowns → List Event → ℕ
grants client host m [] = 0
grants client host m (e ∷ es) = granted client host m e + grants client host (step m e) es
