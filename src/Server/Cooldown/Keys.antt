-- ===== src/Server/Cooldown/Keys.antt =====
-- No host is stored twice for a client in the cooldown table of src/server.rs.
use remote_open_power.Base.{
  Bytes, List, [], ◌∷◌, nat_eq, list_eq, get, insert, Instant, All, Distinct, arith, Bool-cases,
  inl, inr, Distinct-retain, Distinct-insert,
}
use remote_open_power.Server.Cooldown.{
  Targets, WakeCooldowns, recent, drop_stale, is_blocked, insert_all, or_default,
  reserve_wake_targets, Event, step, run,
}

pub Distinct-insert_all :
    (host_ids : List Bytes) (now : Instant) (ts : Targets)
    → Distinct ts
    → Distinct (insert_all host_ids now ts)
unfolding insert_all
Distinct-insert_all [] now ts d = d
Distinct-insert_all (x ∷ xs) now ts d =
    Distinct-insert_all xs now (insert x now ts) (Distinct-insert x now ts d)

-- No host is stored twice for a client.
unfoldable pub IsValid : WakeCooldowns → Type 0
IsValid m = All (λ (x : Bytes × Targets). Distinct x.1) m

pub IsValid-get :
    (client : Bytes) (m : WakeCooldowns) → IsValid m → Distinct (or_default (get client m))
unfolding IsValid get
IsValid-get client [] v = tt
IsValid-get client ((c, ts) ∷ m) v = ground (arith, IsValid-get client m v.1)

pub drop_stale-IsValid :
    (now : Instant) (m : WakeCooldowns) → IsValid m → IsValid (drop_stale now m)
unfolding IsValid drop_stale
drop_stale-IsValid now [] v = tt
drop_stale-IsValid now ((c, ts) ∷ m) v =
    ground (arith, Distinct-retain (recent now) ts v.0, drop_stale-IsValid now m v.1)

pub insert-IsValid :
    (c : Bytes) (ts : Targets) (m : WakeCooldowns)
    → Distinct ts
    → IsValid m
    → IsValid (insert c ts m)
unfolding IsValid insert
insert-IsValid c ts [] d v = (d, tt)
insert-IsValid c ts ((x, us) ∷ m) d v = ground (arith, insert-IsValid c ts m d v.1)

pub step-IsValid : (m : WakeCooldowns) (e : Event) → IsValid m → IsValid (step m e)
unfolding reserve_wake_targets
step-IsValid m e v =
    let pruned = drop_stale-IsValid e.now m v in
    elim (Bool-cases (is_blocked (drop_stale e.now m) e.client_key e.host_ids e.now)) [
      | inl b ↦ rw (b, step, reserve_wake_targets) pruned
      | inr b ↦
          rw (b, step, reserve_wake_targets)
            (insert-IsValid e.client_key _ (drop_stale e.now m)
              (Distinct-insert_all e.host_ids e.now _
                (IsValid-get e.client_key (drop_stale e.now m) pruned))
              pruned)
    ]

pub run-IsValid : (m : WakeCooldowns) (es : List Event) → IsValid m → IsValid (run m es)
unfolding run
run-IsValid m [] v = v
run-IsValid m (e ∷ es) v = run-IsValid (step m e) es (step-IsValid m e v)
