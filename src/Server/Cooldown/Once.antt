-- ===== src/Server/Cooldown/Once.antt =====
-- A host that src/server.rs reserved for a client is not reserved again within the cooldown.
use remote_open_power.Base.{
  Bytes, true, false, List, [], ◌∷◌, some, ◌+◌, ◌<◌, ◌≤◌, any, contains, is_empty, is_some_and,
  if◌then◌else◌, nat_eq, list_eq, list_eq?, get, insert, retain, Instant, All, Distinct, arith, ◌≡◌,
  refl, Bool-cases, inl, inr, get-insert, get-retain, Distinct-retain,
}
use remote_open_power.Server.Limits.{wake_cooldown}
use remote_open_power.Server.Cooldown.{
  Targets, WakeCooldowns, recent, drop_stale, is_blocked, insert_all, or_default,
  reserve_wake_targets, Event, step, run, granted, grants,
}
use remote_open_power.Server.Cooldown.Keys.{
  IsValid, Distinct-insert_all, IsValid-get, drop_stale-IsValid, run-IsValid,
}

-- The client's last reservation of the host is not over before `t`.
pub record Held (client host : Bytes) (t : Instant) (m : WakeCooldowns) : Type 0 where
  pub targets : Targets
  pub since : Instant
  pub stored : get client m ≡ some targets
  pub keys : Distinct targets
  pub reserved : get host targets ≡ some since
  pub lasts : t ≤ since + wake_cooldown

nonempty_of_get :
    (host : Bytes) (v : Instant) (ts : Targets) → get host ts ≡ some v → is_empty ts ≡ false
unfolding get
nonempty_of_get host v [] h = cc
nonempty_of_get host v (x ∷ ts) h = refl

get-drop_stale :
    (client : Bytes) (now : Instant) (m : WakeCooldowns) (ts : Targets)
    → get client m ≡ some ts
    → is_empty (retain (recent now) ts) ≡ false
    → get client (drop_stale now m) ≡ some (retain (recent now) ts)
unfolding get drop_stale
get-drop_stale client now [] ts h full = cc
get-drop_stale client now ((c, us) ∷ m) ts h full = ground (arith, get-drop_stale client now m ts)

drop_stale-Held :
    (client host : Bytes) (t now : Instant) (m : WakeCooldowns)
    → now < t
    → Held client host t m
    → Held client host t (drop_stale now m)
drop_stale-Held client host t now m early h =
    let kept : get host (retain (recent now) h.targets) ≡ some h.since =
      rw (get-retain (recent now) host h.targets h.keys, h.reserved) (ground (arith, h.lasts)) in
    record {
      targets = retain (recent now) h.targets;
      since = h.since;
      stored =
          get-drop_stale client now m h.targets h.stored
            (nonempty_of_get host h.since (retain (recent now) h.targets) kept);
      keys = Distinct-retain (recent now) h.targets h.keys;
      reserved = kept;
      lasts = h.lasts;
    }

get-insert_all :
    (host : Bytes) (host_ids : List Bytes) (now : Instant) (ts : Targets)
    → get host (insert_all host_ids now ts)
      ≡ (if contains host_ids host then some now else get host ts)
unfolding insert_all
get-insert_all host [] now ts = refl
get-insert_all host (x ∷ xs) now ts =
    ground (arith, get-insert_all host xs now (insert x now ts), get-insert x host now ts)

blocked_any :
    (host : Bytes) (host_ids : List Bytes) (now : Instant) (ts : Targets) (v : Instant)
    → contains host_ids host ≡ true
    → get host ts ≡ some v
    → recent now host v ≡ true
    → any (λ host_id. is_some_and (get host_id ts) (recent now host_id)) host_ids ≡ true
blocked_any host [] now ts v m g r = cc
blocked_any host (x ∷ xs) now ts v m g r = ground (arith, blocked_any host xs now ts v)

Held-blocks :
    (client host : Bytes) (t now : Instant) (m : WakeCooldowns) (host_ids : List Bytes)
    → now < t
    → contains host_ids host ≡ true
    → Held client host t m
    → is_blocked m client host_ids now ≡ true
unfolding is_blocked
Held-blocks client host t now m host_ids early mem h =
    rw h.stored
      (blocked_any host host_ids now h.targets h.since mem h.reserved (ground (arith, h.lasts)))

-- The entry of the client that reserves.
grow-Held :
    (c client host : Bytes) (t now : Instant) (m : WakeCooldowns) (host_ids : List Bytes)
    → t ≤ now + wake_cooldown
    → Held client host t m
    → Held client host t (insert c (insert_all host_ids now (or_default (get c m))) m)
grow-Held c client host t now m host_ids soon h = elim (list_eq? c client) [
  | no p ↦ record {
    targets = h.targets;
    since = h.since;
    stored = rw get-insert (ground (arith, h.stored));
    keys = h.keys;
    reserved = h.reserved;
    lasts = h.lasts;
  }
  | yes p ↦ record {
    targets = insert_all host_ids now h.targets;
    since = if contains host_ids host then now else h.since;
    stored = rw (p, h.stored, get-insert) (ground arith);
    keys = Distinct-insert_all host_ids now h.targets h.keys;
    reserved = ground (arith, get-insert_all host host_ids now h.targets, h.reserved);
    lasts = ground (arith, h.lasts);
  }
]

step-Held :
    (client host : Bytes) (t : Instant) (m : WakeCooldowns) (e : Event)
    → e.now < t
    → t ≤ e.now + wake_cooldown
    → Held client host t m
    → Held client host t (step m e)
unfolding reserve_wake_targets
step-Held client host t m e early soon h =
    let kept = drop_stale-Held client host t e.now m early h in
    elim (Bool-cases (is_blocked (drop_stale e.now m) e.client_key e.host_ids e.now)) [
      | inl b ↦ rw (b, step, reserve_wake_targets) kept
      | inr b ↦
          rw (b, step, reserve_wake_targets)
            (grow-Held e.client_key client host t e.now (drop_stale e.now m) e.host_ids soon kept)
    ]

Held-granted :
    (client host : Bytes) (t : Instant) (m : WakeCooldowns) (e : Event)
    → e.now < t
    → Held client host t m
    → granted client host m e ≡ 0
unfolding granted reserve_wake_targets
Held-granted client host t m e early h =
    let kept = drop_stale-Held client host t e.now m early h in
    ground (arith, Held-blocks client host t e.now (drop_stale e.now m) e.host_ids early)

abbrev pub Meanwhile : Instant → Instant → Event → Type 0
Meanwhile from to e = (from ≤ e.now) × (e.now < to)

Held-grants :
    (client host : Bytes) (from : Instant) (m : WakeCooldowns) (es : List Event)
    → Held client host (from + wake_cooldown) m
    → All (Meanwhile from (from + wake_cooldown)) es
    → grants client host m es ≡ 0
unfolding grants
Held-grants client host from m [] h within = refl
Held-grants client host from m (e ∷ es) h within = omega (
  arith,
  Held-granted client host (from + wake_cooldown) m e within.0.1 h,
  Held-grants client host from (step m e) es
      (step-Held client host (from + wake_cooldown) m e within.0.1 (omega arith) h) within.1,
)

granted-Held :
    (client host : Bytes) (m : WakeCooldowns) (e : Event)
    → IsValid m
    → granted client host m e ≡ 1
    → Held client host (e.now + wake_cooldown) (step m e)
unfolding granted reserve_wake_targets
granted-Held client host m e v one =
    let pruned = drop_stale e.now m in
    let ts = or_default (get e.client_key pruned) in
    let d = IsValid-get e.client_key pruned (drop_stale-IsValid e.now m v) in
    let same : e.client_key ≡ client = ground arith in
    let open_ : is_blocked pruned e.client_key e.host_ids e.now ≡ false = ground arith in
    let mem : contains e.host_ids host ≡ true = ground arith in
    rw (open_, step, reserve_wake_targets)
      (record {
        targets = insert_all e.host_ids e.now ts;
        since = e.now;
        stored = rw get-insert (ground (arith, same));
        keys = Distinct-insert_all e.host_ids e.now ts d;
        reserved = rw (get-insert_all, mem) refl;
        lasts = omega arith;
      })

-- After any history from no reservations: once an event reserves a host for a client, no history of
-- reservations at times from it on and less than ten seconds after it gives the same client that host.
pub cooldown_once :
    (client host : Bytes) (before : List Event) (e : Event) (es : List Event)
    → granted client host (run [] before) e ≡ 1
    → All (Meanwhile e.now (e.now + wake_cooldown)) es
    → grants client host (step (run [] before) e) es ≡ 0
unfolding IsValid
cooldown_once client host before e es one within =
    Held-grants client host e.now (step (run [] before) e) es
      (granted-Held client host (run [] before) e (run-IsValid [] before tt) one) within
