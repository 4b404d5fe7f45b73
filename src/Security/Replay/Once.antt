-- ===== src/Security/Replay/Once.antt =====
-- A nonce that the replay cache of src/security.rs holds is not accepted again.
use remote_open_power.Base.{
  Bool, true, false, List, [], ◌∷◌, All, some, leb, ◌+◌, ◌≤◌, ◌<◌, length, if◌then◌else◌, nat_eq,
  list_eq, ◌≡◌, refl, get, insert, retain, count, contains_key, Instant, arith, Distinct,
  get-retain, get-insert, Option-cases, inl, inr,
}
use remote_open_power.Security.Replay.{
  NonceKey, nonce_key_eq, NonceKey_eq?, ReplayEntry, ReplayMap, live, of_client, pending_of,
  reserve, confirm, Call, Event, perform, step, accepted, acceptances, max_replay_entries,
  max_replay_entries_per_client, max_pending_replays_per_client, replay_ttl, pending_replay_ttl,
}
use remote_open_power.Security.Replay.Bounds.{IsValid, perform-IsValid}

-- The nonce is stored and does not expire before `t`.
pub record Held (k : NonceKey) (t : Instant) (m : ReplayMap) : Type 0 where
  pub entry : ReplayEntry
  pub stored : get k m ≡ some entry
  pub lasts : t ≤ entry.expires

retain-Held :
    (m : ReplayMap) (k : NonceKey) (t now : Instant)
    → Distinct m
    → now < t
    → Held k t m
    → Held k t (retain (live now) m)
retain-Held m k t now d early h = record {
  entry = h.entry;
  stored = rw (get-retain (live now) k m d, h.stored) (ground (arith, h.lasts));
  lasts = h.lasts;
}

insert-Held :
    (m : ReplayMap) (key k : NonceKey) (t : Instant) (e : ReplayEntry)
    → (key ≡ k → t ≤ e.expires)
    → Held k t m
    → Held k t (insert key e m)
insert-Held m key k t e late h = elim (NonceKey_eq? key k) [
  | yes p ↦ record { entry = e; stored = rw get-insert (ground arith); lasts = late p }
  | no p ↦ record {
    entry = h.entry;
    stored = rw get-insert (ground (arith, h.stored));
    lasts = h.lasts;
  }
]

choose-Held :
    (k : NonceKey) (t : Instant) (b : Bool) (x y : ReplayMap × Bool)
    → Held k t x.0
    → Held k t y.0
    → Held k t (if b then x else y).0
choose-Held k t true x y hx hy = hx
choose-Held k t false x y hx hy = hy

Held-reserve :
    (m : ReplayMap) (k : NonceKey) (t now : Instant)
    → Held k t (retain (live now) m)
    → reserve m k now ≡ (retain (live now) m, false)
unfolding reserve
Held-reserve m k t now h = rw (h.stored, reserve) refl

reserve-Held :
    (m : ReplayMap) (key k : NonceKey) (t now : Instant)
    → Distinct m
    → now < t
    → Held k t m
    → Held k t (reserve m key now).0
unfolding reserve
reserve-Held m key k t now d early h =
    let kept = retain-Held m k t now d early h in
    let entries = retain (live now) m in
    elim (NonceKey_eq? key k) [
      | yes p ↦ rw (p, Held-reserve m k t now kept) kept
      | no p ↦
          choose-Held k t (contains_key key entries) (entries, false) _ kept
            (choose-Held k t
              (leb max_replay_entries_per_client (count (of_client key.client_key) entries))
              (entries, false) _ kept
              (choose-Held k t
                (leb max_pending_replays_per_client (count (pending_of key.client_key) entries))
                (entries, false) _ kept
                (choose-Held k t (leb max_replay_entries (length entries)) (entries, false)
                  (
                    insert key (record { expires = now + pending_replay_ttl; confirmed = false })
                        entries,
                    true,
                  )
                  kept (insert-Held entries key k t _ (λ q. absurd (p q)) kept))))
    ]

confirm-Held :
    (m : ReplayMap) (key k : NonceKey) (t now : Instant)
    → Distinct m
    → now < t
    → t ≤ now + replay_ttl
    → Held k t m
    → Held k t (confirm m key now).0
unfolding confirm
confirm-Held m key k t now d early soon h =
    let kept = retain-Held m k t now d early h in
    elim (Option-cases (get key (retain (live now) m))) [
      | inl free ↦ rw (free, confirm) kept
      | inr (e, held) ↦ rw (held, confirm) (insert-Held _ key k t _ (λ _. omega arith) kept)
    ]

perform-Held :
    (m : ReplayMap) (k : NonceKey) (t now : Instant) (c : Call)
    → Distinct m
    → now < t
    → t ≤ now + replay_ttl
    → Held k t m
    → Held k t (perform m now c).0
unfolding perform
perform-Held m k t now (Call.reserves key) d early soon h = reserve-Held m key k t now d early h
perform-Held m k t now (Call.confirms key) d early soon h =
    confirm-Held m key k t now d early soon h

Held-accepted :
    (m : ReplayMap) (k : NonceKey) (t now : Instant) (c : Call)
    → Distinct m
    → now < t
    → Held k t m
    → accepted k m now c ≡ 0
unfolding accepted
Held-accepted m k t now (Call.reserves key) d early h = elim (NonceKey_eq? key k) [
  | yes p ↦ rw (p, Held-reserve m k t now (retain-Held m k t now d early h)) (ground arith)
  | no p ↦ ground arith
]
Held-accepted m k t now (Call.confirms key) d early h = refl

abbrev pub Meanwhile : Instant → Instant → Event → Type 0
Meanwhile from to e = (from ≤ e.now) × (e.now < to)

Held-acceptances :
    (k : NonceKey) (from to : Instant) (m : ReplayMap) (es : List Event)
    → to ≤ from + replay_ttl
    → IsValid m
    → Held k to m
    → All (Meanwhile from to) es
    → acceptances k m es ≡ 0
unfolding acceptances
Held-acceptances k from to m [] near v h within = refl
Held-acceptances k from to m (e ∷ es) near v h within = omega (
  arith,
  Held-accepted m k to e.now e.call v.keys within.0.1 h,
  Held-acceptances k from to (step m e) es near (perform-IsValid m e.now e.call v)
      (perform-Held m k to e.now e.call v.keys within.0.1 (omega arith) h) within.1,
)

reserve-true :
    (m : ReplayMap) (k : NonceKey) (now : Instant)
    → (reserve m k now).1 ≡ true
    → (reserve m k now).0
      ≡ insert k
          (record { expires = now + pending_replay_ttl; confirmed = false })
          (retain (live now) m)
unfolding reserve
reserve-true m k now h = ground arith

confirm-true :
    (m : ReplayMap) (k : NonceKey) (now : Instant)
    → (confirm m k now).1 ≡ true
    → (confirm m k now).0
      ≡ insert k (record { expires = now + replay_ttl; confirmed = true }) (retain (live now) m)
unfolding confirm
confirm-true m k now h = ground arith

-- From any valid cache: after a successful `reserve`, no history of calls at times from it on and
-- less than six seconds after it lets a handshake with the same client and nonce through.
pub reserve_once :
    (m : ReplayMap) (k : NonceKey) (now : Instant) (es : List Event)
    → IsValid m
    → (reserve m k now).1 ≡ true
    → All (Meanwhile now (now + pending_replay_ttl)) es
    → acceptances k (reserve m k now).0 es ≡ 0
unfolding perform
reserve_once m k now es v won within =
    Held-acceptances k now (now + pending_replay_ttl) (reserve m k now).0 es (omega arith)
      (perform-IsValid m now (Call.reserves k) v)
      (record {
        entry = record { expires = now + pending_replay_ttl; confirmed = false };
        stored = rw (reserve-true m k now won, get-insert) (ground arith);
        lasts = omega arith;
      })
      within

-- From any valid cache: after a successful `confirm`, no history of calls at times from it on and
-- less than three minutes after it lets a handshake with the same client and nonce through.
pub confirm_once :
    (m : ReplayMap) (k : NonceKey) (now : Instant) (es : List Event)
    → IsValid m
    → (confirm m k now).1 ≡ true
    → All (Meanwhile now (now + replay_ttl)) es
    → acceptances k (confirm m k now).0 es ≡ 0
unfolding perform
confirm_once m k now es v won within =
    Held-acceptances k now (now + replay_ttl) (confirm m k now).0 es (omega arith)
      (perform-IsValid m now (Call.confirms k) v)
      (record {
        entry = record { expires = now + replay_ttl; confirmed = true };
        stored = rw (confirm-true m k now won, get-insert) (ground arith);
        lasts = omega arith;
      })
      within
