-- ===== src/Server/Ledger/Once.antt =====
-- An operation of the ledger of src/server.rs that was begun is not begun again while its entry
-- lasts.
use remote_open_power.Base.{
  ℕ, List, [], ◌∷◌, All, some, ◌+◌, ◌≤◌, ◌<◌, nat_eq, list_eq, ◌≡◌, ◌≢◌, refl, get, insert, Instant,
  arith, Distinct, get-insert, get-remove, Option-cases, inl, inr,
}
use remote_open_power.Server.Limits.{pending_ledger_ttl}
use remote_open_power.Server.Entry.{OperationKey, operation_key_eq, OperationKey_eq?, LedgerEntry}
use remote_open_power.Server.Ledger.{Ledger, prune, complete, forget}
use remote_open_power.Server.Ledger.Entries.{
  Move, keep, start, update, get-prune, begin_request-Move, begin_wake_attempt1-Move,
  begin_wake_attempt2-Move,
}
use remote_open_power.Server.Ledger.Calls.{
  Call, Event, perform, step, first_dispatch, first_dispatches,
}
use remote_open_power.Server.Ledger.Bounds.{IsValid, perform-IsValid}

-- The operation has an entry that does not expire before `t`.
pub record Held (k : OperationKey) (t : Instant) (l : Ledger) : Type 0 where
  pub entry : LedgerEntry
  pub stored : get k l.entries ≡ some entry
  pub lasts : t ≤ entry.expires

pruned-Held :
    (l : Ledger) (k : OperationKey) (t now : Instant)
    → Distinct l.entries
    → now < t
    → Held k t l
    → Held k t (prune l now)
pruned-Held l k t now d early h = record {
  entry = h.entry;
  stored = rw (get-prune l now k d, h.stored) (ground (arith, h.lasts));
  lasts = h.lasts;
}

insert-Held :
    (l l' : Ledger) (key k : OperationKey) (t : Instant) (e : LedgerEntry)
    → l'.entries ≡ insert key e l.entries
    → (key ≡ k → t ≤ e.expires)
    → Held k t l
    → Held k t l'
insert-Held l l' key k t e eq late h = elim (OperationKey_eq? key k) [
  | yes p ↦ record { entry = e; stored = rw (eq, get-insert) (ground arith); lasts = late p }
  | no p ↦ record {
    entry = h.entry;
    stored = rw (eq, get-insert) (ground (arith, h.stored));
    lasts = h.lasts;
  }
]

Move-Held :
    (l l' : Ledger) (key k : OperationKey) (t now : Instant) {f s : ℕ}
    → Distinct l.entries
    → now < t
    → t ≤ now + pending_ledger_ttl
    → Move l l' key now f s
    → Held k t l
    → Held k t l'
Move-Held l l' key k t now d early soon (keep e _ _) h =
    let p = pruned-Held l k t now d early h in
    record { entry = p.entry; stored = rw e p.stored; lasts = p.lasts }
Move-Held l l' key k t now d early soon (start x free _ x_expires r e) h =
    insert-Held (prune l now) l' key k t x e (λ _. omega arith) (pruned-Held l k t now d early h)
Move-Held l l' key k t now d early soon (update old x held x_expires r z e) h =
    let p = pruned-Held l k t now d early h in
    insert-Held (prune l now) l' key k t x e
      (λ same. ground (arith, p.stored, p.lasts, held, x_expires, same)) p

-- A call of `begin_wake_attempt1` that dispatches finds no entry.
Move-free :
    (l l' : Ledger) (key : OperationKey) (t now : Instant) {f s : ℕ}
    → Distinct l.entries
    → now < t
    → Move l l' key now f s
    → Held key t l
    → f ≡ 0
Move-free l l' key t now d early (keep e y z) h = y
Move-free l l' key t now d early (start x free _ _ r e) h =
    let p = pruned-Held l key t now d early h in ground (arith, p.stored, free)
Move-free l l' key t now d early (update old x held _ r z e) h = z

abbrev Spares : OperationKey → Call → Type 0
Spares k (Call.forgets key) = key ≢ k
Spares k _ = Unit

perform-Held :
    (l : Ledger) (k : OperationKey) (t now : Instant) (clock_ms : ℕ) (c : Call)
    → Distinct l.entries
    → now < t
    → t ≤ now + pending_ledger_ttl
    → Spares k c
    → Held k t l
    → Held k t (perform l now clock_ms c)
unfolding perform complete forget
perform-Held l k t now clock_ms (Call.request key digest) d early soon sp h =
    Move-Held l _ key k t now d early soon (begin_request-Move l key now digest) h
perform-Held l k t now clock_ms (Call.first_wake key digest version host_ids nonce ticket) d early
      soon sp h =
    Move-Held l _ key k t now d early soon
      (begin_wake_attempt1-Move l key now digest version host_ids nonce clock_ms ticket).move h
perform-Held l k t now clock_ms (Call.second_wake key retry) d early soon sp h =
    Move-Held l _ key k t now d early soon (begin_wake_attempt2-Move l key now retry clock_ms).move
      h
perform-Held l k t now clock_ms (Call.completes key response) d early soon sp h =
    elim (Option-cases (get key l.entries)) [
      | inl free ↦ rw (free, complete) h
      | inr (e, held) ↦ rw (held, complete) (insert-Held l _ key k t _ refl (λ _. omega arith) h)
    ]
perform-Held l k t now clock_ms (Call.forgets key) d early soon sp h = record {
  entry = h.entry;
  stored = rw get-remove (ground (arith, h.stored, sp));
  lasts = h.lasts;
}

perform-free :
    (l : Ledger) (k : OperationKey) (t now : Instant) (clock_ms : ℕ) (c : Call)
    → Distinct l.entries
    → now < t
    → Held k t l
    → first_dispatch k l now clock_ms c ≡ 0
unfolding first_dispatch
perform-free l k t now clock_ms (Call.first_wake key digest version host_ids nonce ticket) d early
      h =
    elim (OperationKey_eq? key k) [
      | yes p ↦ ground (
        arith,
        Move-free l _ key t now d early
            (begin_wake_attempt1-Move l key now digest version host_ids nonce clock_ms ticket).move
            (rw p h),
      )
      | no p ↦ ground arith
    ]
perform-free l k t now clock_ms c d early h = refl

-- What may happen in the meantime: calls at times from `from` on and before `to`, none of which
-- removes the entry of `k`.
abbrev pub Meanwhile : OperationKey → Instant → Instant → Event → Type 0
Meanwhile k from to e = (from ≤ e.now) × (e.now < to) × Spares k e.call

Held-first_dispatches :
    (k : OperationKey) (begun : Instant) (l : Ledger) (es : List Event)
    → IsValid l
    → Held k (begun + pending_ledger_ttl) l
    → All (Meanwhile k begun (begun + pending_ledger_ttl)) es
    → first_dispatches k l es ≡ 0
unfolding first_dispatches
Held-first_dispatches k begun l [] v h m = refl
Held-first_dispatches k begun l (e ∷ es) v h m =
    let t = begun + pending_ledger_ttl in
    let spared : Spares k e.call = m.0.2 in
    omega (
      arith,
      perform-free l k t e.now e.clock_ms e.call v.keys m.0.1 h,
      Held-first_dispatches k begun (step l e) es (perform-IsValid l e.now e.clock_ms e.call v)
          (perform-Held l k t e.now e.clock_ms e.call v.keys m.0.1 (omega arith) spared h) m.1,
    )

Move-begun :
    (l l' : Ledger) (key : OperationKey) (now : Instant) {f s : ℕ}
    → Distinct l.entries
    → Move l l' key now f s
    → f ≡ 1
    → Held key (now + pending_ledger_ttl) l'
Move-begun l l' key now d (keep e y z) one = absurd (omega arith)
Move-begun l l' key now d (start x free _ x_expires r e) one = record {
  entry = x;
  stored = rw (e, get-insert) (ground arith);
  lasts = omega arith;
}
Move-begun l l' key now d (update old x held _ r z e) one = absurd (omega arith)

first_dispatch-Held :
    (l : Ledger) (k : OperationKey) (now : Instant) (clock_ms : ℕ) (c : Call)
    → Distinct l.entries
    → first_dispatch k l now clock_ms c ≡ 1
    → Held k (now + pending_ledger_ttl) (perform l now clock_ms c)
unfolding first_dispatch perform
first_dispatch-Held l k now clock_ms (Call.first_wake key digest version host_ids nonce ticket) d
      one =
    elim (OperationKey_eq? key k) [
      | yes p ↦ rw (← p) (
          Move-begun l _ key now d
            (begin_wake_attempt1-Move l key now digest version host_ids nonce clock_ms ticket).move
            (ground (arith, p)))
      | no p ↦ absurd (ground arith)
    ]
first_dispatch-Held l k now clock_ms c d one = absurd (omega arith)

-- From any valid ledger: once an event dispatches the first attempt of an operation, no event of a
-- history at times from it on and less than two minutes after it dispatches the first attempt again,
-- whatever the calls are, if none of them is the removal of the entry under the same key.
pub first_dispatch_once :
    (k : OperationKey) (l : Ledger) (e : Event) (es : List Event)
    → IsValid l
    → first_dispatch k l e.now e.clock_ms e.call ≡ 1
    → All (Meanwhile k e.now (e.now + pending_ledger_ttl)) es
    → first_dispatches k (step l e) es ≡ 0
first_dispatch_once k l e es v one m =
    Held-first_dispatches k e.now (step l e) es (perform-IsValid l e.now e.clock_ms e.call v)
      (first_dispatch-Held l k e.now e.clock_ms e.call v.keys one) m
