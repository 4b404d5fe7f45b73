-- ===== src/Server/Ledger/Dispatch.antt =====
-- How often the ledger of src/server.rs lets an operation send its packets.
use remote_open_power.Base.{
  ℕ, List, [], ◌∷◌, Option, none, some, ◌+◌, ◌≤◌, ◌==◌, if◌then◌else◌, nat_eq, list_eq, ◌≡◌, refl,
  get, Instant, arith, Distinct, get-insert, get-remove, Option-cases, inl, inr,
}
use remote_open_power.Protocol.Message.{ServerEnvelope}
use remote_open_power.Server.Entry.{OperationKey, operation_key_eq, LedgerEntry}
use remote_open_power.Server.Ledger.{Ledger, prune, complete, forget, empty}
use remote_open_power.Server.Ledger.Entries.{
  Move, keep, start, update, unexpired, get-prune, retries_left, begin_request-Move,
  begin_wake_attempt1-Move, begin_wake_attempt2-Move,
}
use remote_open_power.Server.Ledger.Calls.{
  Call, Event, perform, step, run, first_dispatch, second_dispatch, first_dispatches,
  second_dispatches,
}
use remote_open_power.Server.Ledger.Bounds.{IsValid, perform-IsValid, empty-IsValid}

-- 1 while the operation `k` of the ledger can still be retried.
abbrev pub open_retries : OperationKey → Ledger → ℕ
open_retries k l = retries_left (get k l.entries)

retries-unexpired :
    (now : Instant) (k : OperationKey) (o : Option LedgerEntry)
    → retries_left (unexpired now k o) ≤ retries_left o
retries-unexpired now k none = omega arith
retries-unexpired now k (some e) = ground arith

abbrev at_key : OperationKey → OperationKey → ℕ → ℕ
at_key key k n = if key == k then n else 0

prune-retries :
    (l : Ledger) (now : Instant) (k : OperationKey)
    → Distinct l.entries
    → open_retries k (prune l now) ≤ open_retries k l
prune-retries l now k d = rw (get-prune l now k d) (retries-unexpired now k (get k l.entries))

Move-retries :
    (l l' : Ledger) (key k : OperationKey) (now : Instant) {f s : ℕ}
    → Distinct l.entries
    → Move l l' key now f s
    → at_key key k s + open_retries k l' ≤ open_retries k l + at_key key k f
Move-retries l l' key k now d (keep e y z) = rw e (ground (arith, y, z, prune-retries l now k d))
Move-retries l l' key k now d (start x free _ _ r e) =
    rw (e, get-insert) (ground (arith, r, prune-retries l now k d))
Move-retries l l' key k now d (update old x held _ r z e) =
    rw (e, get-insert) (ground (arith, r, z, held, prune-retries l now k d))

complete-retries :
    (l : Ledger) (key k : OperationKey) (response : ServerEnvelope) (now : Instant)
    → open_retries k (complete l key response now) ≤ open_retries k l
unfolding complete
complete-retries l key k response now = elim (Option-cases (get key l.entries)) [
  | inl free ↦ rw (free, complete) (omega arith)
  | inr (e, held) ↦ rw (held, complete, get-insert) (ground (arith, held))
]

forget-retries :
    (l : Ledger) (key k : OperationKey) → open_retries k (forget l key) ≤ open_retries k l
unfolding forget
forget-retries l key k = rw get-remove (ground arith)

-- A second dispatch uses up what a first one opened.
perform-retries :
    (l : Ledger) (k : OperationKey) (now : Instant) (clock_ms : ℕ) (c : Call)
    → Distinct l.entries
    → second_dispatch k l now clock_ms c + open_retries k (perform l now clock_ms c)
      ≤ open_retries k l + first_dispatch k l now clock_ms c
unfolding perform first_dispatch second_dispatch
perform-retries l k now clock_ms (Call.request key digest) d =
    ground (arith, Move-retries l _ key k now d (begin_request-Move l key now digest))
perform-retries l k now clock_ms (Call.first_wake key digest version host_ids nonce ticket) d =
    ground (
      arith,
      Move-retries l _ key k now d
          (begin_wake_attempt1-Move l key now digest version host_ids nonce clock_ms ticket).move,
    )
perform-retries l k now clock_ms (Call.second_wake key retry) d =
    ground
      (arith, Move-retries l _ key k now d (begin_wake_attempt2-Move l key now retry clock_ms).move)
perform-retries l k now clock_ms (Call.completes key response) d =
    omega (arith, complete-retries l key k response now)
perform-retries l k now clock_ms (Call.forgets key) d = omega (arith, forget-retries l key k)

run-retries :
    (k : OperationKey) (l : Ledger) (es : List Event)
    → IsValid l
    → second_dispatches k l es + open_retries k (run l es)
      ≤ open_retries k l + first_dispatches k l es
unfolding run first_dispatches second_dispatches
run-retries k l [] v = omega arith
run-retries k l (e ∷ es) v = omega (
  arith,
  perform-retries l k e.now e.clock_ms e.call v.keys,
  run-retries k (step l e) es (perform-IsValid l e.now e.clock_ms e.call v),
)

empty-retries : (k : OperationKey) → open_retries k empty ≡ 0
unfolding get
empty-retries k = refl

-- In any history from the empty ledger, whatever the calls and their times, an operation's second
-- attempt is dispatched at most as often as its first.
pub second_dispatches-le-first_dispatches :
    (k : OperationKey) (es : List Event)
    → second_dispatches k empty es ≤ first_dispatches k empty es
second_dispatches-le-first_dispatches k es =
    omega (arith, run-retries k empty es empty-IsValid, empty-retries k)
