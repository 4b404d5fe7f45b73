-- ===== src/Server/Ledger/Bounds.antt =====
-- The ledger of src/server.rs stays within its two limits.
use remote_open_power.Base.{
  ℕ, Bytes, true, List, [], ◌∷◌, none, some, ◌≤◌, length, nat_eq, list_eq, option_eq, ◌≡◌, get,
  insert, count, Instant, arith, Distinct, Distinct-retain, Distinct-insert, Distinct-remove,
  Option-cases, inl, inr, length-retain-le, count-retain-le, length-insert, count-insert_new,
  count-insert_old, length-remove-le, count-remove-le,
}
use remote_open_power.Protocol.Message.{ServerEnvelope}
use remote_open_power.Server.Limits.{max_ledger_entries, max_ledger_entries_per_client}
use remote_open_power.Server.Entry.{OperationKey, operation_key_eq, LedgerEntry}
use remote_open_power.Server.Ledger.{
  Ledger, live, prune, put_entry, of_client, has_capacity_for, complete, forget, empty,
}
use remote_open_power.Server.Ledger.Entries.{
  Move, keep, start, update, begin_request-Move, begin_wake_attempt1-Move, begin_wake_attempt2-Move,
}
use remote_open_power.Server.Ledger.Calls.{Call, Event, perform, step, run}

pub record IsValid (l : Ledger) : Type 0 where
  pub keys : Distinct l.entries
  pub size : length l.entries ≤ max_ledger_entries
  pub quota : (client : Bytes) → count (of_client client) l.entries ≤ max_ledger_entries_per_client

prune-IsValid : (l : Ledger) (now : Instant) → IsValid l → IsValid (prune l now)
unfolding prune
prune-IsValid l now v = record {
  keys = Distinct-retain (live now) l.entries v.keys;
  size = omega (arith, length-retain-le (live now) l.entries, v.size);
  quota = λ c. omega (arith, count-retain-le (of_client c) (live now) l.entries, v.quota c);
}

-- Overwriting the entry of a stored key.
overwrite-IsValid :
    (l : Ledger) (key : OperationKey) (old e : LedgerEntry)
    → get key l.entries ≡ some old
    → IsValid l
    → IsValid (put_entry l key e)
overwrite-IsValid l key old e held v = record {
  keys = Distinct-insert key e l.entries v.keys;
  size = ground (arith, length-insert key e l.entries, v.size);
  quota = λ c.
      omega (arith, count-insert_old (of_client c) key e old l.entries held (λ h. h), v.quota c);
}

-- A new entry, which the code adds only after `has_capacity_for`.
fresh_quota :
    (l : Ledger) (key : OperationKey) (e : LedgerEntry) (c : Bytes)
    → get key l.entries ≡ none
    → has_capacity_for l key.client_key ≡ true
    → count (of_client c) l.entries ≤ max_ledger_entries_per_client
    → count (of_client c) (insert key e l.entries) ≤ max_ledger_entries_per_client
unfolding has_capacity_for
fresh_quota l key e c free room q =
    ground (arith, count-insert_new (of_client c) key e l.entries free)

fresh-IsValid :
    (l : Ledger) (key : OperationKey) (e : LedgerEntry)
    → get key l.entries ≡ none
    → has_capacity_for l key.client_key ≡ true
    → IsValid l
    → IsValid (put_entry l key e)
unfolding has_capacity_for
fresh-IsValid l key e free room v = record {
  keys = Distinct-insert key e l.entries v.keys;
  size = ground (arith, length-insert key e l.entries, v.size);
  quota = λ c. fresh_quota l key e c free room (v.quota c);
}

same_entries : (l m : Ledger) → l.entries ≡ m.entries → IsValid m → IsValid l
same_entries l m e v = record {
  keys = rw e v.keys;
  size = rw e v.size;
  quota = λ c. rw e (v.quota c);
}

Move-IsValid :
    (l l' : Ledger) (key : OperationKey) (now : Instant) {f s : ℕ}
    → Move l l' key now f s
    → IsValid l
    → IsValid l'
Move-IsValid l l' key now (keep e _ _) v = same_entries l' (prune l now) e (prune-IsValid l now v)
Move-IsValid l l' key now (start x free room _ _ e) v =
    same_entries l' (put_entry (prune l now) key x) e
      (fresh-IsValid (prune l now) key x free room (prune-IsValid l now v))
Move-IsValid l l' key now (update old x held _ _ _ e) v =
    same_entries l' (put_entry (prune l now) key x) e
      (overwrite-IsValid (prune l now) key old x held (prune-IsValid l now v))

complete-IsValid :
    (l : Ledger) (key : OperationKey) (response : ServerEnvelope) (now : Instant)
    → IsValid l
    → IsValid (complete l key response now)
unfolding complete
complete-IsValid l key response now v = elim (Option-cases (get key l.entries)) [
  | inl free ↦ rw (free, complete) v
  | inr (e, held) ↦ rw (held, complete) (overwrite-IsValid l key e _ held v)
]

forget-IsValid : (l : Ledger) (key : OperationKey) → IsValid l → IsValid (forget l key)
unfolding forget
forget-IsValid l key v = record {
  keys = Distinct-remove key l.entries v.keys;
  size = omega (arith, length-remove-le key l.entries, v.size);
  quota = λ c. omega (arith, count-remove-le (of_client c) key l.entries, v.quota c);
}

pub perform-IsValid :
    (l : Ledger) (now : Instant) (clock_ms : ℕ) (c : Call)
    → IsValid l
    → IsValid (perform l now clock_ms c)
unfolding perform
perform-IsValid l now clock_ms (Call.request key digest) v =
    Move-IsValid l _ key now (begin_request-Move l key now digest) v
perform-IsValid l now clock_ms (Call.first_wake key digest version host_ids nonce ticket) v =
    Move-IsValid l _ key now
      (begin_wake_attempt1-Move l key now digest version host_ids nonce clock_ms ticket).move v
perform-IsValid l now clock_ms (Call.second_wake key retry) v =
    Move-IsValid l _ key now (begin_wake_attempt2-Move l key now retry clock_ms).move v
perform-IsValid l now clock_ms (Call.completes key response) v =
    complete-IsValid l key response now v
perform-IsValid l now clock_ms (Call.forgets key) v = forget-IsValid l key v

pub empty-IsValid : IsValid empty
unfolding count
empty-IsValid = record { keys = tt; size = omega arith; quota = λ c. omega arith }

run-IsValid : (l : Ledger) (es : List Event) → IsValid l → IsValid (run l es)
unfolding run
run-IsValid l [] v = v
run-IsValid l (e ∷ es) v = run-IsValid (step l e) es (perform-IsValid l e.now e.clock_ms e.call v)

-- After any history from the empty ledger no operation is stored twice, there are at most 4096
-- entries, and at most 256 of any one client.
pub run-empty-IsValid : (es : List Event) → IsValid (run empty es)
run-empty-IsValid es = run-IsValid empty es empty-IsValid
