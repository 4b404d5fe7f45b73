-- ===== src/Server/Wakes/Reached.antt =====
-- Which calls of the ledger a wake request of src/server.rs comes to.
use remote_open_power.Base.{
  ℕ, Bytes, List, [], ◌∷◌, ◌++◌, ◌+◌, ◌==◌, ◌≡◌, refl, arith, nat_eq, list_eq, ==-refl,
  Option-cases, Bool-cases, inl, inr,
}
use remote_open_power.Protocol.Message.{ServerEnvelope}
use remote_open_power.Server.Entry.{OperationKey, operation_key_eq}
use remote_open_power.Server.Ledger.{Ledger, complete}
use remote_open_power.Server.Ledger.Entries.{begins}
use remote_open_power.Server.Ledger.Calls.{
  Call, Event, perform, step, run, first_dispatch, second_dispatch, first_dispatches,
  second_dispatches,
}
use remote_open_power.Server.Requests.{Request, Readings, begin_wake}
use remote_open_power.Server.Wakes.Cases.{key}

abbrev pub dispatches : OperationKey → Ledger → List Event → ℕ
dispatches k l es = first_dispatches k l es + second_dispatches k l es

-- A list of calls that ends in the ledger, and dispatches an operation `n` times.
pub record IsReached (k : OperationKey) (l l' : Ledger) (n : ℕ) : Type 0 where
  pub events : List Event
  pub reached : l' ≡ run l events
  pub counted : dispatches k l events ≡ n

-- One more call, the completion of an operation.
abbrev completion : OperationKey → ServerEnvelope → Readings → Event
completion key response t = record {
  now = t.completed;
  clock_ms = 0;
  call = Call.completes key response;
}

run-completion :
    (k key : OperationKey) (response : ServerEnvelope) (t : Readings) (l : Ledger) (es : List Event)
    → (run l (es ++ completion key response t ∷ []) ≡ complete (run l es) key response t.completed)
      × (dispatches k l (es ++ completion key response t ∷ []) ≡ dispatches k l es)
unfolding run first_dispatches second_dispatches first_dispatch second_dispatch perform
run-completion k key response t l [] = (refl, omega arith)
run-completion k key response t l (e ∷ es) =
    ground (arith, run-completion k key response t (step l e) es)

pub IsReached-complete :
    (k key : OperationKey) (response : ServerEnvelope) (t : Readings) (l l' : Ledger) (n : ℕ)
    → IsReached k l l' n
    → IsReached k l (complete l' key response t.completed) n
IsReached-complete k key response t l l' n h =
    let c = run-completion k key response t l h.events in
    record {
      events = h.events ++ completion key response t ∷ [];
      reached = rw (h.reached, c.0) refl;
      counted = ground (arith, c.1, h.counted);
    }

pub begin_wake-IsReached :
    (l : Ledger) (k : OperationKey) (digest : Bytes) (r : Request) (sorted_ids : List Bytes)
    (t : Readings)
    → IsReached k l
        (begin_wake l k digest r sorted_ids t).0
        (begins (begin_wake l k digest r sorted_ids t).1)
unfolding begin_wake run first_dispatches second_dispatches first_dispatch second_dispatch perform
begin_wake-IsReached l k digest r sorted_ids t = elim (Bool-cases (r.attempt == 1)) [
  | inl a ↦ elim (Option-cases r.retry_ticket) [
    | inl b ↦
        rw (begin_wake, a, b)
          (record {
            events =
                record {
                  now = t.begun;
                  clock_ms = t.renewed_ms;
                  call =
                      Call.first_wake k digest r.catalog_version sorted_ids r.boot_nonce t.ticket;
                }
                ∷ [];
            reached = refl;
            counted = rw (==-refl k) (omega arith);
          })
    | inr (ticket, b) ↦
        rw (begin_wake, a, b) (record { events = []; reached = refl; counted = omega arith })
  ]
  | inr a ↦ elim (Option-cases r.retry_ticket) [
    | inl b ↦ rw (begin_wake, a, b) (record { events = []; reached = refl; counted = omega arith })
    | inr (ticket, b) ↦
        rw (begin_wake, a, b)
          (record {
            events =
                record {
                  now = t.begun;
                  clock_ms = t.renewed_ms;
                  call = Call.second_wake k (record {
                    digest = digest;
                    catalog_version = r.catalog_version;
                    host_ids = sorted_ids;
                    boot_nonce = r.boot_nonce;
                    ticket = ticket;
                  });
                }
                ∷ [];
            reached = refl;
            counted = rw (==-refl k) (omega arith);
          })
  ]
]
