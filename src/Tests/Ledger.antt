-- ===== src/Tests/Ledger.antt =====
-- A wake operation and its retry, run through the ledger of src/server.rs.
use remote_open_power.Base.{
  Bytes, bytes, true, List, [], ◌∷◌, some, none, ◌≤◌, ◌≡◌, refl, arith, insert, get, retain, count,
  ℕ_eq?, option_eq?, from_secs, list_eq, nat_eq,
}
use remote_open_power.Protocol.Message.{ServerEnvelope, ServerEvent}
use remote_open_power.Server.Entry.{
  OperationKey, operation_key_eq, OperationKey_eq?, WakeRetry, LedgerEntry, BeginResult,
  refuses_retry, first_wake,
}
use remote_open_power.Server.Ledger.{
  Ledger, empty, prune, has_capacity_for, begin_request, begin_wake_attempt1, begin_wake_attempt2,
  complete,
}
use remote_open_power.Server.Ledger.Calls.{
  Call, Event, perform, step, run, first_dispatch, second_dispatch, first_dispatches,
  second_dispatches,
}
use remote_open_power.Server.Ledger.Bounds.{IsValid, empty-IsValid, run-empty-IsValid}
use remote_open_power.Server.Ledger.Dispatch.{second_dispatches-le-first_dispatches}
use remote_open_power.Server.Ledger.Once.{first_dispatch_once}
use remote_open_power.Server.Ledger.Replies.{
  Granted, begin_request-complete, begin_wake_attempt2-Granted,
}

abbrev key : OperationKey
key = record { client_key = 1 ∷ []; operation_id = 2 ∷ [] }

abbrev digest : Bytes
digest = 7 ∷ []

abbrev ticket : Bytes
ticket = 9 ∷ []

abbrev hosts : List Bytes
hosts = bytes "pc" ∷ []

abbrev receipt : ServerEnvelope
receipt = record {
  version = 1;
  request_id = 2 ∷ [];
  issued_at_ms = 5;
  headers = [];
  event = ServerEvent.command_executed (2 ∷ []) 1 ticket 60005 [];
}

abbrev retry : WakeRetry
retry = record {
  digest = digest;
  catalog_version = 3;
  host_ids = hosts;
  boot_nonce = 4 ∷ [];
  ticket = ticket;
}

abbrev first : Event
first = record { now = 0; clock_ms = 5; call = Call.first_wake key digest 3 hosts (4 ∷ []) ticket }

abbrev done : Event
done = record { now = from_secs 2; clock_ms = 5; call = Call.completes key receipt }

abbrev second : Event
second = record { now = from_secs 30; clock_ms = 5; call = Call.second_wake key retry }

-- The operation, its receipt, and two retries.
abbrev history : List Event
history = first ∷ done ∷ second ∷ second ∷ []

second_dispatches_test : second_dispatches key empty history ≡ 1
unfolding second_dispatches second_dispatch perform OperationKey_eq? ℕ_eq? begin_wake_attempt2 get
    prune retain complete begin_wake_attempt1 has_capacity_for count insert option_eq? refuses_retry
second_dispatches_test = refl

second_dispatches-le-first_dispatches_example :
    second_dispatches key empty history ≤ first_dispatches key empty history
second_dispatches-le-first_dispatches_example = second_dispatches-le-first_dispatches key history

run-empty-IsValid_example : IsValid (run empty history)
run-empty-IsValid_example = run-empty-IsValid history

first_dispatch_once_example :
    first_dispatches key (step empty first) (first ∷ done ∷ first ∷ []) ≡ 0
unfolding first_dispatch OperationKey_eq? ℕ_eq? begin_wake_attempt1 get prune retain
    has_capacity_for count
first_dispatch_once_example =
    first_dispatch_once key empty first (first ∷ done ∷ first ∷ []) empty-IsValid refl (
      (omega arith, omega arith, tt),
      ((omega arith, omega arith, tt), ((omega arith, omega arith, tt), tt)),
    )

-- The ledger after the first attempt and its receipt.
abbrev completed : Ledger
completed = complete (step empty first) key receipt (from_secs 2)

abbrev begun : LedgerEntry
begun = record {
  digest = digest;
  wake = some (first_wake 3 hosts (4 ∷ []) ticket 0);
  response = none;
  pending = true;
  expires = from_secs 120;
}

begin_request-complete_example :
    begin_request completed key (8 ∷ []) (from_secs 600)
    ≡ (prune completed (from_secs 600), BeginResult.conflict)
unfolding perform run begin_wake_attempt1 get prune retain has_capacity_for count insert
    OperationKey_eq? ℕ_eq?
begin_request-complete_example =
    begin_request-complete (step empty first) key begun receipt (from_secs 2) (from_secs 600)
      (8 ∷ []) (run-empty-IsValid (first ∷ [])).keys refl (omega arith)

begin_wake_attempt2-Granted_example : Granted completed key retry (from_secs 30) × (ticket ≡ ticket)
unfolding perform complete run begin_wake_attempt2 get prune retain begin_wake_attempt1
    has_capacity_for count insert OperationKey_eq? ℕ_eq? option_eq? refuses_retry
begin_wake_attempt2-Granted_example =
    begin_wake_attempt2-Granted completed key retry (from_secs 30) 5 ticket
      ((run-empty-IsValid (first ∷ done ∷ [])).keys) refl
