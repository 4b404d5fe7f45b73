-- ===== src/Server/Ledger/Calls.antt =====
-- Histories of the ledger of src/server.rs: the calls that the connections make, in the order in
-- which they take the lock.
use remote_open_power.Base.{ℕ, Bytes, List, [], ◌∷◌, ◌+◌, ◌==◌, if◌then◌else◌, Instant}
use remote_open_power.Protocol.Message.{ServerEnvelope}
use remote_open_power.Server.Ledger.Entries.{begins}
use remote_open_power.Server.Entry.{OperationKey, operation_key_eq, WakeRetry}
use remote_open_power.Server.Ledger.{
  Ledger, begin_request, begin_wake_attempt1, begin_wake_attempt2, complete, forget,
}

pub data Call : Type 0 where
  request : (key : OperationKey) (digest : Bytes) → Call
  first_wake :
      (key : OperationKey) (digest : Bytes) (catalog_version : ℕ) (host_ids : List Bytes)
      (boot_nonce ticket : Bytes)
      → Call
  second_wake : (key : OperationKey) (retry : WakeRetry) → Call
  completes : (key : OperationKey) (response : ServerEnvelope) → Call
  forgets : (key : OperationKey) → Call

-- A call at a time; `clock_ms` is the wall clock.
pub record Event : Type 0 where
  pub now : Instant
  pub clock_ms : ℕ
  pub call : Call

unfoldable pub perform : Ledger → Instant → ℕ → Call → Ledger
perform l now clock_ms (Call.request key digest) = (begin_request l key digest now).0
perform l now clock_ms (Call.first_wake key digest catalog_version host_ids boot_nonce ticket) =
    (begin_wake_attempt1 l key digest catalog_version host_ids boot_nonce now clock_ms ticket).0
perform l now clock_ms (Call.second_wake key retry) =
    (begin_wake_attempt2 l key retry now clock_ms).0
perform l now clock_ms (Call.completes key response) = complete l key response now
perform l now clock_ms (Call.forgets key) = forget l key

abbrev pub step : Ledger → Event → Ledger
step l e = perform l e.now e.clock_ms e.call

unfoldable pub run : Ledger → List Event → Ledger
run l [] = l
run l (e ∷ es) = run (step l e) es

unfoldable pub first_dispatch : OperationKey → Ledger → Instant → ℕ → Call → ℕ
first_dispatch k l now clock_ms
      (Call.first_wake key digest catalog_version host_ids boot_nonce ticket) =
    if key == k
    then begins
        (begin_wake_attempt1 l key digest catalog_version host_ids boot_nonce now clock_ms ticket).1
    else 0
first_dispatch k l now clock_ms _ = 0

unfoldable pub second_dispatch : OperationKey → Ledger → Instant → ℕ → Call → ℕ
second_dispatch k l now clock_ms (Call.second_wake key retry) =
    if key == k then begins (begin_wake_attempt2 l key retry now clock_ms).1 else 0
second_dispatch k l now clock_ms _ = 0

-- How often a history dispatches the first and the second attempt of an operation.
unfoldable pub first_dispatches : OperationKey → Ledger → List Event → ℕ
first_dispatches k l [] = 0
first_dispatches k l (e ∷ es) =
    first_dispatch k l e.now e.clock_ms e.call + first_dispatches k (step l e) es

unfoldable pub second_dispatches : OperationKey → Ledger → List Event → ℕ
second_dispatches k l [] = 0
second_dispatches k l (e ∷ es) =
    second_dispatch k l e.now e.clock_ms e.call + second_dispatches k (step l e) es
