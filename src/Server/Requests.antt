-- ===== src/Server/Requests.antt =====
-- What the wake branch of `process_envelope` of src/server.rs works on: the request, the digest that
-- identifies it, the call of the ledger, the dispatch loop and the monitors.
use remote_open_power.Base.{
  be_bytes4, be_bytes8, ℕ, Bytes, bytes, true, false, List, [], ◌∷◌, ◌++◌, map, Option, none, some,
  Result, ok, err, ◌>>=◌, ◌==◌, ◌+◌, ◌-◌, if◌then◌else◌, not, min, is_empty, contains, filter,
  length, nat_eq, list_eq, Dict, Instant, from_millis,
}
use remote_open_power.Protocol.Message.{
  Header, header_eq, ServerEnvelope, ServerEvent, WakeResult, WakeErrorCode,
}
use remote_open_power.Server.Limits.{monitor_timeout_ms}
use remote_open_power.Server.Entry.{OperationKey, WakeBeginResult}
use remote_open_power.Server.Ledger.{Ledger, begin_wake_attempt1, begin_wake_attempt2}
use remote_open_power.Server.Cooldown.{WakeCooldowns}
use remote_open_power.Server.Host.{HostConfig, HostEntry, Policy, may_wake, Monitor}
use remote_open_power.Server.Respond.{ServerError}

-- What the connections share.
pub record Shared : Type 0 where
  pub ledger : Ledger
  pub last_wake : WakeCooldowns

-- The part of the configuration that a request meets.
pub record Snapshot : Type 0 where
  pub headers : List Header
  pub hosts : Dict Bytes HostEntry
  pub catalog_version : ℕ

-- An envelope with the operation `Wake`.
pub record Request : Type 0 where
  pub request_id : Bytes
  pub headers : List Header
  pub catalog_version : ℕ
  pub host_ids : List Bytes
  pub attempt : ℕ
  pub boot_nonce : Bytes
  pub retry_ticket : Option Bytes

-- The values of `Instant::now()` and `unix_ms()` in the order in which the code may read them, and
-- that of `random_ticket()`.
pub record Readings : Type 0 where
  pub begun : Instant
  pub reserved : Instant
  pub completed : Instant
  pub next_probe : Instant
  pub monitored : Instant
  pub renewed_ms : ℕ
  pub remaining_ms : ℕ
  pub deadline_ms : ℕ
  pub made_ms : ℕ
  pub sent_ms : ℕ
  pub ticket : Bytes

-- `WakeError`
pub data WakeError : Type 0 where
  invalid_target io : WakeError

pub record Outcome : Type 0 where
  pub shared : Shared
  pub packets : List Bytes
  pub sent : List ServerEnvelope
  pub result : Result ServerError (Option Monitor)

-- What `hash_bytes` adds to the input of the hash.
abbrev pub hash_bytes : Bytes → Bytes
hash_bytes part = be_bytes4 (length part) ++ part

abbrev pub hash_headers : List Header → Bytes
hash_headers [] = []
hash_headers (h ∷ hs) = hash_bytes h.name ++ hash_bytes h.value ++ hash_headers hs

abbrev pub hash_ids : List Bytes → Bytes
hash_ids [] = []
hash_ids (host_id ∷ host_ids) = hash_bytes host_id ++ hash_ids host_ids

-- The input of the hash in `request_digest_context` for a wake.
unfoldable pub digest_input : List Header → Bytes → ℕ → List Bytes → Bytes → Bytes
digest_input headers tag catalog_version host_ids boot_nonce =
    bytes "RemoteOpenPower/request-digest/v1"
    ++ (0 ∷ [])
    ++ tag
    ++ (0 ∷ [])
    ++ be_bytes8 catalog_version
    ++ (1 ∷ [])
    ++ boot_nonce
    ++ hash_headers headers
    ++ hash_ids host_ids

abbrev pub accepted_targets : List HostEntry → List Bytes → List (Bytes × HostConfig)
accepted_targets hosts accepted =
    map (λ entry. (entry.id, entry.config)) (filter (λ entry. contains accepted entry.id) hosts)

-- `cached_monitor`: `clock_ms` is the wall clock.
unfoldable pub cached_monitor :
    ServerEnvelope → List HostEntry → ℕ → Instant → Instant → Option Monitor
cached_monitor response hosts clock_ms next_probe now = elim response.event [
  | ServerEvent.command_executed operation_id attempt ticket deadline_ms results ↦
      let accepted = map (λ r. r.host_id) (filter (λ r. r.accepted) results) in
      let targets = accepted_targets hosts accepted in
      if is_empty targets
      then none
      else if deadline_ms - clock_ms == 0
      then none
      else some (record {
        operation_id = operation_id;
        attempt = attempt;
        targets = targets;
        next_probe = next_probe;
        deadline = now + from_millis (min (deadline_ms - clock_ms) monitor_timeout_ms);
      })
  | _ ↦ none
]

-- The call of the ledger.
unfoldable pub begin_wake :
    Ledger → OperationKey → Bytes → Request → List Bytes → Readings → Ledger × WakeBeginResult
begin_wake ledger key digest r sorted_ids t =
    if r.attempt == 1
    then elim r.retry_ticket [
      | some ticket ↦ (ledger, WakeBeginResult.replay)
      | none ↦
          begin_wake_attempt1 ledger key digest r.catalog_version sorted_ids r.boot_nonce t.begun
            t.renewed_ms t.ticket
    ]
    else elim r.retry_ticket [
      | some ticket ↦
          begin_wake_attempt2 ledger key
            (record {
              digest = digest;
              catalog_version = r.catalog_version;
              host_ids = sorted_ids;
              boot_nonce = r.boot_nonce;
              ticket = ticket;
            })
            t.begun t.renewed_ms
      | none ↦ (ledger, WakeBeginResult.replay)
    ]

abbrev pub sender_result : Bytes → Result WakeError (Unit {0}) → WakeResult
sender_result host_id (ok u) = record { host_id = host_id; accepted = true; error_code = none }
sender_result host_id (err WakeError.invalid_target) = record {
  host_id = host_id;
  accepted = false;
  error_code = some WakeErrorCode.invalid_target;
}
sender_result host_id (err WakeError.io) = record {
  host_id = host_id;
  accepted = false;
  error_code = some WakeErrorCode.sender_unavailable;
}

abbrev pub rate_limited : Bytes → WakeResult
rate_limited host_id = record {
  host_id = host_id;
  accepted = false;
  error_code = some WakeErrorCode.rate_limited;
}

-- The dispatch loop: for which hosts the sender is called, and the results if it is not cancelled.
unfoldable pub dispatch_each :
    (HostConfig → Result WakeError (Unit {0}))
    → (HostEntry → Policy)
    → List HostEntry
    → List Bytes × Result ServerError (List WakeResult)
dispatch_each wake policy_at [] = ([], ok [])
dispatch_each wake policy_at (entry ∷ entries) =
    let (packets, results) = dispatch_each wake policy_at entries in
    if not (may_wake (policy_at entry) entry) then ([], err ServerError.invalid) else (
      entry.id ∷ packets,
      results >>= λ rest. ok (sender_result entry.id (wake entry.config) ∷ rest),
    )

-- The hosts whose results were accepted, by `zip`.
abbrev pub zip_accepted : List HostEntry → List WakeResult → List (Bytes × HostConfig)
zip_accepted [] results = []
zip_accepted (entry ∷ entries) [] = []
zip_accepted (entry ∷ entries) (result ∷ results) =
    if result.accepted
    then (entry.id, entry.config) ∷ zip_accepted entries results
    else zip_accepted entries results

-- What is left of a call once its response is sent, or not.
abbrev pub reply :
    Shared → List Bytes → Option Monitor → Result ServerError ServerEnvelope → Outcome
reply shared packets monitor (ok response) = record {
  shared = shared;
  packets = packets;
  sent = response ∷ [];
  result = ok monitor;
}
reply shared packets monitor (err e) = record {
  shared = shared;
  packets = packets;
  sent = [];
  result = err e;
}
