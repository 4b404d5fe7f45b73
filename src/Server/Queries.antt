-- ===== src/Server/Queries.antt =====
-- The branches of `process_envelope` of src/server.rs for the list of hosts and their states, after
-- the check of the headers. What `spawn_probe` does is an argument.
pub mod Allowed
pub mod Jobs
use remote_open_power.Base.{
  ℕ, Bytes, bytes, Bool, true, false, List, [], ◌∷◌, ◌++◌, filter, Option, none, some, Result, ok,
  err, ◌==◌, ◌!=◌, not, ltb, contains, length, if◌then◌else◌, nat_eq, list_eq, be_bytes8,
}
use remote_open_power.Protocol.Message.{
  Header, HostSummary, ServerEnvelope, ServerEvent, ErrorCode, busy, replay, stale_catalog,
  max_status_targets,
}
use remote_open_power.Server.Entry.{OperationKey, BeginResult}
use remote_open_power.Server.Ledger.{Ledger, begin_request, complete, forget}
use remote_open_power.Server.Host.{HostConfig, HostEntry, authorized_hosts}
use remote_open_power.Server.Respond.{ServerError, make_response, send_response}
use remote_open_power.Server.Requests.{Snapshot, Readings, WakeError, hash_headers, hash_ids}
use remote_open_power.Server.Wakes.{send_error}

-- A probe that waits for its results.
pub record StatusJob : Type 0 where
  pub request_id : Bytes
  pub hosts : List Bytes

-- The ledger, the jobs and what is sent after a call, and whether it fails.
pub record Answered : Type 0 where
  pub ledger : Ledger
  pub status_jobs : List StatusJob
  pub sent : List ServerEnvelope
  pub result : Result ServerError (Unit {0})

abbrev pub answer : Ledger → List StatusJob → Result ServerError ServerEnvelope → Answered
answer ledger jobs (ok response) = record {
  ledger = ledger;
  status_jobs = jobs;
  sent = response ∷ [];
  result = ok tt;
}
answer ledger jobs (err e) = record {
  ledger = ledger;
  status_jobs = jobs;
  sent = [];
  result = err e;
}

-- The input of the hash in `request_digest_context` without a nonce.
abbrev pub query_digest : List Header → Bytes → ℕ → List Bytes → Bytes
query_digest headers tag catalog_version host_ids =
    bytes "RemoteOpenPower/request-digest/v1"
    ++ (0 ∷ [])
    ++ tag
    ++ (0 ∷ [])
    ++ be_bytes8 catalog_version
    ++ (0 ∷ [])
    ++ hash_headers headers
    ++ hash_ids host_ids

abbrev pub visible : List HostSummary → List Bytes → List HostSummary
visible summaries allowed_hosts = filter (λ host. contains allowed_hosts host.host_id) summaries

-- A cached list, with the hosts of now.
abbrev pub refreshed : ServerEvent → ℕ → List HostSummary → ServerEvent
refreshed (ServerEvent.hosts old_version old_hosts) catalog_version hosts =
    ServerEvent.hosts catalog_version hosts
refreshed other catalog_version hosts = other

module _ (sha256 : Bytes → Bytes) (to_allocvec : ServerEnvelope → Option Bytes)
    (transmit : Bytes → Bool) (wake : HostConfig → Result WakeError (Unit {0})) where
  abbrev pub deny :
      Ledger → List StatusJob → Snapshot → Bytes → ErrorCode → Bool → Readings → Answered
  deny ledger jobs snapshot request_id code retryable t =
      answer ledger jobs
        (send_error sha256 to_allocvec transmit wake snapshot request_id code retryable t)

  unfoldable pub new_list :
      Ledger
      → List StatusJob
      → Snapshot
      → List HostSummary
      → OperationKey
      → Bytes
      → Readings
      → Answered
  new_list ledger jobs snapshot hosts key request_id t =
      elim (make_response to_allocvec snapshot.headers request_id
        (ServerEvent.hosts snapshot.catalog_version hosts) t.made_ms) [
          | err e ↦ answer ledger jobs (err e)
          | ok response ↦
              answer (complete ledger key response t.completed) jobs
                (send_response to_allocvec transmit response t.sent_ms)
        ]

  abbrev pub answer_list :
      Ledger
      → List StatusJob
      → Snapshot
      → List HostSummary
      → OperationKey
      → Bytes
      → Readings
      → BeginResult
      → Answered
  answer_list ledger jobs snapshot hosts key request_id t (BeginResult.cached response) =
      answer ledger jobs (
        send_response to_allocvec transmit
          (record response { event = refreshed response.event snapshot.catalog_version hosts })
          t.sent_ms)
  answer_list ledger jobs snapshot hosts key request_id t BeginResult.busy =
      deny ledger jobs snapshot request_id busy true t
  answer_list ledger jobs snapshot hosts key request_id t BeginResult.conflict =
      deny ledger jobs snapshot request_id replay false t
  answer_list ledger jobs snapshot hosts key request_id t BeginResult.new =
      new_list ledger jobs snapshot hosts key request_id t

  unfoldable pub process_list :
      Ledger
      → List StatusJob
      → Snapshot
      → List HostSummary
      → Bytes
      → List Bytes
      → Bytes
      → List Header
      → Readings
      → Answered
  process_list ledger jobs snapshot summaries client_key allowed_hosts request_id headers t =
      let key : OperationKey = record { client_key = client_key; operation_id = request_id } in
      let begun =
        begin_request ledger key (sha256 (query_digest headers (bytes "list") 0 [])) t.begun in
      answer_list begun.0 jobs snapshot (visible summaries allowed_hosts) key request_id t begun.1

  -- `spawned` is whether `spawn_probe` starts a probe.
  unfoldable pub new_statuses :
      Ledger
      → List StatusJob
      → Snapshot
      → List Bytes
      → OperationKey
      → Bytes
      → Result ServerError Bool
      → Readings
      → Answered
  new_statuses ledger jobs snapshot host_ids key request_id spawned t =
      let job : StatusJob = record { request_id = request_id; hosts = host_ids } in
      let refused = deny (forget ledger key) jobs snapshot request_id busy true t in
      if not (ltb (length jobs) 2) then refused else elim spawned [
        | err e ↦ answer ledger jobs (err e)
        | ok started ↦
            if started
            then record {
              ledger = ledger;
              status_jobs = jobs ++ (job ∷ []);
              sent = [];
              result = ok tt;
            }
            else refused
      ]

  abbrev pub answer_statuses :
      Ledger
      → List StatusJob
      → Snapshot
      → List Bytes
      → OperationKey
      → Bytes
      → Result ServerError Bool
      → Readings
      → BeginResult
      → Answered
  answer_statuses ledger jobs snapshot host_ids key request_id spawned t
        (BeginResult.cached response) =
      answer ledger jobs (send_response to_allocvec transmit response t.sent_ms)
  answer_statuses ledger jobs snapshot host_ids key request_id spawned t BeginResult.busy =
      deny ledger jobs snapshot request_id busy true t
  answer_statuses ledger jobs snapshot host_ids key request_id spawned t BeginResult.conflict =
      deny ledger jobs snapshot request_id replay false t
  answer_statuses ledger jobs snapshot host_ids key request_id spawned t BeginResult.new =
      new_statuses ledger jobs snapshot host_ids key request_id spawned t

  unfoldable pub process_statuses :
      Ledger
      → List StatusJob
      → Snapshot
      → Bytes
      → List Bytes
      → Bytes
      → List Header
      → ℕ
      → List Bytes
      → Result ServerError Bool
      → Readings
      → Answered
  process_statuses ledger jobs snapshot client_key allowed_hosts request_id headers catalog_version
        host_ids spawned t =
      let key : OperationKey = record { client_key = client_key; operation_id = request_id } in
      let begun =
        begin_request ledger key
          (sha256 (query_digest headers (bytes "status") catalog_version host_ids)) t.begun in
      if catalog_version != snapshot.catalog_version
      then deny ledger jobs snapshot request_id stale_catalog true t
      else elim (authorized_hosts snapshot.hosts allowed_hosts host_ids max_status_targets) [
        | err code ↦ deny ledger jobs snapshot request_id code false t
        | ok hosts ↦ answer_statuses begun.0 jobs snapshot host_ids key request_id spawned t begun.1
      ]
