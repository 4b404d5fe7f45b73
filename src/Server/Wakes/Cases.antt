-- ===== src/Server/Wakes/Cases.antt =====
-- The ways through the wake branch of `process_envelope` of src/server.rs.
use remote_open_power.Base.{
  Bytes, bytes_le, Bool, true, false, List, Option, Result, ok, err, ◌!=◌, ◌≡◌, nat_eq, list_eq,
  Result-cases, Bool-cases, inl, inr,
}
use remote_open_power.Base.Sort.{sort_by}
use remote_open_power.Protocol.Message.{
  header_eq, ServerEnvelope, ErrorCode, unauthorized, stale_catalog, max_wake_targets,
}
use remote_open_power.Server.Entry.{OperationKey, WakeBeginResult}
use remote_open_power.Server.Ledger.{Ledger}
use remote_open_power.Server.Host.{HostConfig, HostEntry, Policy, authorized_hosts}
use remote_open_power.Server.Respond.{ServerError}
use remote_open_power.Server.Requests.{
  Shared, Snapshot, Request, Readings, WakeError, Outcome, begin_wake,
}
use remote_open_power.Server.Wakes.{refuse, answer_wake, wake_digest, process_wake}

module _ (sha256 : Bytes → Bytes) (to_allocvec : ServerEnvelope → Option Bytes)
    (transmit : Bytes → Bool) (wake : HostConfig → Result WakeError (Unit {0})) (shared : Shared)
    (snapshot : Snapshot) (client_key : Bytes) (allowed_hosts : List Bytes) (r : Request)
    (policy_at : HostEntry → Policy) (t : Readings) where
  abbrev pub key : OperationKey
  key = record { client_key = client_key; operation_id = r.request_id }

  abbrev pub sorted_ids : List Bytes
  sorted_ids = sort_by bytes_le r.host_ids

  -- The call of the ledger that a request comes to.
  abbrev pub begun : Ledger × WakeBeginResult
  begun =
      begin_wake shared.ledger key (wake_digest sha256 to_allocvec transmit wake r) r sorted_ids t

  pub process_wake_cases {ℓ} :
      (P : Outcome → Type ℓ)
      → ((code : ErrorCode) (retryable : Bool)
          → P (
              refuse sha256 to_allocvec transmit wake shared snapshot r.request_id code retryable
                t))
      → ((code : ErrorCode)
          → P
              (record (refuse sha256 to_allocvec transmit wake shared snapshot r.request_id code
                false t) { result = err ServerError.invalid }))
      → ((hosts : List HostEntry)
          → authorized_hosts snapshot.hosts allowed_hosts r.host_ids max_wake_targets ≡ ok hosts
          → P (
              answer_wake sha256 to_allocvec transmit wake
                (record shared { ledger = begun.0 })
                snapshot
                key
                r
                sorted_ids
                hosts
                policy_at
                t
                begun.1))
      → P (
          process_wake sha256 to_allocvec transmit wake shared snapshot client_key allowed_hosts r
            policy_at t)
  unfolding process_wake
  process_wake_cases P refused closed authorized =
      elim (Bool-cases (r.headers != snapshot.headers)) [
        | inl a ↦ rw (process_wake, a) (closed unauthorized)
        | inr a ↦ elim (Bool-cases (r.catalog_version != snapshot.catalog_version)) [
          | inl b ↦ rw (process_wake, a, b) (refused stale_catalog true)
          | inr b ↦
              elim (Result-cases
                (authorized_hosts snapshot.hosts allowed_hosts r.host_ids max_wake_targets)) [
                  | inl (hosts, c) ↦ rw (process_wake, a, b, c) (authorized hosts c)
                  | inr (code, c) ↦ rw (process_wake, a, b, c) (refused code false)
                ]
        ]
      ]
