-- ===== src/Server/Wakes.antt =====
-- The wake branch of `process_envelope` of src/server.rs, from the check of the headers to the
-- monitor. The clocks that it reads, the ticket that it draws and the policies that it finds are
-- arguments; `sha256`, the encoder, the transport and the packet sender are parameters.
pub mod Cases
pub mod Answers
pub mod Packets
pub mod Reached
pub mod Runs
pub mod Cleared
use remote_open_power.Base.{
  ℕ, Bytes, bytes, Bool, true, false, List, [], ◌∷◌, ◌++◌, map, Option, none, some, Result, ok, err,
  ◌>>=◌, ◌>>◌, ◌==◌, ◌!=◌, ◌&&◌, ◌+◌, ◌-◌, ◌*◌, ◌/◌, ◌%◌, ◌^◌, if◌then◌else◌, ltb, leb, not, min,
  is_empty, contains, filter, length, nat_eq, list_eq, Dict, Instant, saturating_add, from_millis,
}
use remote_open_power.Base.Sort.{sort_by}
use remote_open_power.Base.{bytes_le}
use remote_open_power.Protocol.Message.{
  Header, header_eq, ServerEnvelope, ServerEvent, WakeResult, WakeErrorCode, ErrorCode,
  unauthorized, stale_catalog, replay, busy, max_wake_targets,
}
use remote_open_power.Server.Limits.{monitor_timeout_ms}
use remote_open_power.Server.Entry.{OperationKey, WakeRetry, WakeBeginResult}
use remote_open_power.Server.Ledger.{Ledger, begin_wake_attempt1, begin_wake_attempt2, complete}
use remote_open_power.Server.Cooldown.{WakeCooldowns, reserve_wake_targets}
use remote_open_power.Server.Host.{
  HostConfig, HostEntry, Policy, may_wake, authorized_hosts, Monitor,
}
use remote_open_power.Server.Respond.{ServerError, make_response, send_response}
use remote_open_power.Server.Requests.{
  Shared, Snapshot, Request, Readings, WakeError, Outcome, digest_input, cached_monitor, begin_wake,
  rate_limited, dispatch_each, zip_accepted, reply,
}

module _ (sha256 : Bytes → Bytes) (to_allocvec : ServerEnvelope → Option Bytes)
    (transmit : Bytes → Bool) (wake : HostConfig → Result WakeError (Unit {0})) where
  -- `send_error`
  unfoldable pub send_error :
      Snapshot → Bytes → ErrorCode → Bool → Readings → Result ServerError ServerEnvelope
  send_error snapshot request_id code retryable t = do
    response ←
        make_response to_allocvec snapshot.headers request_id (ServerEvent.error code retryable)
          t.made_ms
    send_response to_allocvec transmit response t.sent_ms

  abbrev pub refuse : Shared → Snapshot → Bytes → ErrorCode → Bool → Readings → Outcome
  refuse shared snapshot request_id code retryable t =
      reply shared [] none (send_error snapshot request_id code retryable t)

  -- `make_response`, `complete_request` and `send_response`, with the receipt.
  unfoldable pub send_receipt :
      Shared
      → Snapshot
      → OperationKey
      → List Bytes
      → Request
      → Bytes
      → List WakeResult
      → Option Monitor
      → Readings
      → Outcome
  send_receipt shared snapshot key packets r ticket results monitor t =
      elim (make_response to_allocvec snapshot.headers r.request_id
        (ServerEvent.command_executed r.request_id r.attempt ticket
          (saturating_add t.deadline_ms monitor_timeout_ms) results)
        t.made_ms) [
          | err e ↦ reply shared packets none (err e)
          | ok response ↦
              reply (record shared { ledger = complete shared.ledger key response t.completed })
                packets monitor (send_response to_allocvec transmit response t.sent_ms)
        ]

  abbrev pub new_monitor : Request → List HostEntry → List WakeResult → Readings → Option Monitor
  new_monitor r hosts results t =
      let targets = zip_accepted hosts results in
      if is_empty targets
      then none
      else some (record {
        operation_id = r.request_id;
        attempt = r.attempt;
        targets = targets;
        next_probe = t.next_probe;
        deadline = t.monitored + from_millis monitor_timeout_ms;
      })

  -- The rest of the call once the ledger answered `New`.
  unfoldable pub dispatch :
      Shared
      → Snapshot
      → OperationKey
      → Request
      → List Bytes
      → List HostEntry
      → Bytes
      → (HostEntry → Policy)
      → Readings
      → Outcome
  dispatch shared snapshot key r sorted_ids hosts ticket policy_at t =
      let (last_wake, reserved) =
        reserve_wake_targets shared.last_wake key.client_key sorted_ids t.reserved in
      let shared' : Shared = record shared { last_wake = last_wake } in
      let (packets, outcome) = dispatch_each wake policy_at hosts in
      if not reserved
      then send_receipt shared' snapshot key [] r ticket (map rate_limited sorted_ids) none t
      else elim outcome [
        | err e ↦ reply shared' packets none (err e)
        | ok results ↦
            send_receipt shared' snapshot key packets r ticket results
              (new_monitor r hosts results t) t
      ]

  abbrev pub answer_wake :
      Shared
      → Snapshot
      → OperationKey
      → Request
      → List Bytes
      → List HostEntry
      → (HostEntry → Policy)
      → Readings
      → WakeBeginResult
      → Outcome
  answer_wake shared snapshot key r sorted_ids hosts policy_at t (WakeBeginResult.cached response) =
      reply shared [] (cached_monitor response hosts t.remaining_ms t.next_probe t.monitored)
        (send_response to_allocvec transmit response t.sent_ms)
  answer_wake shared snapshot key r sorted_ids hosts policy_at t WakeBeginResult.busy =
      refuse shared snapshot r.request_id busy true t
  answer_wake shared snapshot key r sorted_ids hosts policy_at t WakeBeginResult.conflict =
      refuse shared snapshot r.request_id replay false t
  answer_wake shared snapshot key r sorted_ids hosts policy_at t WakeBeginResult.replay =
      refuse shared snapshot r.request_id replay false t
  answer_wake shared snapshot key r sorted_ids hosts policy_at t (WakeBeginResult.new ticket) =
      dispatch shared snapshot key r sorted_ids hosts ticket policy_at t

  abbrev pub wake_digest : Request → Bytes
  wake_digest r = sha256 (
      digest_input r.headers (bytes "wake") r.catalog_version (sort_by bytes_le r.host_ids)
        r.boot_nonce)

  unfoldable pub process_wake :
      Shared → Snapshot → Bytes → List Bytes → Request → (HostEntry → Policy) → Readings → Outcome
  process_wake shared snapshot client_key allowed_hosts r policy_at t =
      let key : OperationKey = record { client_key = client_key; operation_id = r.request_id } in
      let sorted_ids = sort_by bytes_le r.host_ids in
      if r.headers != snapshot.headers
      then record (refuse shared snapshot r.request_id unauthorized false t) {
        result = err ServerError.invalid;
      }
      else if r.catalog_version != snapshot.catalog_version
      then refuse shared snapshot r.request_id stale_catalog true t
      else elim (authorized_hosts snapshot.hosts allowed_hosts r.host_ids max_wake_targets) [
        | err code ↦ refuse shared snapshot r.request_id code false t
        | ok hosts ↦
            let (ledger, begun) = begin_wake shared.ledger key (wake_digest r) r sorted_ids t in
            answer_wake (record shared { ledger = ledger }) snapshot key r sorted_ids hosts
              policy_at t begun
      ]
