-- ===== src/Server/Wakes/Runs.antt =====
-- The wake branch of `process_envelope` of src/server.rs uses the ledger only by its calls, and sends
-- packets only when the ledger lets it.
use remote_open_power.Base.{
  ℕ, Bytes, Bool, true, false, List, [], Option, none, Result, ok, err, ◌≡◌, refl, arith, is_empty,
  nat_eq, list_eq, Result-cases, Bool-cases, inl, inr, ◌∙◌, saturating_add,
}
use remote_open_power.Protocol.Message.{
  ServerEnvelope, ServerEvent, ErrorCode, busy, replay, WakeResult,
}
use remote_open_power.Server.Limits.{monitor_timeout_ms}
use remote_open_power.Server.Cooldown.{reserve_wake_targets}
use remote_open_power.Server.Entry.{OperationKey, operation_key_eq, WakeBeginResult}
use remote_open_power.Server.Ledger.{Ledger}
use remote_open_power.Server.Ledger.Entries.{begins}
use remote_open_power.Server.Ledger.Calls.{Event, run, first_dispatches, second_dispatches}
use remote_open_power.Server.Host.{HostConfig, HostEntry, Policy, Monitor}
use remote_open_power.Server.Respond.{ServerError, make_response, send_response}
use remote_open_power.Server.Requests.{
  Shared, Snapshot, Request, Readings, WakeError, Outcome, dispatch_each, reply, cached_monitor,
}
use remote_open_power.Server.Wakes.Cases.{process_wake_cases, key}
use remote_open_power.Server.Wakes.{
  send_error, refuse, send_receipt, dispatch, answer_wake, process_wake,
}
use remote_open_power.Server.Wakes.Reached.{
  dispatches, IsReached, IsReached-complete, begin_wake-IsReached,
}

-- The ledger is left as calls of its methods leave it, and when packets were sent, these calls
-- dispatched the operation exactly once.
pub record IsRun (k : OperationKey) (l : Ledger) (o : Outcome) : Type 0 where
  pub events : List Event
  pub reached : o.shared.ledger ≡ run l events
  pub counted : is_empty o.packets ≡ false → dispatches k l events ≡ 1

reply-IsRun :
    (k : OperationKey) (l : Ledger) (shared : Shared) (packets : List Bytes)
    (monitor : Option Monitor) (sent : Result ServerError ServerEnvelope) (n : ℕ)
    → IsReached k l shared.ledger n
    → (is_empty packets ≡ false → n ≡ 1)
    → IsRun k l (reply shared packets monitor sent)
reply-IsRun k l shared packets monitor (ok response) n h one = record {
  events = h.events;
  reached = h.reached;
  counted = λ some_packet. h.counted ∙ one some_packet;
}
reply-IsRun k l shared packets monitor (err e) n h one = record {
  events = h.events;
  reached = h.reached;
  counted = λ some_packet. h.counted ∙ one some_packet;
}

module _ (sha256 : Bytes → Bytes) (to_allocvec : ServerEnvelope → Option Bytes)
    (transmit : Bytes → Bool) (wake : HostConfig → Result WakeError (Unit {0})) where
  refuse-IsRun :
      (k : OperationKey) (l : Ledger) (shared : Shared) (snapshot : Snapshot) (request_id : Bytes)
      (code : ErrorCode) (retryable : Bool) (t : Readings) (n : ℕ)
      → IsReached k l shared.ledger n
      → IsRun k l
          (refuse sha256 to_allocvec transmit wake shared snapshot request_id code retryable t)
  refuse-IsRun k l shared snapshot request_id code retryable t n h =
      reply-IsRun k l shared [] none
        (send_error sha256 to_allocvec transmit wake snapshot request_id code retryable t) n h
        (λ e. cc)

  send_receipt-IsRun :
      (k : OperationKey) (l : Ledger) (shared : Shared) (snapshot : Snapshot) (key : OperationKey)
      (packets : List Bytes) (r : Request) (ticket : Bytes) (results : List WakeResult)
      (monitor : Option Monitor) (t : Readings)
      → IsReached k l shared.ledger 1
      → IsRun k l (
          send_receipt sha256 to_allocvec transmit wake shared snapshot key packets r ticket results
            monitor t)
  unfolding send_receipt
  send_receipt-IsRun k l shared snapshot key packets r ticket results monitor t h =
      elim (Result-cases (
        make_response to_allocvec snapshot.headers r.request_id
          (ServerEvent.command_executed r.request_id r.attempt ticket
            (saturating_add t.deadline_ms monitor_timeout_ms) results)
          t.made_ms)) [
            | inl (response, a) ↦
                rw (send_receipt, a)
                  (reply-IsRun k l _ packets monitor
                    (send_response to_allocvec transmit response t.sent_ms) 1
                    (IsReached-complete k key response t l shared.ledger 1 h) (λ e. refl))
            | inr (e, a) ↦
                rw (send_receipt, a) (reply-IsRun k l shared packets none (err e) 1 h (λ e. refl))
          ]

  dispatch-IsRun :
      (k : OperationKey) (l : Ledger) (shared : Shared) (snapshot : Snapshot) (key : OperationKey)
      (r : Request) (sorted_ids : List Bytes) (hosts : List HostEntry) (ticket : Bytes)
      (policy_at : HostEntry → Policy) (t : Readings)
      → IsReached k l shared.ledger 1
      → IsRun k l (
          dispatch sha256 to_allocvec transmit wake shared snapshot key r sorted_ids hosts ticket
            policy_at t)
  unfolding dispatch
  dispatch-IsRun k l shared snapshot key r sorted_ids hosts ticket policy_at t h =
      elim (Bool-cases
        (reserve_wake_targets shared.last_wake key.client_key sorted_ids t.reserved).1) [
          | inr b ↦ rw (dispatch, b) (send_receipt-IsRun k l _ snapshot key [] r ticket _ none t h)
          | inl b ↦ elim (Result-cases (dispatch_each wake policy_at hosts).1) [
            | inl (results, a) ↦
                rw (dispatch, b, a) (send_receipt-IsRun k l _ snapshot key _ r ticket results _ t h)
            | inr (e, a) ↦ rw (dispatch, b, a) (reply-IsRun k l _ _ none (err e) 1 h (λ e. refl))
          ]
        ]

  answer_wake-IsRun :
      (k : OperationKey) (l : Ledger) (shared : Shared) (snapshot : Snapshot) (key : OperationKey)
      (r : Request) (sorted_ids : List Bytes) (hosts : List HostEntry)
      (policy_at : HostEntry → Policy) (t : Readings) (begun : WakeBeginResult)
      → IsReached k l shared.ledger (begins begun)
      → IsRun k l (
          answer_wake sha256 to_allocvec transmit wake shared snapshot key r sorted_ids hosts
            policy_at t begun)
  answer_wake-IsRun k l shared snapshot key r sorted_ids hosts policy_at t
        (WakeBeginResult.cached response) h =
      reply-IsRun k l shared []
        (cached_monitor response hosts t.remaining_ms t.next_probe t.monitored)
        (send_response to_allocvec transmit response t.sent_ms) 0 h (λ e. cc)
  answer_wake-IsRun k l shared snapshot key r sorted_ids hosts policy_at t WakeBeginResult.busy h =
      refuse-IsRun k l shared snapshot r.request_id busy true t 0 h
  answer_wake-IsRun k l shared snapshot key r sorted_ids hosts policy_at t WakeBeginResult.conflict
        h =
      refuse-IsRun k l shared snapshot r.request_id replay false t 0 h
  answer_wake-IsRun k l shared snapshot key r sorted_ids hosts policy_at t WakeBeginResult.replay
        h =
      refuse-IsRun k l shared snapshot r.request_id replay false t 0 h
  answer_wake-IsRun k l shared snapshot key r sorted_ids hosts policy_at t
        (WakeBeginResult.new ticket) h =
      dispatch-IsRun k l shared snapshot key r sorted_ids hosts ticket policy_at t h

  -- The handler leaves the ledger as some calls of the ledger's methods leave it, and if it sent any
  -- packet, these calls dispatched an attempt of the request's operation exactly once.
  pub process_wake-IsRun :
      (shared : Shared) (snapshot : Snapshot) (client_key : Bytes) (allowed_hosts : List Bytes)
      (r : Request) (policy_at : HostEntry → Policy) (t : Readings)
      → IsRun
          (record { client_key = client_key; operation_id = r.request_id })
          shared.ledger
          (process_wake sha256 to_allocvec transmit wake shared snapshot client_key allowed_hosts r
            policy_at t)
  unfolding run first_dispatches second_dispatches
  process_wake-IsRun shared snapshot client_key allowed_hosts r policy_at t =
      let k : OperationKey = record { client_key = client_key; operation_id = r.request_id } in
      let start : IsReached k shared.ledger shared.ledger 0 = record {
        events = [];
        reached = refl;
        counted = omega arith;
      } in
      process_wake_cases sha256 to_allocvec transmit wake shared snapshot client_key allowed_hosts r
        policy_at t (IsRun k shared.ledger)
        (λ code retryable. refuse-IsRun k _ shared snapshot r.request_id code retryable t 0 start)
        (λ code.
          let a = refuse-IsRun k _ shared snapshot r.request_id code false t 0 start in
          record { events = a.events; reached = a.reached; counted = a.counted })
        (λ hosts found.
          answer_wake-IsRun k _ _ snapshot k r _ hosts policy_at t _
            (begin_wake-IsReached shared.ledger k _ r _ t))
