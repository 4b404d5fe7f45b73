-- ===== src/Server/Wakes/Answers.antt =====
-- What the wake branch of `process_envelope` of src/server.rs answers.
use remote_open_power.Base.{
  ℕ, Bytes, Bool, true, false, List, [], All, Option, none, Result, ok, err, ◌≤◌, ◌≡◌, refl, arith,
  saturating_add, length, nat_eq, list_eq, Result-cases, Bool-cases, inl, inr,
}
use remote_open_power.Protocol.Message.{
  header_eq, ServerEnvelope, ServerEvent, ErrorCode, WakeResult,
}
use remote_open_power.Protocol.Validate.{validate_server}
use remote_open_power.Server.Entry.{OperationKey, operation_key_eq, WakeBeginResult}
use remote_open_power.Server.Limits.{monitor_timeout_ms}
use remote_open_power.Server.Cooldown.{reserve_wake_targets}
use remote_open_power.Server.Host.{HostConfig, HostEntry, Policy, Monitor}
use remote_open_power.Server.Respond.{ServerError, make_response, send_response}
use remote_open_power.Server.Requests.{
  Shared, Snapshot, Request, Readings, WakeError, Outcome, dispatch_each, reply,
}
use remote_open_power.Server.Wakes.Cases.{process_wake_cases}
use remote_open_power.Server.Wakes.{
  send_error, refuse, send_receipt, dispatch, answer_wake, process_wake,
}

abbrev pub is_ok {ℓ κ} : {E : Type ℓ} {A : Type κ} → Result E A → Bool
is_ok (ok a) = true
is_ok (err e) = false

-- At most one response is sent, exactly one unless the call fails, and what is sent is valid.
pub record IsAnswer (o : Outcome) : Type 0 where
  pub at_most_one : length o.sent ≤ 1
  pub answered : is_ok o.result ≡ true → length o.sent ≡ 1
  pub valid : All (λ e. validate_server e ≡ ok tt) o.sent

module _ (sha256 : Bytes → Bytes) (to_allocvec : ServerEnvelope → Option Bytes)
    (transmit : Bytes → Bool) (wake : HostConfig → Result WakeError (Unit {0})) where
  send_response-valid :
      (response sent : ServerEnvelope) (clock_ms : ℕ)
      → send_response to_allocvec transmit response clock_ms ≡ ok sent
      → validate_server sent ≡ ok tt
  unfolding send_response
  send_response-valid response sent clock_ms h =
      elim (Result-cases (validate_server (record response { issued_at_ms = clock_ms }))) [
        | inl (u, a) ↦ ground (arith, a, h)
        | inr (x, a) ↦ absurd (ground (arith, a, h))
      ]

  reply-IsAnswer :
      (shared : Shared) (packets : List Bytes) (monitor : Option Monitor)
      (response : ServerEnvelope) (clock_ms : ℕ)
      → IsAnswer
          (reply shared packets monitor (send_response to_allocvec transmit response clock_ms))
  reply-IsAnswer shared packets monitor response clock_ms =
      elim (Result-cases (send_response to_allocvec transmit response clock_ms)) [
        | inl (sent, a) ↦ rw (a) (record {
          at_most_one = omega arith;
          answered = λ h. refl;
          valid = (send_response-valid response sent clock_ms a, tt);
        })
        | inr (e, a) ↦ rw (a) (record { at_most_one = omega arith; answered = λ h. cc; valid = tt })
      ]

  error-IsAnswer :
      (shared : Shared) (packets : List Bytes) (monitor : Option Monitor) (e : ServerError)
      → IsAnswer (reply shared packets monitor (err e))
  error-IsAnswer shared packets monitor e = record {
    at_most_one = omega arith;
    answered = λ h. cc;
    valid = tt;
  }

  refuse-IsAnswer :
      (shared : Shared) (snapshot : Snapshot) (request_id : Bytes) (code : ErrorCode)
      (retryable : Bool) (t : Readings)
      → IsAnswer
          (refuse sha256 to_allocvec transmit wake shared snapshot request_id code retryable t)
  unfolding send_error
  refuse-IsAnswer shared snapshot request_id code retryable t =
      elim (Result-cases (
        make_response to_allocvec snapshot.headers request_id (ServerEvent.error code retryable)
          t.made_ms)) [
            | inl (response, a) ↦ rw (a) (reply-IsAnswer shared [] none response t.sent_ms)
            | inr (e, a) ↦ rw (a) (error-IsAnswer shared [] none e)
          ]

  send_receipt-IsAnswer :
      (shared : Shared) (snapshot : Snapshot) (key : OperationKey) (packets : List Bytes)
      (r : Request) (ticket : Bytes) (results : List WakeResult) (monitor : Option Monitor)
      (t : Readings)
      → IsAnswer (
          send_receipt sha256 to_allocvec transmit wake shared snapshot key packets r ticket results
            monitor t)
  unfolding send_receipt
  send_receipt-IsAnswer shared snapshot key packets r ticket results monitor t =
      elim (Result-cases (
        make_response to_allocvec snapshot.headers r.request_id
          (ServerEvent.command_executed r.request_id r.attempt ticket
            (saturating_add t.deadline_ms monitor_timeout_ms) results)
          t.made_ms)) [
            | inl (response, a) ↦
                rw (send_receipt, a) (reply-IsAnswer _ packets monitor response t.sent_ms)
            | inr (e, a) ↦ rw (send_receipt, a) (error-IsAnswer shared packets none e)
          ]

  dispatch-IsAnswer :
      (shared : Shared) (snapshot : Snapshot) (key : OperationKey) (r : Request)
      (sorted_ids : List Bytes) (hosts : List HostEntry) (ticket : Bytes)
      (policy_at : HostEntry → Policy) (t : Readings)
      → IsAnswer (
          dispatch sha256 to_allocvec transmit wake shared snapshot key r sorted_ids hosts ticket
            policy_at t)
  unfolding dispatch
  dispatch-IsAnswer shared snapshot key r sorted_ids hosts ticket policy_at t =
      elim (Bool-cases
        (reserve_wake_targets shared.last_wake key.client_key sorted_ids t.reserved).1) [
          | inr b ↦ rw (dispatch, b) (send_receipt-IsAnswer _ snapshot key [] r ticket _ none t)
          | inl b ↦ elim (Result-cases (dispatch_each wake policy_at hosts).1) [
            | inl (results, a) ↦
                rw (dispatch, b, a) (send_receipt-IsAnswer _ snapshot key _ r ticket results _ t)
            | inr (e, a) ↦ rw (dispatch, b, a) (error-IsAnswer _ _ none e)
          ]
        ]

  answer_wake-IsAnswer :
      (shared : Shared) (snapshot : Snapshot) (key : OperationKey) (r : Request)
      (sorted_ids : List Bytes) (hosts : List HostEntry) (policy_at : HostEntry → Policy)
      (t : Readings) (begun : WakeBeginResult)
      → IsAnswer (
          answer_wake sha256 to_allocvec transmit wake shared snapshot key r sorted_ids hosts
            policy_at t begun)
  answer_wake-IsAnswer shared snapshot key r sorted_ids hosts policy_at t
        (WakeBeginResult.cached response) =
      reply-IsAnswer shared [] _ response t.sent_ms
  answer_wake-IsAnswer shared snapshot key r sorted_ids hosts policy_at t WakeBeginResult.busy =
      refuse-IsAnswer shared snapshot r.request_id _ true t
  answer_wake-IsAnswer shared snapshot key r sorted_ids hosts policy_at t WakeBeginResult.conflict =
      refuse-IsAnswer shared snapshot r.request_id _ false t
  answer_wake-IsAnswer shared snapshot key r sorted_ids hosts policy_at t WakeBeginResult.replay =
      refuse-IsAnswer shared snapshot r.request_id _ false t
  answer_wake-IsAnswer shared snapshot key r sorted_ids hosts policy_at t
        (WakeBeginResult.new ticket) =
      dispatch-IsAnswer shared snapshot key r sorted_ids hosts ticket policy_at t

  -- Every wake request that reaches the handler is answered at most once, and exactly once unless the
  -- handler fails; and what it sends is an envelope that `validate` accepts.
  pub process_wake-IsAnswer :
      (shared : Shared) (snapshot : Snapshot) (client_key : Bytes) (allowed_hosts : List Bytes)
      (r : Request) (policy_at : HostEntry → Policy) (t : Readings)
      → IsAnswer (
          process_wake sha256 to_allocvec transmit wake shared snapshot client_key allowed_hosts r
            policy_at t)
  process_wake-IsAnswer shared snapshot client_key allowed_hosts r policy_at t =
      process_wake_cases sha256 to_allocvec transmit wake shared snapshot client_key allowed_hosts r
        policy_at t IsAnswer
        (λ code retryable. refuse-IsAnswer shared snapshot r.request_id code retryable t)
        (λ code.
          let a = refuse-IsAnswer shared snapshot r.request_id code false t in
          record { at_most_one = a.at_most_one; answered = λ h. cc; valid = a.valid })
        (λ hosts found. answer_wake-IsAnswer _ snapshot _ r _ hosts policy_at t _)
