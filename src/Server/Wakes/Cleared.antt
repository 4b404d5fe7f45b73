-- ===== src/Server/Wakes/Cleared.antt =====
-- What the wake branch of `process_envelope` of src/server.rs passes before it sends a packet.
use remote_open_power.Base.{
  Bytes, Bool, true, false, List, [], Option, none, Result, ◌≡◌, refl, arith, is_empty,
}
use remote_open_power.Protocol.Message.{ServerEnvelope, busy, replay}
use remote_open_power.Server.Cooldown.{reserve_wake_targets}
use remote_open_power.Server.Entry.{OperationKey, WakeBeginResult}
use remote_open_power.Server.Ledger.Entries.{begins}
use remote_open_power.Server.Host.{HostConfig, HostEntry, Policy}
use remote_open_power.Server.Respond.{send_response}
use remote_open_power.Server.Requests.{
  Shared, Snapshot, Request, Readings, WakeError, cached_monitor,
}
use remote_open_power.Server.Wakes.Cases.{process_wake_cases, begun, sorted_ids}
use remote_open_power.Server.Wakes.Packets.{reply-packets, refuse-packets, dispatch-packets}
use remote_open_power.Server.Wakes.{send_error, answer_wake, process_wake}

-- The answer of the ledger is `New`, and the cooldown grants the hosts.
pub record IsCleared (shared : Shared) (client_key : Bytes) (sorted_ids : List Bytes) (t : Readings)
    (answer : WakeBeginResult) : Type 0 where
  pub dispatched : begins answer ≡ 1
  pub granted : (reserve_wake_targets shared.last_wake client_key sorted_ids t.reserved).1 ≡ true

module _ (sha256 : Bytes → Bytes) (to_allocvec : ServerEnvelope → Option Bytes)
    (transmit : Bytes → Bool) (wake : HostConfig → Result WakeError (Unit {0})) where
  answer_wake-IsCleared :
      (shared : Shared) (snapshot : Snapshot) (key : OperationKey) (r : Request) (ids : List Bytes)
      (hosts : List HostEntry) (policy_at : HostEntry → Policy) (t : Readings)
      (answer : WakeBeginResult)
      → is_empty
          (answer_wake sha256 to_allocvec transmit wake shared snapshot key r ids hosts policy_at t
            answer).packets
        ≡ false
      → IsCleared shared key.client_key ids t answer
  answer_wake-IsCleared shared snapshot key r ids hosts policy_at t (WakeBeginResult.new ticket) h =
      record {
        dispatched = refl;
        granted = ground (
          arith,
          h,
          dispatch-packets sha256 to_allocvec transmit wake shared snapshot key r ids hosts ticket
              policy_at t,
        );
      }
  answer_wake-IsCleared shared snapshot key r ids hosts policy_at t
        (WakeBeginResult.cached response) h =
      absurd (
        ground (
          arith,
          h,
          reply-packets shared []
              (cached_monitor response hosts t.remaining_ms t.next_probe t.monitored)
              (send_response to_allocvec transmit response t.sent_ms),
        ))
  answer_wake-IsCleared shared snapshot key r ids hosts policy_at t WakeBeginResult.busy h =
      absurd (
        ground (
          arith,
          h,
          reply-packets shared [] none
              (send_error sha256 to_allocvec transmit wake snapshot r.request_id busy true t),
        ))
  answer_wake-IsCleared shared snapshot key r ids hosts policy_at t WakeBeginResult.conflict h =
      absurd (
        ground (
          arith,
          h,
          reply-packets shared [] none
              (send_error sha256 to_allocvec transmit wake snapshot r.request_id replay false t),
        ))
  answer_wake-IsCleared shared snapshot key r ids hosts policy_at t WakeBeginResult.replay h =
      absurd (
        ground (
          arith,
          h,
          reply-packets shared [] none
              (send_error sha256 to_allocvec transmit wake snapshot r.request_id replay false t),
        ))

  -- The handler sends packets only if the ledger answers the request's call with `New`, and the
  -- cooldown then grants the client all hosts of the request.
  pub process_wake-IsCleared :
      (shared : Shared) (snapshot : Snapshot) (client_key : Bytes) (allowed_hosts : List Bytes)
      (r : Request) (policy_at : HostEntry → Policy) (t : Readings)
      → is_empty
          (process_wake sha256 to_allocvec transmit wake shared snapshot client_key allowed_hosts r
            policy_at t).packets
        ≡ false
      → IsCleared shared client_key
          (sorted_ids sha256 to_allocvec transmit wake shared snapshot client_key allowed_hosts r
            policy_at t)
          t
          (begun sha256 to_allocvec transmit wake shared snapshot client_key allowed_hosts r
            policy_at t).1
  process_wake-IsCleared shared snapshot client_key allowed_hosts r policy_at t =
      process_wake_cases sha256 to_allocvec transmit wake shared snapshot client_key allowed_hosts r
        policy_at t
        (λ o.
          is_empty o.packets ≡ false
          → IsCleared shared client_key
              (sorted_ids sha256 to_allocvec transmit wake shared snapshot client_key allowed_hosts
                r policy_at t)
              t
              (begun sha256 to_allocvec transmit wake shared snapshot client_key allowed_hosts r
                policy_at t).1)
        (λ code retryable h. absurd (
          ground (
            arith,
            h,
            refuse-packets sha256 to_allocvec transmit wake shared snapshot r.request_id code
                retryable t,
          )))
        (λ code h. absurd (
          ground (
            arith,
            h,
            refuse-packets sha256 to_allocvec transmit wake shared snapshot r.request_id code false
                t,
          )))
        (λ hosts found h.
          let c = answer_wake-IsCleared _ snapshot _ r _ hosts policy_at t _ h in
          record { dispatched = c.dispatched; granted = c.granted })
