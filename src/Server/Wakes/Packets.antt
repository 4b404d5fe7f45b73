-- ===== src/Server/Wakes/Packets.antt =====
-- For which hosts the wake branch of `process_envelope` of src/server.rs sends packets.
use remote_open_power.Base.{
  Bytes, Bool, true, false, List, [], ◌∷◌, Option, none, some, Result, ok, err, ◌≡◌, refl, arith,
  contains, nat_eq, list_eq, list_eq?, get, Result-cases, Bool-cases, inl, inr, saturating_add,
  if◌then◌else◌,
}
use remote_open_power.Protocol.Message.{
  ServerEnvelope, ServerEvent, ErrorCode, busy, replay, WakeResult, max_wake_targets,
}
use remote_open_power.Server.Limits.{monitor_timeout_ms}
use remote_open_power.Server.Cooldown.{reserve_wake_targets}
use remote_open_power.Server.Entry.{OperationKey, WakeBeginResult}
use remote_open_power.Server.Host.{HostConfig, HostEntry, Policy, may_wake, Monitor}
use remote_open_power.Server.Host.Access.{Among, Among-Asked, authorized_hosts_iff}
use remote_open_power.Server.Respond.{ServerError, make_response, send_response}
use remote_open_power.Server.Requests.{
  Shared, Snapshot, Request, Readings, WakeError, dispatch_each, reply, cached_monitor,
}
use remote_open_power.Server.Wakes.Cases.{process_wake_cases}
use remote_open_power.Server.Wakes.{
  send_error, refuse, send_receipt, dispatch, answer_wake, process_wake,
}

pub reply-packets :
    (shared : Shared) (packets : List Bytes) (monitor : Option Monitor)
    (sent : Result ServerError ServerEnvelope)
    → (reply shared packets monitor sent).packets ≡ packets
reply-packets shared packets monitor (ok response) = refl
reply-packets shared packets monitor (err e) = refl

-- An entry of the list for which the policy read at its turn allowed the packet.
pub record Allowed (policy_at : HostEntry → Policy) (host : Bytes) (In : HostEntry → Type 0)
    : Type 0 where
  pub entry : HostEntry
  pub listed : In entry
  pub named : entry.id ≡ host
  pub permitted : may_wake (policy_at entry) entry ≡ true

dispatch_each-Allowed :
    (wake : HostConfig → Result WakeError (Unit {0})) (policy_at : HostEntry → Policy)
    (hosts : List HostEntry) (host : Bytes)
    → contains (dispatch_each wake policy_at hosts).0 host ≡ true
    → Allowed policy_at host (Among hosts)
unfolding dispatch_each
dispatch_each-Allowed wake policy_at [] host h = absurd (ground arith)
dispatch_each-Allowed wake policy_at (x ∷ xs) host h =
    elim (Bool-cases (may_wake (policy_at x) x)) [
      | inr a ↦ absurd (ground (arith, a))
      | inl a ↦ elim (list_eq? x.id host) [
        | yes p ↦ record { entry = x; listed = inl refl; named = p; permitted = a }
        | no p ↦
            let later : contains (dispatch_each wake policy_at xs).0 host ≡ true =
              ground (arith, a, h, p) in
            let rest = dispatch_each-Allowed wake policy_at xs host later in
            record {
              entry = rest.entry;
              listed = inr rest.listed;
              named = rest.named;
              permitted = rest.permitted;
            }
      ]
    ]

-- What a packet rests on: the request names the host, the client is allowed it, the configuration
-- has the entry under that name, and the policy read at its turn allows it.
pub record IsPermitted (snapshot : Snapshot) (allowed_hosts host_ids : List Bytes)
    (policy_at : HostEntry → Policy) (host : Bytes) : Type 0 where
  pub host_id : Bytes
  pub entry : HostEntry
  pub requested : contains host_ids host_id ≡ true
  pub allowed : contains allowed_hosts host_id ≡ true
  pub configured : get host_id snapshot.hosts ≡ some entry
  pub named : entry.id ≡ host
  pub permitted : may_wake (policy_at entry) entry ≡ true

module _ (sha256 : Bytes → Bytes) (to_allocvec : ServerEnvelope → Option Bytes)
    (transmit : Bytes → Bool) (wake : HostConfig → Result WakeError (Unit {0})) where
  send_receipt-packets :
      (shared : Shared) (snapshot : Snapshot) (key : OperationKey) (packets : List Bytes)
      (r : Request) (ticket : Bytes) (results : List WakeResult) (monitor : Option Monitor)
      (t : Readings)
      → (send_receipt sha256 to_allocvec transmit wake shared snapshot key packets r ticket results
          monitor t).packets
        ≡ packets
  unfolding send_receipt
  send_receipt-packets shared snapshot key packets r ticket results monitor t =
      elim (Result-cases (
        make_response to_allocvec snapshot.headers r.request_id
          (ServerEvent.command_executed r.request_id r.attempt ticket
            (saturating_add t.deadline_ms monitor_timeout_ms) results)
          t.made_ms)) [
            | inl (response, a) ↦
                rw (send_receipt, a)
                  (reply-packets _ packets monitor
                    (send_response to_allocvec transmit response t.sent_ms))
            | inr (e, a) ↦ rw (send_receipt, a) refl
          ]

  -- Packets are sent for the hosts of the loop, and for none if the cooldown refuses.
  pub dispatch-packets :
      (shared : Shared) (snapshot : Snapshot) (key : OperationKey) (r : Request)
      (sorted_ids : List Bytes) (hosts : List HostEntry) (ticket : Bytes)
      (policy_at : HostEntry → Policy) (t : Readings)
      → (dispatch sha256 to_allocvec transmit wake shared snapshot key r sorted_ids hosts ticket
          policy_at t).packets
        ≡ (if (reserve_wake_targets shared.last_wake key.client_key sorted_ids t.reserved).1
            then (dispatch_each wake policy_at hosts).0
            else [])
  unfolding dispatch
  dispatch-packets shared snapshot key r sorted_ids hosts ticket policy_at t =
      elim (Bool-cases
        (reserve_wake_targets shared.last_wake key.client_key sorted_ids t.reserved).1) [
          | inr b ↦ rw (dispatch, b) (send_receipt-packets _ snapshot key [] r ticket _ none t)
          | inl b ↦ elim (Result-cases (dispatch_each wake policy_at hosts).1) [
            | inl (results, a) ↦
                rw (dispatch, b, a) (send_receipt-packets _ snapshot key _ r ticket results _ t)
            | inr (e, a) ↦ rw (dispatch, b, a) refl
          ]
        ]

  answer_wake-packets :
      (shared : Shared) (snapshot : Snapshot) (key : OperationKey) (r : Request)
      (sorted_ids : List Bytes) (hosts : List HostEntry) (policy_at : HostEntry → Policy)
      (t : Readings) (begun : WakeBeginResult) (host : Bytes)
      → contains
          (answer_wake sha256 to_allocvec transmit wake shared snapshot key r sorted_ids hosts
            policy_at t begun).packets
          host
        ≡ true
      → contains (dispatch_each wake policy_at hosts).0 host ≡ true
  answer_wake-packets shared snapshot key r sorted_ids hosts policy_at t
        (WakeBeginResult.new ticket) host h =
      ground (arith, h, dispatch-packets shared snapshot key r sorted_ids hosts ticket policy_at t)
  answer_wake-packets shared snapshot key r sorted_ids hosts policy_at t
        (WakeBeginResult.cached response) host h =
      absurd (
        ground (
          arith,
          h,
          reply-packets shared []
              (cached_monitor response hosts t.remaining_ms t.next_probe t.monitored)
              (send_response to_allocvec transmit response t.sent_ms),
        ))
  answer_wake-packets shared snapshot key r sorted_ids hosts policy_at t WakeBeginResult.busy host
        h =
      absurd (
        ground (
          arith,
          h,
          reply-packets shared [] none
              (send_error sha256 to_allocvec transmit wake snapshot r.request_id busy true t),
        ))
  answer_wake-packets shared snapshot key r sorted_ids hosts policy_at t WakeBeginResult.conflict
        host h =
      absurd (
        ground (
          arith,
          h,
          reply-packets shared [] none
              (send_error sha256 to_allocvec transmit wake snapshot r.request_id replay false t),
        ))
  answer_wake-packets shared snapshot key r sorted_ids hosts policy_at t WakeBeginResult.replay host
        h =
      absurd (
        ground (
          arith,
          h,
          reply-packets shared [] none
              (send_error sha256 to_allocvec transmit wake snapshot r.request_id replay false t),
        ))

  pub refuse-packets :
      (shared : Shared) (snapshot : Snapshot) (request_id : Bytes) (code : ErrorCode)
      (retryable : Bool) (t : Readings)
      → (refuse sha256 to_allocvec transmit wake shared snapshot request_id code retryable
          t).packets
        ≡ []
  refuse-packets shared snapshot request_id code retryable t =
      reply-packets shared [] none
        (send_error sha256 to_allocvec transmit wake snapshot request_id code retryable t)

  -- A packet is sent only for an entry that the configuration has under an identifier of the request
  -- that the client is allowed, and that the policy read at its turn in the loop allows as well.
  pub process_wake-IsPermitted :
      (shared : Shared) (snapshot : Snapshot) (client_key : Bytes) (allowed_hosts : List Bytes)
      (r : Request) (policy_at : HostEntry → Policy) (t : Readings) (host : Bytes)
      → contains
          (process_wake sha256 to_allocvec transmit wake shared snapshot client_key allowed_hosts r
            policy_at t).packets
          host
        ≡ true
      → IsPermitted snapshot allowed_hosts r.host_ids policy_at host
  process_wake-IsPermitted shared snapshot client_key allowed_hosts r policy_at t host =
      process_wake_cases sha256 to_allocvec transmit wake shared snapshot client_key allowed_hosts r
        policy_at t
        (λ o.
          contains o.packets host ≡ true
          → IsPermitted snapshot allowed_hosts r.host_ids policy_at host)
        (λ code retryable h.
          absurd (ground (arith, h, refuse-packets shared snapshot r.request_id code retryable t)))
        (λ code h.
          absurd (ground (arith, h, refuse-packets shared snapshot r.request_id code false t)))
        (λ hosts found h.
          let sent = answer_wake-packets _ snapshot _ r _ hosts policy_at t _ host h in
          let a = dispatch_each-Allowed wake policy_at hosts host sent in
          let granted =
            (authorized_hosts_iff snapshot.hosts allowed_hosts r.host_ids max_wake_targets hosts).0
              found in
          let asked =
            Among-Asked snapshot.hosts allowed_hosts [] r.host_ids hosts a.entry granted.2
              a.listed in
          record {
            host_id = asked.host_id;
            entry = a.entry;
            requested = asked.requested;
            allowed = asked.allowed;
            configured = asked.configured;
            named = a.named;
            permitted = a.permitted;
          })
