-- ===== src/Client/Traced.antt =====
-- Each call of the actor of src/client.rs is a sequence of moves: the calls about its requests.
pub mod Operations
pub mod Rounds
use remote_open_power.Base.{
  ℕ, Bytes, Bool, true, false, List, [], ◌∷◌, map, Option, none, some, Result, ok, err, ◌≡◌, ◌<◌,
  ◌≤◌, ◌+◌, ◌-◌, ◌==◌, ◌!=◌, ◌&&◌, ◌||◌, not, ltb, leb, collect, contains, length, is_empty,
  is_some_and, if◌then◌else◌, Dict, get, insert, remove, retain, contains_key, nat_eq, list_eq,
  option_eq, Instant, Duration, refl, arith, ◌⊎◌, inl, inr, Option-cases, Bool-cases,
}
use remote_open_power.Protocol.Message.{
  Header, ClientEnvelope, ClientOperation, HostSummary, HostStatus, WakeResult, ServerEnvelope,
  ServerEvent, header_eq, protocol_version, max_status_targets,
}
use remote_open_power.Client.{
  Actor, Moment, ClientEvent, PendingOperation, PendingRequest, ClientConnectionErrorCode,
  max_pending_operations, max_pending_requests, send_client_event, emit_event, reject_server_event,
}
use remote_open_power.Client.Handle.{
  send_status_batch, request_statuses, on_hosts, on_next_batch, on_statuses, on_command_executed,
  on_target_online, on_error, on_event, handle_server_event, chunks, with_receipt, same_set,
  refuses_receipt, refuses_online,
}
use remote_open_power.Client.Commands.{
  WakeCommand, ClientCommand, refuse, wake_envelope, new_operation, on_wake, on_command, on_refresh,
  out_of_order, invalid_wake, Turned,
}
use remote_open_power.Client.Run.{
  Round, unexpired, on_commands, on_poll, round, run_connected_client, then_turn, transport_exit,
}
use remote_open_power.Client.Moves.{
  View, view, IsPlain, IsQuery, Move, Moves, shows, asks, wakes, repeats, receives, observes,
  prunes, done, joined, once,
}

module _ (configured_headers : List Header) (configured_clock_skew : Duration) where
  abbrev pub Traced : Actor → Actor × Bool → Type 0
  Traced a q = Moves configured_headers (view a) (view q.0)

  pub emit-Traced :
      (a : Actor) (delivered : Bool) (e : ClientEvent)
      → IsPlain e
      → Traced a (emit_event a delivered e)
  emit-Traced a true e plain = once configured_headers _ _ (shows (view a) e plain)
  emit-Traced a false e plain = done (view a)

  pub send-Traced :
      (a : Actor) (delivered : Bool) (e : ClientEvent)
      → IsPlain e
      → Traced a (send_client_event a delivered e)
  send-Traced a true e plain = once configured_headers _ _ (shows (view a) e plain)
  send-Traced a false e plain = done (view a)

  pub reject-Traced : (a : Actor) (delivered : Bool) → Traced a (reject_server_event a delivered)
  reject-Traced a true = once configured_headers _ _ (shows (view a) ClientEvent.error tt)
  reject-Traced a false = done (view a)

  send_status_batch-Traced :
      (a : Actor) (m : Moment) (catalog_version : ℕ) (host_ids : List Bytes)
      (remaining : List (List Bytes))
      → Traced a (
          send_status_batch configured_headers configured_clock_skew a m catalog_version host_ids
            remaining)
  unfolding send_status_batch
  send_status_batch-Traced a m v ids remaining =
      let request : ClientEnvelope = record {
        version = protocol_version;
        request_id = m.random_id;
        issued_at_ms = m.issued_at_ms;
        headers = configured_headers;
        operation = ClientOperation.get_statuses v ids;
      } in
      elim (Bool-cases (leb max_pending_requests (length a.pending_requests) || is_empty ids)) [
        | inl full ↦ rw full (done (view a))
        | inr open_slot ↦ elim (Bool-cases (m.transmit request)) [
          | inl taken ↦
              rw (open_slot, taken) (once configured_headers _ _ (asks (view a) request tt))
          | inr refused ↦ rw (open_slot, refused) (done (view a))
        ]
      ]

  pub request_statuses-Traced :
      (a : Actor) (m : Moment) (v : ℕ) (batches : List (List Bytes))
      → Traced a (request_statuses configured_headers configured_clock_skew a m v batches)
  unfolding request_statuses
  request_statuses-Traced a m v [] = emit-Traced a m.second_delivered (ClientEvent.statuses v []) tt
  request_statuses-Traced a m v (first ∷ remaining) =
      let sent = send_status_batch configured_headers configured_clock_skew a m v first remaining in
      let traced = send_status_batch-Traced a m v first remaining in
      elim (Bool-cases sent.1) [
        | inl taken ↦ rw taken traced
        | inr refused ↦ rw refused (
            joined configured_headers _ _ _ traced
              (send-Traced sent.0 m.second_delivered ClientEvent.error tt))
      ]

  pub on_hosts_found :
      (a : Actor) (m : Moment) (id : Bytes) (v : ℕ) (summaries : List HostSummary)
      (found : Option PendingRequest)
      → get id a.pending_requests ≡ found
      → Traced a (on_hosts configured_headers configured_clock_skew a m id v summaries)
  unfolding on_hosts
  on_hosts_found a m id v summaries none h =
      rw (on_hosts, h)
        (reject-Traced (record a { pending_requests = remove id a.pending_requests })
          m.first_delivered)
  on_hosts_found a m id v summaries (some (PendingRequest.batch w ids rest)) h =
      rw (on_hosts, h)
        (reject-Traced (record a { pending_requests = remove id a.pending_requests })
          m.first_delivered)
  on_hosts_found a m id v summaries (some PendingRequest.list) h =
      let a' : Actor = record a { pending_requests = remove id a.pending_requests } in
      let shown : Actor = record a' { events = ClientEvent.hosts v summaries ∷ a'.events } in
      elim (Bool-cases m.first_delivered) [
        | inl d ↦
            simp (on_hosts, h, d)
              (joined configured_headers _ _ _
                (once configured_headers _ _ (shows (view a') (ClientEvent.hosts v summaries) tt))
                (request_statuses-Traced shown m v
                  (chunks max_status_targets (map (λ s. s.host_id) summaries))))
        | inr d ↦ simp (on_hosts, h, d) (done (view a))
      ]

  on_next_batch-Traced :
      (a : Actor) (m : Moment) (v : ℕ) (batches : List (List Bytes))
      → Traced a (on_next_batch configured_headers configured_clock_skew a m v batches)
  unfolding on_next_batch
  on_next_batch-Traced a m v [] = done (view a)
  on_next_batch-Traced a m v (next ∷ remaining) = send_status_batch-Traced a m v next remaining

  pub on_statuses_found :
      (a : Actor) (m : Moment) (id : Bytes) (v : ℕ) (reports : List HostStatus)
      (found : Option PendingRequest)
      → get id a.pending_requests ≡ found
      → Traced a (on_statuses configured_headers configured_clock_skew a m id v reports)
  unfolding on_statuses
  on_statuses_found a m id v reports none h =
      rw (on_statuses, h)
        (reject-Traced (record a { pending_requests = remove id a.pending_requests })
          m.first_delivered)
  on_statuses_found a m id v reports (some PendingRequest.list) h =
      rw (on_statuses, h)
        (reject-Traced (record a { pending_requests = remove id a.pending_requests })
          m.first_delivered)
  on_statuses_found a m id v reports (some (PendingRequest.batch w ids rest)) h =
      let a' : Actor = record a { pending_requests = remove id a.pending_requests } in
      let shown : Actor = record a' { events = ClientEvent.statuses v reports ∷ a'.events } in
      elim (Bool-cases ((w != v) || not (same_set (collect (map (λ s. s.host_id) reports)) ids))) [
        | inl bad ↦ rw (on_statuses, h, bad) (reject-Traced a' m.first_delivered)
        | inr good ↦ elim (Bool-cases m.first_delivered) [
          | inl d ↦
              simp (on_statuses, h, good, d)
                (joined configured_headers _ _ _
                  (once configured_headers _ _
                    (shows (view a') (ClientEvent.statuses v reports) tt))
                  (on_next_batch-Traced shown m v rest))
          | inr d ↦ simp (on_statuses, h, good, d) (done (view a))
        ]
      ]

  pub on_error-Traced :
      (a : Actor) (m : Moment) (id : Bytes)
      → Traced a (on_error configured_headers configured_clock_skew a m id)
  unfolding on_error
  on_error-Traced a m id =
      let a' : Actor = record a { pending_requests = remove id a.pending_requests } in
      elim (Bool-cases (contains_key id a.pending_requests || contains_key id a.pending)) [
        | inl known ↦ rw known (emit-Traced a' m.first_delivered ClientEvent.error tt)
        | inr unknown ↦ rw unknown (reject-Traced a' m.first_delivered)
      ]
