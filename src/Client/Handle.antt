-- ===== src/Client/Handle.antt =====
-- `handle_server_event` of src/client.rs and what it calls.
use remote_open_power.Base.{
  ℕ, zero, suc, Bytes, Bool, true, false, List, [], ◌∷◌, map, filter, Option, none, some, ◌+◌, ◌-◌,
  ◌/◌, ◌%◌, ◌^◌, ◌==◌, ◌!=◌, ◌&&◌, ◌||◌, not, ltb, leb, min, all, contains, collect, length,
  is_empty, is_some_and, take, drop, if◌then◌else◌, get, insert, remove, contains_key, nat_eq,
  list_eq, option_eq, saturating_add, u64_max, Duration,
}
use remote_open_power.Protocol.Message.{
  Header, header_eq, ClientEnvelope, ClientOperation, ServerEnvelope, ServerEvent, HostSummary,
  HostStatus, WakeResult, protocol_version, max_status_targets,
}
use remote_open_power.Client.{
  Actor, Moment, ClientEvent, PendingRequest, PendingOperation, max_pending_requests,
  wake_wait_timeout_ms, send_client_event, emit_event, reject_server_event, close_connection,
}

-- Equality of two `HashSet`s.
abbrev pub same_set : List Bytes → List Bytes → Bool
same_set s t = all (contains t) s && all (contains s) t

-- `skew.as_millis() as u64`
abbrev pub skew_ms : Duration → ℕ
skew_ms skew = skew / 1000000 % 2 ^ 64

abbrev pub abs_diff : ℕ → ℕ → ℕ
abs_diff a b = a - b + (b - a)

unfoldable pub observation_time_valid : ℕ → Option ℕ → ℕ → Duration → Bool
observation_time_valid observed deadline now skew =
    (observed != 0)
    && leb observed (saturating_add now (skew_ms skew))
    && leb (now - saturating_add wake_wait_timeout_ms (skew_ms skew)) observed
    && is_some_and deadline (λ d. leb observed d && leb now (saturating_add d (skew_ms skew)))

-- `chunks`, on fuel: each chunk takes at least one element.
unfoldable pub chunks_in {ℓ} : {A : Type ℓ} → ℕ → ℕ → List A → List (List A)
chunks_in zero n xs = []
chunks_in (suc fuel) n [] = []
chunks_in (suc fuel) n (x ∷ xs) = take n (x ∷ xs) ∷ chunks_in fuel n (drop n (x ∷ xs))

abbrev pub chunks {ℓ} : {A : Type ℓ} → ℕ → List A → List (List A)
chunks n xs = chunks_in (length xs) n xs

-- The receipt of an operation that has seen none.
abbrev pub with_receipt : PendingOperation → ℕ → Bytes → ℕ → List WakeResult → PendingOperation
with_receipt operation attempt retry_ticket deadline_ms results = record operation {
  ticket = if attempt == 1 then some retry_ticket else operation.ticket;
  accepted_targets = some (collect (map (λ r. r.host_id) (filter (λ r. r.accepted) results)));
  receipt_seen = true;
  deadline_ms = some deadline_ms;
}

module _ (configured_headers : List Header) (configured_clock_skew : Duration) where
  unfoldable pub send_status_batch :
      Actor → Moment → ℕ → List Bytes → List (List Bytes) → Actor × Bool
  send_status_batch a m catalog_version host_ids remaining =
      let request : ClientEnvelope = record {
        version = protocol_version;
        request_id = m.random_id;
        issued_at_ms = m.issued_at_ms;
        headers = configured_headers;
        operation = ClientOperation.get_statuses catalog_version host_ids;
      } in
      let pending_requests =
        insert m.random_id (PendingRequest.batch catalog_version (collect host_ids) remaining)
          a.pending_requests in
      if leb max_pending_requests (length a.pending_requests) || is_empty host_ids
      then (close_connection a, false)
      else if not (m.transmit request)
      then (
        close_connection (record a { pending_requests = remove m.random_id pending_requests }),
        false,
      )
      else (record a { pending_requests = pending_requests; sent = request ∷ a.sent }, true)

  -- The status requests of a list of hosts, or an empty answer for none.
  unfoldable pub request_statuses : Actor → Moment → ℕ → List (List Bytes) → Actor × Bool
  request_statuses a m catalog_version [] =
      emit_event a m.second_delivered (ClientEvent.statuses catalog_version [])
  request_statuses a m catalog_version (first ∷ remaining) =
      let (a', done) = send_status_batch a m catalog_version first remaining in
      if done
      then (a', true)
      else ((send_client_event a' m.second_delivered ClientEvent.error).0, false)

  unfoldable pub on_hosts : Actor → Moment → Bytes → ℕ → List HostSummary → Actor × Bool
  on_hosts a m request_id catalog_version summaries =
      let a' : Actor = record a { pending_requests = remove request_id a.pending_requests } in
      elim (get request_id a.pending_requests) [
        | some (PendingRequest.list) ↦
            let (shown, done) =
              emit_event a' m.first_delivered (ClientEvent.hosts catalog_version summaries) in
            if not done
            then (shown, false)
            else request_statuses shown m catalog_version
                (chunks max_status_targets (map (λ h. h.host_id) summaries))
        | other ↦ reject_server_event a' m.first_delivered
      ]

  unfoldable pub on_next_batch : Actor → Moment → ℕ → List (List Bytes) → Actor × Bool
  on_next_batch a m catalog_version [] = (a, true)
  on_next_batch a m catalog_version (next ∷ remaining) =
      send_status_batch a m catalog_version next remaining

  unfoldable pub on_statuses : Actor → Moment → Bytes → ℕ → List HostStatus → Actor × Bool
  on_statuses a m request_id catalog_version reports =
      let a' : Actor = record a { pending_requests = remove request_id a.pending_requests } in
      elim (get request_id a.pending_requests) [
        | some (PendingRequest.batch expected_catalog expected_hosts remaining) ↦
            let status_ids = collect (map (λ s. s.host_id) reports) in
            let (shown, done) =
              emit_event a' m.first_delivered (ClientEvent.statuses catalog_version reports) in
            if (expected_catalog != catalog_version) || not (same_set status_ids expected_hosts)
            then reject_server_event a' m.first_delivered
            else if not done
            then (shown, false)
            else on_next_batch shown m catalog_version remaining
        | other ↦ reject_server_event a' m.first_delivered
      ]

  abbrev pub refuses_receipt :
      PendingOperation → Moment → Bytes → Bytes → ℕ → Bytes → ℕ → List WakeResult → Bool
  refuses_receipt operation m request_id operation_id attempt retry_ticket deadline_ms results =
      (request_id != operation_id)
      || (attempt != operation.attempt)
      || ((attempt == 2) && (operation.ticket != some retry_ticket))
      || ltb deadline_ms (m.now_ms - skew_ms configured_clock_skew)
      || ltb
          (saturating_add (saturating_add m.now_ms wake_wait_timeout_ms)
            (skew_ms configured_clock_skew))
          deadline_ms
      || not (same_set (collect (map (λ r. r.host_id) results)) operation.targets)

  unfoldable pub on_command_executed :
      Actor → Moment → Bytes → Bytes → ℕ → Bytes → ℕ → List WakeResult → Actor × Bool
  on_command_executed a m request_id operation_id attempt retry_ticket deadline_ms results =
      elim (get operation_id a.pending) [
        | none ↦ reject_server_event a m.first_delivered
        | some operation ↦
            let repeated : PendingOperation = record operation { deadline_ms = some deadline_ms } in
            let receipt = with_receipt operation attempt retry_ticket deadline_ms results in
            if refuses_receipt operation m request_id operation_id attempt retry_ticket deadline_ms
              results
            then reject_server_event a m.first_delivered
            else if operation.receipt_seen
            then (record a { pending = insert operation_id repeated a.pending }, true)
            else emit_event (record a { pending = insert operation_id receipt a.pending })
                m.first_delivered
                (ClientEvent.command_executed operation_id attempt retry_ticket deadline_ms results)
      ]

  abbrev pub refuses_online : PendingOperation → Moment → Bytes → Bytes → ℕ → Bytes → ℕ → Bool
  refuses_online operation m request_id operation_id attempt host_id observed_at_ms =
      (request_id != operation_id)
      || (attempt != operation.attempt)
      || not (is_some_and operation.accepted_targets (λ targets. contains targets host_id))
      || not operation.receipt_seen
      || not (
          observation_time_valid observed_at_ms operation.deadline_ms m.now_ms
            configured_clock_skew)

  unfoldable pub on_target_online : Actor → Moment → Bytes → Bytes → ℕ → Bytes → ℕ → Actor × Bool
  on_target_online a m request_id operation_id attempt host_id observed_at_ms =
      elim (get operation_id a.pending) [
        | none ↦ reject_server_event a m.first_delivered
        | some operation ↦
            let seen : PendingOperation = record operation {
              online = host_id ∷ operation.online;
            } in
            if refuses_online operation m request_id operation_id attempt host_id observed_at_ms
            then reject_server_event a m.first_delivered
            else if contains operation.online host_id
            then (a, true)
            else emit_event (record a { pending = insert operation_id seen a.pending })
                m.first_delivered (ClientEvent.target_online operation_id attempt host_id)
      ]

  unfoldable pub on_error : Actor → Moment → Bytes → Actor × Bool
  on_error a m request_id =
      let known = contains_key request_id a.pending_requests || contains_key request_id a.pending in
      let a' : Actor = record a { pending_requests = remove request_id a.pending_requests } in
      if not known
      then reject_server_event a' m.first_delivered
      else emit_event a' m.first_delivered ClientEvent.error

  abbrev pub on_event : Actor → Moment → Bytes → ServerEvent → Actor × Bool
  on_event a m request_id (ServerEvent.hosts catalog_version summaries) =
      on_hosts a m request_id catalog_version summaries
  on_event a m request_id (ServerEvent.statuses catalog_version reports) =
      on_statuses a m request_id catalog_version reports
  on_event a m request_id
        (ServerEvent.command_executed operation_id attempt retry_ticket deadline_ms results) =
      on_command_executed a m request_id operation_id attempt retry_ticket deadline_ms results
  on_event a m request_id (ServerEvent.target_online operation_id attempt host_id observed_at_ms) =
      on_target_online a m request_id operation_id attempt host_id observed_at_ms
  on_event a m request_id (ServerEvent.error code retryable) = on_error a m request_id

  unfoldable pub handle_server_event : Actor → Moment → ServerEnvelope → Actor × Bool
  handle_server_event a m envelope =
      if (envelope.headers != configured_headers)
        || ltb (min (configured_clock_skew / 1000000) u64_max)
            (abs_diff envelope.issued_at_ms m.checked_ms)
      then reject_server_event a m.first_delivered
      else on_event a m envelope.request_id envelope.event
