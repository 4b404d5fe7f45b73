-- ===== src/Client/Commands.antt =====
-- The commands that the loop of `run_connected_client` of src/client.rs takes.
use remote_open_power.Base.{
  ℕ, Bytes, Bool, true, false, List, [], ◌∷◌, Option, none, some, ◌+◌, ◌==◌, ◌&&◌, ◌||◌, not, ltb,
  leb, all, any, collect, length, is_empty, is_some_and, if◌then◌else◌, get, insert, remove,
  contains_key, nat_eq, list_eq,
}
use remote_open_power.Protocol.Message.{
  Header, ClientEnvelope, ClientOperation, protocol_version, max_wake_targets,
}
use remote_open_power.Client.{
  Actor, Moment, ClientEvent, ClientConnectionErrorCode, PendingRequest, PendingOperation,
  max_pending_requests, max_pending_operations, pending_operation_ttl, send_client_event,
}

pub record WakeCommand : Type 0 where
  pub host_ids : List Bytes
  pub catalog_version : ℕ
  pub operation_id : Bytes
  pub boot_nonce : Bytes
  pub attempt : ℕ
  pub retry_ticket : Option Bytes

pub data ClientCommand : Type 0 where
  refresh shutdown : ClientCommand
  wake : WakeCommand → ClientCommand

-- Why the loop ends.
pub data ConnectedClientExit : Type 0 where
  shutdown : ConnectedClientExit
  lost : ClientConnectionErrorCode → ConnectedClientExit

-- The actor, and the exit if the loop ends.
abbrev pub Turned : Type 0
Turned = Actor × Option ConnectedClientExit

-- A command that is refused with an event.
abbrev pub refuse : Actor → Moment → Turned
refuse a m =
    let (a', done) = send_client_event a m.first_delivered ClientEvent.error in
    if done then (a', none) else (a', some ConnectedClientExit.shutdown)

abbrev pub invalid_wake : WakeCommand → Bool
invalid_wake c =
    is_empty c.host_ids
    || ltb max_wake_targets (length c.host_ids)
    || all (λ byte. byte == 0) c.operation_id

abbrev pub out_of_order : Option PendingOperation → ℕ → Bool
out_of_order pending attempt = is_some_and pending (λ existing.
    ltb attempt existing.attempt || ((attempt == existing.attempt) && existing.receipt_seen))

abbrev pub is_list : PendingRequest → Bool
is_list PendingRequest.list = true
is_list (PendingRequest.batch catalog_version host_ids remaining) = false

module _ (configured_headers : List Header) where
  abbrev pub wake_envelope : Moment → WakeCommand → ClientEnvelope
  wake_envelope m c = record {
    version = protocol_version;
    request_id = c.operation_id;
    issued_at_ms = m.issued_at_ms;
    headers = configured_headers;
    operation =
        ClientOperation.wake c.catalog_version c.host_ids c.attempt c.boot_nonce c.retry_ticket;
  }

  abbrev pub new_operation : Moment → WakeCommand → PendingOperation
  new_operation m c = record {
    targets = collect c.host_ids;
    accepted_targets = none;
    attempt = c.attempt;
    ticket = c.retry_ticket;
    receipt_seen = false;
    online = [];
    deadline_ms = none;
    expires_at = m.now + pending_operation_ttl;
  }

  -- The exit of an envelope that the connection does not take is that of its error.
  unfoldable pub on_wake : Actor → Moment → ClientConnectionErrorCode → WakeCommand → Turned
  on_wake a m failure c =
      let envelope = wake_envelope m c in
      if invalid_wake c
      then refuse a m
      else if leb max_pending_operations (length a.pending)
          && not (contains_key c.operation_id a.pending)
      then refuse a m
      else if out_of_order (get c.operation_id a.pending) c.attempt
      then refuse a m
      else if not (m.transmit envelope)
      then (a, some (ConnectedClientExit.lost failure))
      else (
        record a {
          pending = insert c.operation_id (new_operation m c) a.pending;
          sent = envelope ∷ a.sent;
          last_activity = m.now;
        },
        none,
      )

  abbrev pub on_command : Actor → Moment → ClientConnectionErrorCode → ClientCommand → Turned
  on_command a m failure ClientCommand.shutdown = (a, some ConnectedClientExit.shutdown)
  on_command a m failure ClientCommand.refresh = (record a { send_list = true }, none)
  on_command a m failure (ClientCommand.wake c) = on_wake a m failure c

  abbrev pub list_envelope : Moment → ClientEnvelope
  list_envelope m = record {
    version = protocol_version;
    request_id = m.random_id;
    issued_at_ms = m.issued_at_ms;
    headers = configured_headers;
    operation = ClientOperation.list_hosts;
  }

  -- The part `if send_list` of the loop.
  unfoldable pub on_refresh : Actor → Moment → ClientConnectionErrorCode → Turned
  on_refresh a m failure =
      let envelope = list_envelope m in
      let a' : Actor = record a {
        pending_requests = insert m.random_id PendingRequest.list a.pending_requests;
      } in
      if not a.send_list
      then (a, none)
      else if any (λ (id, request). is_list request) a.pending_requests
      then (record a { send_list = false }, none)
      else if leb max_pending_requests (length a.pending_requests)
      then (
        (send_client_event a m.first_delivered ClientEvent.error).0,
        some (ConnectedClientExit.lost ClientConnectionErrorCode.protocol),
      )
      else if not (m.transmit envelope)
      then (
        record a' { pending_requests = remove m.random_id a'.pending_requests },
        some (ConnectedClientExit.lost failure),
      )
      else (record a' { sent = envelope ∷ a.sent; send_list = false; last_activity = m.now }, none)
