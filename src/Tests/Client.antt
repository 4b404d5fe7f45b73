-- ===== src/Tests/Client.antt =====
-- A client that sends a wake request, gets its receipt twice and two reports of one host.
use remote_open_power.Base.{
  Bytes, true, false, List, [], ◌∷◌, none, some, ok, ◌≡◌, ◌≤◌, refl, ℕ_eq?, list_eq?, option_eq?,
  insert_set, collect, retain, get, insert, remove, from_secs, Duration,
}
use remote_open_power.Protocol.Message.{Header_eq?, ServerEnvelope, ServerEvent}
use remote_open_power.Security.Connection.{SecurityError}
use remote_open_power.Client.{Actor, Moment}
use remote_open_power.Client.Handle.{
  handle_server_event, on_command_executed, on_target_online, observation_time_valid,
}
use remote_open_power.Client.Commands.{WakeCommand, ClientCommand, on_wake, on_refresh}
use remote_open_power.Client.Run.{Round, on_commands, round, run_connected_client}
use remote_open_power.Client.Histories.{
  receipts, onlines, requests, IsNew, receipts-le-requests, onlines-le-requests,
}
use remote_open_power.Client.Bounds.{IsBounded, run_connected_client-IsBounded}
use remote_open_power.Client.Backoff.{Try, Found, Waited, started, client_actor}
use remote_open_power.Client.Backoff.Paced.{IsPaced, client_actor-IsPaced}

abbrev moment : Bytes → Moment
moment id = record {
  checked_ms = 1000;
  now_ms = 1000;
  issued_at_ms = 1000;
  random_id = id;
  first_delivered = true;
  second_delivered = true;
  transmit = λ envelope. true;
  now = 5;
}

abbrev skew : Duration
skew = from_secs 30

abbrev operation : Bytes
operation = 1 ∷ []

abbrev envelope : ServerEvent → ServerEnvelope
envelope event = record {
  version = 1;
  request_id = operation;
  issued_at_ms = 990;
  headers = [];
  event = event;
}

abbrev quiet : Round
quiet = record {
  now = 5;
  commands = [];
  disconnected = false;
  refresh = moment (9 ∷ []);
  refresh_error = SecurityError.transport;
  polled = ok none;
  handled = moment (8 ∷ []);
}

abbrev wake : WakeCommand
wake = record {
  host_ids = (7 ∷ []) ∷ [];
  catalog_version = 1;
  operation_id = operation;
  boot_nonce = [];
  attempt = 1;
  retry_ticket = none;
}

abbrev receipt : ServerEvent
receipt =
    ServerEvent.command_executed operation 1 (3 ∷ []) 2000
      (record { host_id = 7 ∷ []; accepted = true; error_code = none } ∷ [])

abbrev online : ServerEvent
online = ServerEvent.target_online operation 1 (7 ∷ []) 1001

abbrev rounds : List Round
rounds =
    record quiet { commands = (moment [], SecurityError.transport, ClientCommand.wake wake) ∷ [] }
    ∷ record quiet { polled = ok (some (envelope receipt)) }
    ∷ record quiet { polled = ok (some (envelope receipt)) }
    ∷ record quiet { polled = ok (some (envelope online)) }
    ∷ record quiet { polled = ok (some (envelope online)) }
    ∷ []

abbrev ran : Actor
ran = (run_connected_client [] skew (started 0) rounds).0

started-IsNew : IsNew (started 0)
started-IsNew = record { no_pending = refl; no_requests = refl; no_events = refl; none_sent = refl }

ran_receipts : receipts operation 1 ran.events ≡ 1
unfolding receipts onlines requests round on_commands on_wake on_refresh handle_server_event
    on_command_executed on_target_online observation_time_valid get insert remove retain insert_set
    collect Header_eq? ℕ_eq? list_eq? option_eq?
ran_receipts = refl

ran_onlines : onlines operation 1 (7 ∷ []) ran.events ≡ 1
unfolding receipts onlines requests round on_commands on_wake on_refresh handle_server_event
    on_command_executed on_target_online observation_time_valid get insert remove retain insert_set
    collect Header_eq? ℕ_eq? list_eq? option_eq?
ran_onlines = refl

receipts-le-requests_example : receipts operation 1 ran.events ≤ requests operation 1 ran.sent
receipts-le-requests_example =
    receipts-le-requests [] skew (started 0) rounds operation 1 started-IsNew

onlines-le-requests_example :
    onlines operation 1 (7 ∷ []) ran.events ≤ requests operation 1 ran.sent
onlines-le-requests_example =
    onlines-le-requests [] skew (started 0) rounds operation 1 (7 ∷ []) started-IsNew

run_connected_client-IsBounded_example : IsBounded ran.pending
run_connected_client-IsBounded_example =
    run_connected_client-IsBounded [] skew (started 0) rounds started-IsNew

abbrev attempt : Found → Try
attempt found = record {
  connecting_delivered = true;
  connected_delivered = true;
  failure_delivered = true;
  disconnect_delivered = true;
  connected_at = 0;
  failed_at = 0;
  waits = (1, Waited.wake true) ∷ (2, Waited.timeout) ∷ [];
  found = found;
}

abbrev tries : List Try
tries =
    attempt Found.unresolved
    ∷ attempt Found.unreachable
    ∷ attempt (Found.established rounds)
    ∷ attempt Found.stopped
    ∷ []

client_actor-IsPaced_example : IsPaced (client_actor [] skew 1 [] tries)
client_actor-IsPaced_example = client_actor-IsPaced [] skew tries
