-- ===== src/Client.antt =====
-- The connection actor of src/client.rs: its state, its messages to the program and its limits. The
-- texts of its messages are left out.
pub mod Handle
pub mod Commands
pub mod Run
pub mod Moves
pub mod Traced
pub mod Histories
pub mod Bounds
pub mod Backoff
pub mod Batches
pub mod Asked
use remote_open_power.Base.{
  ℕ, Bytes, Bool, true, false, List, [], ◌∷◌, Option, Dict, Instant, Duration, from_secs,
  from_millis, if◌then◌else◌,
}
use remote_open_power.Protocol.Message.{
  Header, HostSummary, HostStatus, WakeResult, ErrorCode, ClientEnvelope,
}

abbrev pub client_idle_timeout : Duration
client_idle_timeout = from_secs 300

abbrev pub wake_wait_timeout_ms : ℕ
wake_wait_timeout_ms = 60000

abbrev pub max_pending_requests : ℕ
max_pending_requests = 16

abbrev pub max_pending_operations : ℕ
max_pending_operations = 32

abbrev pub pending_operation_ttl : Duration
pending_operation_ttl = from_secs 180

pub data ClientConnectionErrorCode : Type 0 where
  resolve connect handshake transport protocol : ClientConnectionErrorCode

-- The events, without their texts, addresses and fingerprints.
pub data ClientEvent : Type 0 where
  connecting : (attempt : ℕ) → ClientEvent
  connection_failed :
      (attempt : ℕ) (code : ClientConnectionErrorCode) (retry_after : Duration) → ClientEvent
  connected disconnected : ClientEvent
  hosts : (catalog_version : ℕ) (summaries : List HostSummary) → ClientEvent
  statuses : (catalog_version : ℕ) (reports : List HostStatus) → ClientEvent
  command_executed :
      (operation_id : Bytes) (attempt : ℕ) (retry_ticket : Bytes) (deadline_ms : ℕ)
      (results : List WakeResult)
      → ClientEvent
  target_online : (operation_id : Bytes) (attempt : ℕ) (host_id : Bytes) → ClientEvent
  error : ClientEvent

pub data PendingRequest : Type 0 where
  list : PendingRequest
  batch :
      (catalog_version : ℕ) (host_ids : List Bytes) (remaining : List (List Bytes)) → PendingRequest

pub record PendingOperation : Type 0 where
  pub targets : List Bytes
  pub accepted_targets : Option (List Bytes)
  pub attempt : ℕ
  pub ticket : Option Bytes
  pub receipt_seen : Bool
  pub online : List Bytes
  pub deadline_ms : Option ℕ
  pub expires_at : Instant

-- The variables of `run_connected_client`, with the events that the program got and the envelopes
-- that were sent, the latest first, and whether the connection is closed.
pub record Actor : Type 0 where
  pub last_activity : Instant
  pub send_list : Bool
  pub pending : Dict Bytes PendingOperation
  pub pending_requests : Dict Bytes PendingRequest
  pub events : List ClientEvent
  pub sent : List ClientEnvelope
  pub closed : Bool

-- What a call finds: the clocks that it reads in order, the identifier that it draws, whether the
-- queue of events takes the first and the second, and which envelopes the connection takes.
pub record Moment : Type 0 where
  pub checked_ms : ℕ
  pub now_ms : ℕ
  pub issued_at_ms : ℕ
  pub random_id : Bytes
  pub first_delivered : Bool
  pub second_delivered : Bool
  pub transmit : ClientEnvelope → Bool
  pub now : Instant

-- `send_client_event`
abbrev pub send_client_event : Actor → Bool → ClientEvent → Actor × Bool
send_client_event a delivered e =
    if delivered then (record a { events = e ∷ a.events }, true) else (a, false)

abbrev pub close_connection : Actor → Actor
close_connection a = record a { closed = true }

abbrev pub emit_event : Actor → Bool → ClientEvent → Actor × Bool
emit_event a delivered e =
    if delivered then (record a { events = e ∷ a.events }, true) else (close_connection a, false)

abbrev pub reject_server_event : Actor → Bool → Actor × Bool
reject_server_event a delivered =
    ((send_client_event (close_connection a) delivered ClientEvent.error).0, false)
