-- ===== src/Protocol/Message.antt =====
-- The message types of src/protocol.rs. A string or a byte array is its list of bytes.
use remote_open_power.Base.{ℕ, Bytes, Bool, List, Option, ◌*◌, Eq, list_eq?, nat_eq}

abbrev pub protocol_version : ℕ
protocol_version = 1

abbrev pub max_frame_bytes : ℕ
max_frame_bytes = 64 * 1024

abbrev pub max_hosts : ℕ
max_hosts = 64

abbrev pub max_status_targets : ℕ
max_status_targets = 8

abbrev pub max_wake_targets : ℕ
max_wake_targets = 8

abbrev pub max_headers : ℕ
max_headers = 32

abbrev pub max_header_bytes : ℕ
max_header_bytes = 4 * 1024

abbrev pub max_id_bytes : ℕ
max_id_bytes = 64

pub data ProtocolError : Type 0 where
  version limit identifier header operation : ProtocolError

pub record Header : Type 0 where
  pub name : Bytes
  pub value : Bytes

-- the derived `PartialEq` of `Header`
unfoldable pub Header_eq? : Discrete Header
unfolding list_eq?
Header_eq? a b =
    let names = list_eq? a.name b.name in
    let values = list_eq? a.value b.value in
    elim names [
      | yes p ↦ elim values [
        | yes q ↦ yes (λ i. record { name = p i; value = q i })
        | no q ↦ no (λ e. q (cc))
      ]
      | no p ↦ no (λ e. p (cc))
    ]

instance abbrev pub header_eq : Eq Header
header_eq = record { eq? = Header_eq? }

pub data ClientOperation : Type 0 where
  list_hosts : ClientOperation
  get_statuses : (catalog_version : ℕ) (host_ids : List Bytes) → ClientOperation
  wake :
      (catalog_version : ℕ) (host_ids : List Bytes) (attempt : ℕ) (boot_nonce : Bytes)
      (retry_ticket : Option Bytes)
      → ClientOperation

pub record ClientEnvelope : Type 0 where
  pub version : ℕ
  pub request_id : Bytes
  pub issued_at_ms : ℕ
  pub headers : List Header
  pub operation : ClientOperation

pub record HostSummary : Type 0 where
  pub host_id : Bytes

pub data HostState : Type 0 where
  online offline unknown waking succeeded failed : HostState

pub record HostStatus : Type 0 where
  pub host_id : Bytes
  pub state : HostState
  pub observed_at_ms : ℕ

pub data WakeErrorCode : Type 0 where
  invalid_target rate_limited sender_unavailable internal : WakeErrorCode

pub record WakeResult : Type 0 where
  pub host_id : Bytes
  pub accepted : Bool
  pub error_code : Option WakeErrorCode

pub data ErrorCode : Type 0 where
  bad_request unauthorized replay rate_limited stale_catalog busy internal : ErrorCode

pub data ServerEvent : Type 0 where
  hosts : (catalog_version : ℕ) (summaries : List HostSummary) → ServerEvent
  statuses : (catalog_version : ℕ) (reports : List HostStatus) → ServerEvent
  command_executed :
      (operation_id : Bytes) (attempt : ℕ) (retry_ticket : Bytes) (deadline_ms : ℕ)
      (results : List WakeResult)
      → ServerEvent
  target_online :
      (operation_id : Bytes) (attempt : ℕ) (host_id : Bytes) (observed_at_ms : ℕ) → ServerEvent
  error : (code : ErrorCode) (retryable : Bool) → ServerEvent

pub record ServerEnvelope : Type 0 where
  pub version : ℕ
  pub request_id : Bytes
  pub issued_at_ms : ℕ
  pub headers : List Header
  pub event : ServerEvent
