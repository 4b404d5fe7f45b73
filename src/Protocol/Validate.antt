-- ===== src/Protocol/Validate.antt =====
-- `ClientEnvelope::validate`, `ServerEnvelope::validate` and `validate_catalog_and_targets` of
-- src/protocol.rs.
pub mod Client
pub mod Server
use remote_open_power.Base.{
  ℕ, Bytes, Bool, true, false, List, [], ◌∷◌, Option, none, some, Result, ok, err, fail_if, ◌>>=◌,
  ◌>>◌, ◌||◌, ◌&&◌, not, ltb, ◌==◌, ◌!=◌, length, is_empty, is_some, all, contains, if◌then◌else◌,
  nat_eq, list_eq,
}
use remote_open_power.Protocol.Message.{
  Header, header_eq, ProtocolError, version, limit, operation, ClientEnvelope, ServerEnvelope,
  ClientOperation, ServerEvent, HostSummary, HostStatus, WakeResult, protocol_version, max_hosts,
  max_status_targets, max_wake_targets,
}
use remote_open_power.Protocol.Identifier.{validate_id}
use remote_open_power.Protocol.Headers.{canonical_headers}

abbrev pub is_zero : Bytes → Bool
is_zero = all (λ b. b == 0)

-- `matches!(attempt, 1 | 2)`
abbrev pub is_attempt : ℕ → Bool
is_attempt attempt = attempt == 1 || attempt == 2

-- The loop `for item in items` with its set of identifiers: each identifier is valid and new, and
-- the item passes the loop's own test, or the loop returns `code`.
unfoldable pub validate_each {ℓ} :
    {A : Type ℓ}
    → (A → Bytes)
    → (A → Bool)
    → ProtocolError
    → List Bytes
    → List A
    → Result ProtocolError (Unit {0})
validate_each id bad code ids [] = ok tt
validate_each id bad code ids (item ∷ items) = do
  validate_id (id item)
  fail_if (contains ids (id item) || bad item) code
  validate_each id bad code (id item ∷ ids) items

unfoldable pub validate_catalog_and_targets : ℕ → List Bytes → ℕ → Result ProtocolError (Unit {0})
validate_catalog_and_targets catalog_version host_ids maximum = do
  fail_if (catalog_version == 0 || is_empty host_ids || ltb maximum (length host_ids)) operation
  validate_each (λ id. id) (λ _. false) operation [] host_ids

-- The checks that both envelopes share.
unfoldable pub validate_frame : ℕ → Bytes → ℕ → List Header → Result ProtocolError (Unit {0})
validate_frame v request_id issued_at_ms headers = do
  fail_if (v != protocol_version) version
  fail_if (is_zero request_id || issued_at_ms == 0) operation
  canonical ← canonical_headers headers
  fail_if (headers != canonical) operation

unfoldable pub validate_operation : ClientOperation → Result ProtocolError (Unit {0})
validate_operation ClientOperation.list_hosts = ok tt
validate_operation (ClientOperation.get_statuses catalog_version host_ids) =
    validate_catalog_and_targets catalog_version host_ids max_status_targets
validate_operation (ClientOperation.wake catalog_version host_ids attempt boot_nonce retry_ticket) =
    do
      validate_catalog_and_targets catalog_version host_ids max_wake_targets
      fail_if (not (is_attempt attempt)) operation
      fail_if (is_zero boot_nonce) operation
      fail_if
          ((attempt == 1 && is_some retry_ticket) || (attempt == 2 && not (is_some retry_ticket)))
          operation

unfoldable pub validate_client : ClientEnvelope → Result ProtocolError (Unit {0})
validate_client e = do
  validate_frame e.version e.request_id e.issued_at_ms e.headers
  validate_operation e.operation

abbrev pub inconsistent : WakeResult → Bool
inconsistent r =
    (r.accepted && is_some r.error_code) || (not r.accepted && not (is_some r.error_code))

unfoldable pub validate_event : Bytes → ServerEvent → Result ProtocolError (Unit {0})
validate_event request_id (ServerEvent.hosts catalog_version summaries) = do
  fail_if (catalog_version == 0 || ltb max_hosts (length summaries)) limit
  validate_each (λ (h : HostSummary). h.host_id) (λ _. false) limit [] summaries
validate_event request_id (ServerEvent.statuses catalog_version reports) = do
  fail_if (catalog_version == 0 || ltb max_hosts (length reports)) limit
  validate_each (λ (s : HostStatus). s.host_id) (λ s. s.observed_at_ms == 0) limit [] reports
validate_event request_id
      (ServerEvent.command_executed operation_id attempt retry_ticket deadline_ms results) =
    do
      fail_if
          (is_zero operation_id
            || operation_id != request_id
            || is_zero retry_ticket
            || deadline_ms == 0
            || ltb max_wake_targets (length results)
            || is_empty results
            || not (is_attempt attempt))
          limit
      validate_each (λ (r : WakeResult). r.host_id) inconsistent limit [] results
validate_event request_id (ServerEvent.target_online operation_id attempt host_id observed_at_ms) =
    do
      validate_id host_id
      fail_if
          (is_zero operation_id
            || operation_id != request_id
            || not (is_attempt attempt)
            || observed_at_ms == 0)
          operation
validate_event request_id (ServerEvent.error code retryable) = ok tt

unfoldable pub validate_server : ServerEnvelope → Result ProtocolError (Unit {0})
validate_server e = do
  validate_frame e.version e.request_id e.issued_at_ms e.headers
  validate_event e.request_id e.event
