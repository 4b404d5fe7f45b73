-- ===== src/Protocol/Validate/Server.antt =====
-- Which server envelopes src/protocol.rs accepts: a declarative description, and its equivalence
-- with the code.
use remote_open_power.Base.{
  Bytes, false, [], ◌∷◌, ok, ◌==◌, length, nat_eq, list_eq, ◌≡◌, ◌≢◌, ◌≤◌, ◌⊎◌, inl, inr, ◌↔◌, refl,
  arith, Result-cases,
}
use remote_open_power.Protocol.Message.{
  header_eq, limit, ServerEnvelope, ServerEvent, HostSummary, HostStatus, WakeResult, max_hosts,
  max_wake_targets,
}
use remote_open_power.Protocol.Identifier.{
  validate_id, IsId, validate_id_sound, validate_id_complete,
}
use remote_open_power.Protocol.Validate.{
  is_zero, inconsistent, validate_frame, validate_event, validate_server,
}
use remote_open_power.Protocol.Validate.Client.{
  EachValid, validate_each_sound, validate_each_complete, IsFrame, validate_frame_sound,
  validate_frame_complete,
}

abbrev pub Reports : Bytes → ServerEvent → Type 0
Reports request_id (ServerEvent.hosts catalog_version summaries) =
    (catalog_version ≢ 0)
    × (length summaries ≤ max_hosts)
    × EachValid (λ (h : HostSummary). h.host_id) (λ _. false) [] summaries
Reports request_id (ServerEvent.statuses catalog_version reports) =
    (catalog_version ≢ 0)
    × (length reports ≤ max_hosts)
    × EachValid (λ (s : HostStatus). s.host_id) (λ s. s.observed_at_ms == 0) [] reports
Reports request_id
      (ServerEvent.command_executed operation_id attempt retry_ticket deadline_ms results) =
    (operation_id ≡ request_id)
    × (is_zero operation_id ≡ false)
    × (is_zero retry_ticket ≡ false)
    × (deadline_ms ≢ 0)
    × (results ≢ [])
    × (length results ≤ max_wake_targets)
    × ((attempt ≡ 1) ⊎ (attempt ≡ 2))
    × EachValid (λ (r : WakeResult). r.host_id) inconsistent [] results
Reports request_id (ServerEvent.target_online operation_id attempt host_id observed_at_ms) =
    IsId host_id
    × (operation_id ≡ request_id)
    × (is_zero operation_id ≡ false)
    × ((attempt ≡ 1) ⊎ (attempt ≡ 2))
    × (observed_at_ms ≢ 0)
Reports request_id (ServerEvent.error code retryable) = Unit

event_sound :
    (request_id : Bytes) (e : ServerEvent)
    → validate_event request_id e ≡ ok tt
    → Reports request_id e
unfolding validate_event
event_sound request_id (ServerEvent.hosts c hs) h =
    (ground arith, ground arith, validate_each_sound _ _ limit [] hs (ground arith))
event_sound request_id (ServerEvent.statuses c ss) h =
    (ground arith, ground arith, validate_each_sound _ _ limit [] ss (ground arith))
event_sound request_id (ServerEvent.command_executed operation_id attempt ticket deadline rs) h = (
  ground arith,
  ground arith,
  ground arith,
  ground arith,
  ground arith,
  ground arith,
  ground arith,
  validate_each_sound _ _ limit [] rs (ground arith),
)
event_sound request_id (ServerEvent.target_online operation_id attempt host_id observed) h =
    elim (Result-cases (validate_id host_id)) [
      | inl (u, v) ↦
          (validate_id_sound host_id v, ground arith, ground arith, ground arith, ground arith)
      | inr (x, v) ↦ absurd (ground arith)
    ]
event_sound request_id (ServerEvent.error code retryable) h = tt

event_complete :
    (request_id : Bytes) (e : ServerEvent)
    → Reports request_id e
    → validate_event request_id e ≡ ok tt
unfolding validate_event
event_complete request_id (ServerEvent.hosts c hs) v =
    ground
      (arith, validate_each_complete (λ (h : HostSummary). h.host_id) (λ _. false) limit [] hs v.2)
event_complete request_id (ServerEvent.statuses c ss) v = ground (
  arith,
  validate_each_complete (λ (s : HostStatus). s.host_id) (λ s. s.observed_at_ms == 0) limit [] ss
      v.2,
)
event_complete request_id (ServerEvent.command_executed operation_id attempt ticket deadline []) v =
    absurd (v.4 refl)
event_complete request_id
      (ServerEvent.command_executed operation_id attempt ticket deadline (r ∷ rs)) v =
    let each =
      validate_each_complete (λ (r : WakeResult). r.host_id) inconsistent limit [] (r ∷ rs) v.7 in
    ground (arith, each)
event_complete request_id (ServerEvent.target_online operation_id attempt host_id observed) v =
    rw (validate_id_complete host_id v.0) (ground arith)
event_complete request_id (ServerEvent.error code retryable) v = refl

-- What a client may rely on after `validate`.
pub record IsReply (e : ServerEnvelope) : Type 0 where
  pub frame : IsFrame e.version e.request_id e.issued_at_ms e.headers
  pub reports : Reports e.request_id e.event

-- `ServerEnvelope::validate` accepts an envelope exactly when it has the current version, a nonzero
-- request id and time and canonical headers, and its event is valid: for hosts and statuses a nonzero
-- catalog version and at most 64 items, with valid, distinct identifiers and, for statuses, nonzero
-- times; for a receipt and an online report the operation id of the request, nonzero, and attempt 1
-- or 2; for a receipt also a nonzero ticket and deadline and one to eight results, with valid,
-- distinct identifiers and an error code if and only if not accepted; for an online report also a
-- valid identifier and a nonzero time.
pub validate_server_iff : (e : ServerEnvelope) → (validate_server e ≡ ok tt) ↔ IsReply e
unfolding validate_server
validate_server_iff e = (
  λ h. elim (Result-cases (validate_frame e.version e.request_id e.issued_at_ms e.headers)) [
    | inl (u, f) ↦ record {
      frame = validate_frame_sound e.version e.request_id e.issued_at_ms e.headers f;
      reports = event_sound e.request_id e.event (ground arith);
    }
    | inr (x, f) ↦ absurd (ground arith)
  ],
  λ v.
      rw (validate_frame_complete e.version e.request_id e.issued_at_ms e.headers v.frame)
        (event_complete e.request_id e.event v.reports),
)
