-- ===== src/Protocol/Validate/Client.antt =====
-- Which client envelopes src/protocol.rs accepts: a declarative description, and its equivalence
-- with the code.
use remote_open_power.Base.{
  ℕ, Bytes, Bool, false, List, [], ◌∷◌, none, some, ok, length, contains, nat_eq, list_eq, ◌≡◌, ◌≢◌,
  ◌≤◌, ◌⊎◌, inl, inr, ◌↔◌, refl, arith, Result-cases,
}
use remote_open_power.Protocol.Message.{
  Header, header_eq, ProtocolError, operation, ClientEnvelope, ClientOperation, protocol_version,
  max_status_targets, max_wake_targets,
}
use remote_open_power.Protocol.Identifier.{
  validate_id, IsId, validate_id_sound, validate_id_complete,
}
use remote_open_power.Protocol.Headers.{canonical_headers}
use remote_open_power.Protocol.Headers.Canonical.{
  IsCanonical, canonical_headers_sound, canonical_headers_complete,
}
use remote_open_power.Protocol.Validate.{
  is_zero, validate_each, validate_catalog_and_targets, validate_frame, validate_operation,
  validate_client,
}

-- The items have valid identifiers, none of them in `ids` or twice, and pass the test.
abbrev pub EachValid {ℓ} : {A : Type ℓ} → (A → Bytes) → (A → Bool) → List Bytes → List A → Type 0
EachValid id bad ids [] = Unit
EachValid id bad ids (item ∷ items) =
    IsId (id item)
    × (contains ids (id item) ≡ false)
    × (bad item ≡ false)
    × EachValid id bad (id item ∷ ids) items

module _ {ℓ} {A : Type ℓ} (id : A → Bytes) (bad : A → Bool) (code : ProtocolError) where
  pub validate_each_sound :
      (ids : List Bytes) (items : List A)
      → validate_each id bad code ids items ≡ ok tt
      → EachValid id bad ids items
  unfolding validate_each
  validate_each_sound ids [] h = tt
  validate_each_sound ids (x ∷ xs) h = elim (Result-cases (validate_id (id x))) [
    | inl (u, v) ↦ (
      validate_id_sound (id x) v,
      ground arith,
      ground arith,
      validate_each_sound (id x ∷ ids) xs (ground arith),
    )
    | inr (e, v) ↦ absurd (ground arith)
  ]

  pub validate_each_complete :
      (ids : List Bytes) (items : List A)
      → EachValid id bad ids items
      → validate_each id bad code ids items ≡ ok tt
  unfolding validate_each
  validate_each_complete ids [] v = refl
  validate_each_complete ids (x ∷ xs) v =
      rw (validate_id_complete (id x) v.0, v.1, v.2) (validate_each_complete (id x ∷ ids) xs v.3)

pub record IsFrame (v : ℕ) (request_id : Bytes) (issued_at_ms : ℕ) (headers : List Header)
    : Type 0 where
  pub current : v ≡ protocol_version
  pub identified : is_zero request_id ≡ false
  pub dated : issued_at_ms ≢ 0
  pub canonical : IsCanonical headers

pub validate_frame_sound :
    (v : ℕ) (request_id : Bytes) (issued_at_ms : ℕ) (headers : List Header)
    → validate_frame v request_id issued_at_ms headers ≡ ok tt
    → IsFrame v request_id issued_at_ms headers
unfolding validate_frame
validate_frame_sound v request_id issued_at_ms headers h =
    elim (Result-cases (canonical_headers headers)) [
      | inl (ks, c) ↦
          let same : headers ≡ ks = ground arith in
          record {
            current = ground arith;
            identified = ground arith;
            dated = ground arith;
            canonical = rw same (canonical_headers_sound headers ks c).0;
          }
      | inr (e, c) ↦ absurd (ground arith)
    ]

pub validate_frame_complete :
    (v : ℕ) (request_id : Bytes) (issued_at_ms : ℕ) (headers : List Header)
    → IsFrame v request_id issued_at_ms headers
    → validate_frame v request_id issued_at_ms headers ≡ ok tt
unfolding validate_frame
validate_frame_complete v request_id issued_at_ms headers f =
    rw (canonical_headers_complete headers f.canonical)
      (ground (arith, f.current, f.identified, f.dated))

pub record AreTargets (catalog_version : ℕ) (host_ids : List Bytes) (maximum : ℕ) : Type 0 where
  pub versioned : catalog_version ≢ 0
  pub some_target : host_ids ≢ []
  pub bounded : length host_ids ≤ maximum
  pub valid : EachValid (λ id. id) (λ _. false) [] host_ids

-- A wake request: a first attempt has no ticket, a second one has one, and there is no third.
abbrev pub Operates : ClientOperation → Type 0
Operates ClientOperation.list_hosts = Unit
Operates (ClientOperation.get_statuses catalog_version host_ids) =
    AreTargets catalog_version host_ids max_status_targets
Operates (ClientOperation.wake catalog_version host_ids attempt boot_nonce retry_ticket) =
    AreTargets catalog_version host_ids max_wake_targets
    × (is_zero boot_nonce ≡ false)
    × ((attempt ≡ 1) × (retry_ticket ≡ none)
        ⊎ (attempt ≡ 2) × ((t : Bytes) × (retry_ticket ≡ some t)))

targets_sound :
    (catalog_version : ℕ) (host_ids : List Bytes) (maximum : ℕ)
    → validate_catalog_and_targets catalog_version host_ids maximum ≡ ok tt
    → AreTargets catalog_version host_ids maximum
unfolding validate_catalog_and_targets
targets_sound catalog_version host_ids maximum h = record {
  versioned = ground arith;
  some_target = ground arith;
  bounded = ground arith;
  valid = validate_each_sound (λ id. id) (λ _. false) operation [] host_ids (ground arith);
}

targets_complete :
    (catalog_version : ℕ) (host_ids : List Bytes) (maximum : ℕ)
    → AreTargets catalog_version host_ids maximum
    → validate_catalog_and_targets catalog_version host_ids maximum ≡ ok tt
unfolding validate_catalog_and_targets
targets_complete catalog_version [] maximum t = absurd (t.some_target refl)
targets_complete catalog_version (x ∷ xs) maximum t = ground (
  arith,
  t.versioned,
  t.bounded,
  validate_each_complete (λ id. id) (λ _. false) operation [] (x ∷ xs) t.valid,
)

operation_sound : (o : ClientOperation) → validate_operation o ≡ ok tt → Operates o
unfolding validate_operation
operation_sound ClientOperation.list_hosts h = tt
operation_sound (ClientOperation.get_statuses c ids) h = targets_sound c ids max_status_targets h
operation_sound (ClientOperation.wake c ids attempt nonce ticket) h =
    (targets_sound c ids max_wake_targets (ground arith), ground arith, ground arith)

operation_complete : (o : ClientOperation) → Operates o → validate_operation o ≡ ok tt
unfolding validate_operation
operation_complete ClientOperation.list_hosts v = refl
operation_complete (ClientOperation.get_statuses c ids) v =
    targets_complete c ids max_status_targets v
operation_complete (ClientOperation.wake c ids attempt nonce ticket) v =
    rw (targets_complete c ids max_wake_targets v.0) (ground arith)

-- What a server may rely on after `validate`.
pub record IsRequest (e : ClientEnvelope) : Type 0 where
  pub frame : IsFrame e.version e.request_id e.issued_at_ms e.headers
  pub operates : Operates e.operation

-- `ClientEnvelope::validate` accepts an envelope exactly when it has the current version, a nonzero
-- request id and time, canonical headers, and an operation within its limits: at most eight valid,
-- distinct targets under a nonzero catalog version, and for a wake request a nonzero nonce with
-- either attempt 1 and no ticket or attempt 2 and a ticket.
pub validate_client_iff : (e : ClientEnvelope) → (validate_client e ≡ ok tt) ↔ IsRequest e
unfolding validate_client
validate_client_iff e = (
  λ h. elim (Result-cases (validate_frame e.version e.request_id e.issued_at_ms e.headers)) [
    | inl (u, f) ↦ record {
      frame = validate_frame_sound e.version e.request_id e.issued_at_ms e.headers f;
      operates = operation_sound e.operation (ground arith);
    }
    | inr (x, f) ↦ absurd (ground arith)
  ],
  λ v.
      rw (validate_frame_complete e.version e.request_id e.issued_at_ms e.headers v.frame)
        (operation_complete e.operation v.operates),
)
