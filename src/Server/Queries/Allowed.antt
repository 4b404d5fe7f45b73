-- ===== src/Server/Queries/Allowed.antt =====
-- What the branches for lists and states of `process_envelope` of src/server.rs tell a client.
use remote_open_power.Base.{
  ℕ, Bytes, bytes, Bool, true, false, List, [], ◌∷◌, All, all, Option, Result, ok, ◌≡◌, ltb,
  contains, length, nat_eq, list_eq, refl, sym, arith, inl, inr, Result-cases, Bool-cases,
}
use remote_open_power.Protocol.Message.{
  Header, HostSummary, ServerEnvelope, ServerEvent, ErrorCode, busy, replay, protocol_version,
}
use remote_open_power.Protocol.Codec.{encode}
use remote_open_power.Protocol.Validate.{validate_server}
use remote_open_power.Server.Limits.{max_app_payload}
use remote_open_power.Server.Entry.{OperationKey, BeginResult}
use remote_open_power.Server.Ledger.{Ledger, begin_request, complete}
use remote_open_power.Server.Host.{HostConfig}
use remote_open_power.Server.Respond.{make_response, send_response}
use remote_open_power.Server.Requests.{Snapshot, Readings, WakeError}
use remote_open_power.Server.Wakes.{send_error}
use remote_open_power.Server.Queries.{
  StatusJob, Answered, answer, visible, refreshed, deny, new_list, answer_list, process_list,
  query_digest,
}

-- A list of hosts has the version of the catalog, and hosts that are allowed only.
abbrev pub IsVisible : ℕ → List Bytes → ServerEvent → Type 0
IsVisible version allowed_hosts (ServerEvent.hosts catalog_version summaries) =
    (catalog_version ≡ version)
    × (all (λ host. contains allowed_hosts host.host_id) summaries ≡ true)
IsVisible version allowed_hosts other = Unit

-- Every list of hosts that a call sends does.
abbrev pub AllVisible : ℕ → List Bytes → Answered → Type 0
AllVisible version allowed_hosts o =
    All (λ envelope. IsVisible version allowed_hosts envelope.event) o.sent

visible_allowed :
    (allowed_hosts : List Bytes) (summaries : List HostSummary)
    → all (λ host. contains allowed_hosts host.host_id) (visible summaries allowed_hosts) ≡ true
visible_allowed allowed_hosts [] = refl
visible_allowed allowed_hosts (host ∷ summaries) =
    ground (arith, visible_allowed allowed_hosts summaries)

refreshed-IsVisible :
    (event : ServerEvent) (version : ℕ) (allowed_hosts : List Bytes) (hosts : List HostSummary)
    → all (λ host. contains allowed_hosts host.host_id) hosts ≡ true
    → IsVisible version allowed_hosts (refreshed event version hosts)
refreshed-IsVisible (ServerEvent.hosts v s) version allowed_hosts hosts h = (refl, h)
refreshed-IsVisible (ServerEvent.statuses v s) version allowed_hosts hosts h = tt
refreshed-IsVisible (ServerEvent.command_executed o a t d r) version allowed_hosts hosts h = tt
refreshed-IsVisible (ServerEvent.target_online o a i m) version allowed_hosts hosts h = tt
refreshed-IsVisible (ServerEvent.error c r) version allowed_hosts hosts h = tt

module _ (sha256 : Bytes → Bytes) (to_allocvec : ServerEnvelope → Option Bytes)
    (transmit : Bytes → Bool) (wake : HostConfig → Result WakeError (Unit {0})) where
  sent-AllVisible :
      (version : ℕ) (allowed_hosts : List Bytes) (ledger : Ledger) (jobs : List StatusJob)
      (response : ServerEnvelope) (clock_ms : ℕ)
      → IsVisible version allowed_hosts response.event
      → AllVisible version allowed_hosts
          (answer ledger jobs (send_response to_allocvec transmit response clock_ms))
  unfolding send_response
  sent-AllVisible version allowed_hosts ledger jobs response clock_ms v =
      elim (Result-cases (send_response to_allocvec transmit response clock_ms)) [
        | inr (e, failed) ↦ rw failed tt
        | inl (envelope, done) ↦
            elim (Result-cases (validate_server (record response { issued_at_ms = clock_ms }))) [
              | inr (x, bad) ↦ absurd (ground (arith, bad, done))
              | inl (u, valid) ↦
                  let same : record response { issued_at_ms = clock_ms } ≡ envelope =
                    ground (arith, valid, done) in
                  rw (done, sym same) (v, tt)
            ]
      ]

  made-event :
      (headers : List Header) (request_id : Bytes) (event : ServerEvent) (clock_ms : ℕ)
      (response : ServerEnvelope)
      → make_response to_allocvec headers request_id event clock_ms ≡ ok response
      → response.event ≡ event
  unfolding make_response
  made-event headers request_id event clock_ms response h =
      let made : ServerEnvelope = record {
        version = protocol_version;
        request_id = request_id;
        issued_at_ms = clock_ms;
        headers = headers;
        event = event;
      } in
      elim (Result-cases (validate_server made)) [
        | inr (x, bad) ↦ absurd (ground (arith, bad, h))
        | inl (u, valid) ↦ elim (Result-cases (encode to_allocvec made)) [
          | inr (x, bad) ↦ absurd (ground (arith, valid, bad, h))
          | inl (encoded, done) ↦ elim (Bool-cases (ltb max_app_payload (length encoded))) [
            | inl long ↦ absurd (ground (arith, valid, done, long, h))
            | inr short ↦
                let same : made ≡ response = ground (arith, valid, done, short, h) in
                rw (sym same) refl
          ]
        ]
      ]

  deny-AllVisible :
      (version : ℕ) (allowed_hosts : List Bytes) (ledger : Ledger) (jobs : List StatusJob)
      (snapshot : Snapshot) (request_id : Bytes) (code : ErrorCode) (retryable : Bool)
      (t : Readings)
      → AllVisible version allowed_hosts
          (deny sha256 to_allocvec transmit wake ledger jobs snapshot request_id code retryable t)
  unfolding send_error
  deny-AllVisible version allowed_hosts ledger jobs snapshot request_id code retryable t =
      elim (Result-cases (
        make_response to_allocvec snapshot.headers request_id (ServerEvent.error code retryable)
          t.made_ms)) [
            | inr (e, failed) ↦ rw failed tt
            | inl (response, made) ↦ rw made (
                sent-AllVisible version allowed_hosts ledger jobs response t.sent_ms (
                  rw
                    (made-event snapshot.headers request_id (ServerEvent.error code retryable)
                      t.made_ms response made)
                    tt))
          ]

  new_list-AllVisible :
      (ledger : Ledger) (jobs : List StatusJob) (snapshot : Snapshot) (allowed_hosts : List Bytes)
      (hosts : List HostSummary) (key : OperationKey) (request_id : Bytes) (t : Readings)
      → all (λ host. contains allowed_hosts host.host_id) hosts ≡ true
      → AllVisible snapshot.catalog_version allowed_hosts
          (new_list sha256 to_allocvec transmit wake ledger jobs snapshot hosts key request_id t)
  unfolding new_list
  new_list-AllVisible ledger jobs snapshot allowed_hosts hosts key request_id t v =
      let event : ServerEvent = ServerEvent.hosts snapshot.catalog_version hosts in
      elim (Result-cases (make_response to_allocvec snapshot.headers request_id event t.made_ms)) [
        | inr (e, failed) ↦ rw (failed, new_list) tt
        | inl (response, made) ↦
            rw (made, new_list)
              (sent-AllVisible snapshot.catalog_version allowed_hosts
                (complete ledger key response t.completed) jobs response t.sent_ms
                (rw (made-event snapshot.headers request_id event t.made_ms response made)
                  (refl, v)))
      ]

  answer_list-AllVisible :
      (ledger : Ledger) (jobs : List StatusJob) (snapshot : Snapshot) (allowed_hosts : List Bytes)
      (hosts : List HostSummary) (key : OperationKey) (request_id : Bytes) (t : Readings)
      (begun : BeginResult)
      → all (λ host. contains allowed_hosts host.host_id) hosts ≡ true
      → AllVisible snapshot.catalog_version allowed_hosts (
          answer_list sha256 to_allocvec transmit wake ledger jobs snapshot hosts key request_id t
            begun)
  answer_list-AllVisible ledger jobs snapshot allowed_hosts hosts key request_id t
        (BeginResult.cached response) v =
      let version : ℕ = snapshot.catalog_version in
      sent-AllVisible version allowed_hosts ledger jobs
        (record response { event = refreshed response.event version hosts }) t.sent_ms
        (refreshed-IsVisible response.event version allowed_hosts hosts v)
  answer_list-AllVisible ledger jobs snapshot allowed_hosts hosts key request_id t BeginResult.busy
        v =
      deny-AllVisible snapshot.catalog_version allowed_hosts ledger jobs snapshot request_id busy
        true t
  answer_list-AllVisible ledger jobs snapshot allowed_hosts hosts key request_id t
        BeginResult.conflict v =
      deny-AllVisible snapshot.catalog_version allowed_hosts ledger jobs snapshot request_id replay
        false t
  answer_list-AllVisible ledger jobs snapshot allowed_hosts hosts key request_id t BeginResult.new
        v =
      new_list-AllVisible ledger jobs snapshot allowed_hosts hosts key request_id t v

  -- Whatever the ledger has, a list of hosts that is sent, new or cached, has the version of the
  -- catalog and only hosts that are allowed.
  pub process_list-AllVisible :
      (ledger : Ledger) (jobs : List StatusJob) (snapshot : Snapshot) (summaries : List HostSummary)
      (client_key : Bytes) (allowed_hosts : List Bytes) (request_id : Bytes) (headers : List Header)
      (t : Readings)
      → AllVisible snapshot.catalog_version allowed_hosts (
          process_list sha256 to_allocvec transmit wake ledger jobs snapshot summaries client_key
            allowed_hosts request_id headers t)
  unfolding process_list
  process_list-AllVisible ledger jobs snapshot summaries client_key allowed_hosts request_id headers
        t =
      let key : OperationKey = record { client_key = client_key; operation_id = request_id } in
      let begun =
        begin_request ledger key (sha256 (query_digest headers (bytes "list") 0 [])) t.begun in
      answer_list-AllVisible begun.0 jobs snapshot allowed_hosts (visible summaries allowed_hosts)
        key request_id t begun.1 (visible_allowed allowed_hosts summaries)
