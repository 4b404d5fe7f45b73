-- ===== src/Server/Queries/Jobs.antt =====
-- Which probes the branch for states of `process_envelope` of src/server.rs starts.
use remote_open_power.Base.{
  ℕ, Bytes, bytes, Bool, true, List, [], ◌∷◌, ◌++◌, Option, Result, ok, err, ◌≡◌, ◌≢◌, ◌≤◌, ◌<◌,
  ◌⊎◌, length, refl, arith, inl, inr, ltb, ◌!=◌, nat_eq, list_eq, Result-cases, Bool-cases,
}
use remote_open_power.Protocol.Message.{Header, ServerEnvelope, max_status_targets}
use remote_open_power.Server.Entry.{OperationKey, BeginResult}
use remote_open_power.Server.Ledger.{Ledger, begin_request}
use remote_open_power.Server.Host.{HostConfig, HostEntry, authorized_hosts}
use remote_open_power.Server.Host.Access.{AreAuthorized, authorized_hosts_iff}
use remote_open_power.Server.Respond.{ServerError}
use remote_open_power.Server.Requests.{Snapshot, Readings, WakeError}
use remote_open_power.Server.Queries.{
  StatusJob, Answered, answer, answer_statuses, new_statuses, process_statuses, query_digest,
}

-- The jobs are the same, or one for this request comes after fewer than two of them.
abbrev pub AddsJob : List StatusJob → Bytes → List Bytes → Answered → Type 0
AddsJob jobs request_id host_ids o =
    (o.status_jobs ≡ jobs)
    ⊎ ((o.status_jobs ≡ jobs ++ ((record { request_id = request_id; hosts = host_ids }) ∷ []))
        × (ltb (length jobs) 2 ≡ true))

module _ (sha256 : Bytes → Bytes) (to_allocvec : ServerEnvelope → Option Bytes)
    (transmit : Bytes → Bool) (wake : HostConfig → Result WakeError (Unit {0})) where
  answer-jobs :
      (ledger : Ledger) (jobs : List StatusJob) (r : Result ServerError ServerEnvelope)
      → (answer ledger jobs r).status_jobs ≡ jobs
  answer-jobs ledger jobs (ok response) = refl
  answer-jobs ledger jobs (err e) = refl

  new_statuses-AddsJob :
      (ledger : Ledger) (jobs : List StatusJob) (snapshot : Snapshot) (host_ids : List Bytes)
      (key : OperationKey) (request_id : Bytes) (spawned : Result ServerError Bool) (t : Readings)
      → AddsJob jobs request_id host_ids (
          new_statuses sha256 to_allocvec transmit wake ledger jobs snapshot host_ids key request_id
            spawned t)
  unfolding new_statuses
  new_statuses-AddsJob ledger jobs snapshot host_ids key request_id spawned t =
      elim (Bool-cases (ltb (length jobs) 2)) [
        | inr full ↦ rw (full, new_statuses) (inl (answer-jobs _ jobs _))
        | inl free ↦ elim (Result-cases spawned) [
          | inr (e, failed) ↦ rw (free, failed, new_statuses) (inl refl)
          | inl (started, done) ↦ elim (Bool-cases started) [
            | inl begins ↦ rw (free, done, begins, new_statuses) (inr (refl, refl))
            | inr refused ↦ rw (free, done, refused, new_statuses) (inl (answer-jobs _ jobs _))
          ]
        ]
      ]

  answer_statuses-AddsJob :
      (ledger : Ledger) (jobs : List StatusJob) (snapshot : Snapshot) (host_ids : List Bytes)
      (key : OperationKey) (request_id : Bytes) (spawned : Result ServerError Bool) (t : Readings)
      (begun : BeginResult)
      → AddsJob jobs request_id host_ids (
          answer_statuses sha256 to_allocvec transmit wake ledger jobs snapshot host_ids key
            request_id spawned t begun)
  answer_statuses-AddsJob ledger jobs snapshot host_ids key request_id spawned t
        (BeginResult.cached response) =
      inl (answer-jobs ledger jobs _)
  answer_statuses-AddsJob ledger jobs snapshot host_ids key request_id spawned t BeginResult.busy =
      inl (answer-jobs ledger jobs _)
  answer_statuses-AddsJob ledger jobs snapshot host_ids key request_id spawned t
        BeginResult.conflict =
      inl (answer-jobs ledger jobs _)
  answer_statuses-AddsJob ledger jobs snapshot host_ids key request_id spawned t BeginResult.new =
      new_statuses-AddsJob ledger jobs snapshot host_ids key request_id spawned t

  -- A request for states leaves the probes as they are, or starts one more for its hosts. Then
  -- there were fewer than two, the client has the catalog of now, and there are entries by which
  -- each of its at most `max_status_targets` hosts is one that the client may see.
  pub process_statuses-jobs :
      (ledger : Ledger) (jobs : List StatusJob) (snapshot : Snapshot) (client_key : Bytes)
      (allowed_hosts : List Bytes) (request_id : Bytes) (headers : List Header)
      (catalog_version : ℕ) (host_ids : List Bytes) (spawned : Result ServerError Bool)
      (t : Readings)
      → ((process_statuses sha256 to_allocvec transmit wake ledger jobs snapshot client_key
            allowed_hosts request_id headers catalog_version host_ids spawned t).status_jobs
          ≡ jobs)
        ⊎ (((process_statuses sha256 to_allocvec transmit wake ledger jobs snapshot client_key
                allowed_hosts request_id headers catalog_version host_ids spawned t).status_jobs
              ≡ jobs ++ ((record { request_id = request_id; hosts = host_ids }) ∷ []))
            × (length jobs < 2)
            × (catalog_version ≡ snapshot.catalog_version)
            × (entries : List HostEntry) × (host_ids ≢ [])
            × (length host_ids ≤ max_status_targets)
            × AreAuthorized snapshot.hosts allowed_hosts [] host_ids entries)
  unfolding process_statuses
  process_statuses-jobs ledger jobs snapshot client_key allowed_hosts request_id headers
        catalog_version host_ids spawned t =
      let key : OperationKey = record { client_key = client_key; operation_id = request_id } in
      let begun =
        begin_request ledger key
          (sha256 (query_digest headers (bytes "status") catalog_version host_ids)) t.begun in
      elim (Bool-cases (catalog_version != snapshot.catalog_version)) [
        | inl stale ↦ rw (stale, process_statuses) (inl (answer-jobs ledger jobs _))
        | inr same ↦
            elim (Result-cases
              (authorized_hosts snapshot.hosts allowed_hosts host_ids max_status_targets)) [
                | inr (code, denied) ↦
                    rw (same, denied, process_statuses) (inl (answer-jobs ledger jobs _))
                | inl (entries, allowed) ↦
                    let asked =
                      (authorized_hosts_iff snapshot.hosts allowed_hosts host_ids max_status_targets
                          entries).0
                        allowed in
                    elim (answer_statuses-AddsJob begun.0 jobs snapshot host_ids key request_id
                      spawned t begun.1) [
                        | inl kept ↦ rw (same, allowed, process_statuses) (inl kept)
                        | inr (added, few) ↦
                            rw (same, allowed, process_statuses)
                              (inr (
                                added,
                                ground (arith, few),
                                ground (arith, same),
                                entries,
                                asked.0,
                                asked.1,
                                asked.2,
                              ))
                      ]
              ]
      ]
