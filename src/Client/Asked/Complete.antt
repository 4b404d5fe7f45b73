-- ===== src/Client/Asked/Complete.antt =====
-- That the requests for states of src/client.rs are for all hosts of a list.
use mathlib.Core.List.{append_assoc, append-nil}
use remote_open_power.Base.{
  ℕ, Bytes, true, List, [], ◌∷◌, ◌++◌, All, map, Option, none, some, ◌≡◌, ◌∙◌, ◌!=◌, ◌||◌, ◌⊎◌, not,
  leb, is_empty, ap, sym, refl, arith, inl, inr, length, length-append, last, collect, get, insert,
  remove, get-insert, ==-refl, Bool-cases, nat_eq, list_eq, Duration,
}
use remote_open_power.Protocol.Message.{
  Header, ClientEnvelope, ClientOperation, ServerEnvelope, ServerEvent, HostSummary, HostStatus,
  max_status_targets, protocol_version,
}
use remote_open_power.Client.{Actor, Moment, ClientEvent, PendingRequest, max_pending_requests}
use remote_open_power.Client.Handle.{
  chunks, send_status_batch, request_statuses, on_hosts, on_next_batch, on_statuses, on_event,
  handle_server_event, same_set,
}
use remote_open_power.Client.Batches.{concat, chunks-IsBatch, length-chunks}
use remote_open_power.Client.Asked.{
  sent_since, Phase, phase_after, hosts_of, hosts_in, IsStatusRequest, Exchange, Asks, IsAsked,
  sent_none, sent_one,
}

hosts_in-snoc :
    (asked : List ClientEnvelope) (request : ClientEnvelope)
    → hosts_in (asked ++ (request ∷ [])) ≡ hosts_in asked ++ hosts_of request.operation
hosts_in-snoc [] request = append-nil (hosts_of request.operation)
hosts_in-snoc (x ∷ asked) request =
    ap (λ l. hosts_of x.operation ++ l) (hosts_in-snoc asked request)
    ∙ sym (append_assoc (hosts_of x.operation) (hosts_in asked) (hosts_of request.operation))

All-snoc {ℓ κ} :
    {A : Type ℓ} (P : A → Type κ) (xs : List A) (x : A) → All P xs → P x → All P (xs ++ (x ∷ []))
All-snoc P [] x h p = (p, tt)
All-snoc P (y ∷ xs) x (q, h) p = (q, All-snoc P xs x h p)

-- What a request awaits.
awaited :
    (o : Option PendingRequest)
    → (o ≡ some PendingRequest.list)
      ⊎ (o ≡ none)
      ⊎ (version : ℕ) × (hosts : List Bytes) × (remaining : List (List Bytes)) × (o
          ≡ some (PendingRequest.batch version hosts remaining))
awaited none = inr (inl refl)
awaited (some PendingRequest.list) = inl refl
awaited (some (PendingRequest.batch version hosts remaining)) =
    inr (inr (version, hosts, remaining, refl))

last-snoc {ℓ} : {A : Type ℓ} (xs : List A) (x : A) → last (xs ++ (x ∷ [])) ≡ some x
last-snoc [] x = refl
last-snoc (y ∷ []) x = refl
last-snoc (y ∷ z ∷ xs) x = last-snoc (z ∷ xs) x

length-map {ℓ κ} :
    {A : Type ℓ} {B : Type κ} (f : A → B) (xs : List A) → length (map f xs) ≡ length xs
length-map f [] = refl
length-map f (x ∷ xs) = omega (arith, length-map f xs)

module _ (configured_headers : List Header) (skew : Duration) where
  abbrev request_of : Moment → ℕ → List Bytes → ClientEnvelope
  request_of m version host_ids = record {
    version = protocol_version;
    request_id = m.random_id;
    issued_at_ms = m.issued_at_ms;
    headers = configured_headers;
    operation = ClientOperation.get_statuses version host_ids;
  }

  -- The first of the batches is asked for, if there is one.
  abbrev IsNext : List ClientEnvelope → Actor → Moment → ℕ → List (List Bytes) → Type 0
  IsNext before b m version [] = b.sent ≡ before
  IsNext before b m version (host_ids ∷ remaining) =
      (get m.random_id b.pending_requests
        ≡ some (PendingRequest.batch version (collect host_ids) remaining))
      × (b.sent ≡ request_of m version host_ids ∷ before)

  send_status_batch-IsNext :
      (a b : Actor) (m : Moment) (version : ℕ) (host_ids : List Bytes)
      (remaining : List (List Bytes))
      → send_status_batch configured_headers skew a m version host_ids remaining ≡ (b, true)
      → IsNext a.sent b m version (host_ids ∷ remaining)
  unfolding send_status_batch
  send_status_batch-IsNext a b m version host_ids remaining h =
      let pending =
        insert m.random_id (PendingRequest.batch version (collect host_ids) remaining)
          a.pending_requests in
      elim (Bool-cases
        (leb max_pending_requests (length a.pending_requests) || is_empty host_ids)) [
          | inl full ↦ absurd (ground (arith, full, h))
          | inr free ↦ elim (Bool-cases (m.transmit (request_of m version host_ids))) [
            | inr failed ↦ absurd (ground (arith, free, failed, h))
            | inl done ↦
                let same : record a {
                  pending_requests = pending;
                  sent = request_of m version host_ids ∷ a.sent;
                }
                    ≡ b =
                  ground (arith, free, done, h) in
                rw (sym same) (
                  ground (
                    arith,
                    get-insert m.random_id m.random_id
                        (PendingRequest.batch version (collect host_ids) remaining)
                        a.pending_requests,
                    ==-refl m.random_id,
                  ),
                  refl,
                )
          ]
        ]

  on_next_batch-IsNext :
      (a b : Actor) (m : Moment) (version : ℕ) (batches : List (List Bytes))
      → on_next_batch configured_headers skew a m version batches ≡ (b, true)
      → IsNext a.sent b m version batches
  unfolding on_next_batch
  on_next_batch-IsNext a b m version [] h = let same : a ≡ b = ap (λ x. x.0) h in rw (sym same) refl
  on_next_batch-IsNext a b m version (host_ids ∷ remaining) h =
      send_status_batch-IsNext a b m version host_ids remaining h

  request_statuses-IsNext :
      (a b : Actor) (m : Moment) (version : ℕ) (batches : List (List Bytes))
      → request_statuses configured_headers skew a m version batches ≡ (b, true)
      → IsNext a.sent b m version batches
  unfolding request_statuses
  request_statuses-IsNext a b m version [] h = elim (Bool-cases m.second_delivered) [
    | inr lost ↦ absurd (ground (arith, lost, h))
    | inl shown ↦ ground (arith, shown, ap (λ x. x.0.sent) h)
  ]
  request_statuses-IsNext a b m version (host_ids ∷ remaining) h =
      let called = send_status_batch configured_headers skew a m version host_ids remaining in
      elim (Bool-cases called.1) [
        | inr failed ↦ absurd (ground (arith, failed, h))
        | inl done ↦
            send_status_batch-IsNext a b m version host_ids remaining (ground (arith, done, h))
      ]

  -- What a call leaves: the requests sent with the batches left are those of `IsNext`.
  next-IsAsked :
      (version : ℕ) (summaries : List HostSummary) (a b : Actor) (m : Moment)
      (asked : List ClientEnvelope) (batches : List (List Bytes))
      → Asks version summaries asked batches
      → IsNext a.sent b m version batches
      → IsAsked version summaries b (phase_after m (sent_since a b)) (asked ++ sent_since a b)
  next-IsAsked version summaries a b m asked [] k n = rw (sent_none a b n, append-nil asked) k
  next-IsAsked version summaries a b m asked (host_ids ∷ remaining) k (pending, sent) =
      let request = request_of m version host_ids in
      rw (sent_one a b request sent) (
        request,
        remaining,
        last-snoc asked request,
        refl,
        pending,
        record {
          covers =
              ap (λ l. l ++ concat remaining) (hosts_in-snoc asked request)
              ∙ append_assoc (hosts_in asked) host_ids (concat remaining)
              ∙ k.covers;
          requests =
              All-snoc (IsStatusRequest version) asked request k.requests (refl, k.batches.0);
          batches = k.batches.1;
          number = omega (arith, k.number, length-append asked (request ∷ []));
        },
      )

  on_event_of :
      (a b : Actor) (m : Moment) (envelope : ServerEnvelope) (event : ServerEvent)
      → envelope.event ≡ event
      → handle_server_event configured_headers skew a m envelope ≡ (b, true)
      → on_event configured_headers skew a m envelope.request_id event ≡ (b, true)
  unfolding handle_server_event
  on_event_of a b m envelope event same h = rw (sym same) (ground (arith, h))

  on_hosts-IsNext :
      (a b : Actor) (m : Moment) (request_id : Bytes) (version : ℕ) (summaries : List HostSummary)
      → on_hosts configured_headers skew a m request_id version summaries ≡ (b, true)
      → IsNext a.sent b m version (chunks max_status_targets (map (λ h. h.host_id) summaries))
  unfolding on_hosts
  on_hosts-IsNext a b m request_id version summaries h =
      let shown : Actor = record a {
        pending_requests = remove request_id a.pending_requests;
        events = ClientEvent.hosts version summaries ∷ a.events;
      } in
      let batches = chunks max_status_targets (map (λ h. h.host_id) summaries) in
      elim (awaited (get request_id a.pending_requests)) [
        | inl is_list ↦ elim (Bool-cases m.first_delivered) [
          | inr lost ↦ absurd (ground (arith, is_list, lost, h))
          | inl done ↦
              request_statuses-IsNext shown b m version batches (ground (arith, is_list, done, h))
        ]
        | inr (inl nothing) ↦ absurd (ground (arith, nothing, h))
        | inr (inr (v, hosts, remaining, is_batch)) ↦ absurd (ground (arith, is_batch, h))
      ]

  on_statuses-IsNext :
      (a b : Actor) (m : Moment) (request_id : Bytes) (version : ℕ) (hosts : List Bytes)
      (remaining : List (List Bytes)) (catalog_version : ℕ) (reports : List HostStatus)
      → get request_id a.pending_requests ≡ some (PendingRequest.batch version hosts remaining)
      → on_statuses configured_headers skew a m request_id catalog_version reports ≡ (b, true)
      → IsNext a.sent b m version remaining
  unfolding on_statuses
  on_statuses-IsNext a b m request_id version hosts remaining catalog_version reports g h =
      let shown : Actor = record a {
        pending_requests = remove request_id a.pending_requests;
        events = ClientEvent.statuses catalog_version reports ∷ a.events;
      } in
      let status_ids = collect (map (λ s. s.host_id) reports) in
      elim (Bool-cases ((version != catalog_version) || not (same_set status_ids hosts))) [
        | inl wrong ↦ absurd (ground (arith, g, wrong, h))
        | inr right ↦ elim (Bool-cases m.first_delivered) [
          | inr lost ↦ absurd (ground (arith, g, right, lost, h))
          | inl done ↦
              let same : catalog_version ≡ version = ground (arith, right) in
              rw (sym same) (
                on_next_batch-IsNext shown b m catalog_version remaining
                  (ground (arith, g, right, done, h)))
        ]
      ]

  -- In an exchange, which handles a list of hosts and then the answer to each request for states by
  -- calls that return true, with anything between them that keeps what is stored for the awaited
  -- request: each request is for the version of the list and for one to eight hosts. While an answer
  -- is awaited, it is that to the last request, and the hosts of the request and the batches that
  -- are left are stored for it. The hosts of the requests sent and then those of the batches left
  -- are all hosts of the list in their order, and the requests and those batches are together as
  -- many as the hosts divided by eight, rounded up. When the exchange is finished no batch is left:
  -- every host was asked for.
  pub Exchange-IsAsked :
      (version : ℕ) (summaries : List HostSummary) (a : Actor) (phase : Phase)
      (asked : List ClientEnvelope)
      → Exchange configured_headers skew version summaries a phase asked
      → IsAsked version summaries a phase asked
  Exchange-IsAsked version summaries _ _ _ (Exchange.started a b m envelope is_list h) =
      let ids = map (λ h. h.host_id) summaries in
      let (covered, bounded) = chunks-IsBatch max_status_targets ids (omega arith) in
      next-IsAsked version summaries a b m [] (chunks max_status_targets ids)
        (record {
          covers = covered;
          requests = tt;
          batches = bounded;
          number = omega (arith, length-chunks ids, length-map (λ h. h.host_id) summaries);
        })
        (on_hosts-IsNext a b m envelope.request_id version summaries
          (on_event_of a b m envelope _ is_list h))
  Exchange-IsAsked version summaries _ _ _
        (Exchange.answered a b asked m envelope catalog_version reports x is_answer h) =
      let (request, remaining, sent, own, pending, k) =
        Exchange-IsAsked version summaries a (Phase.waiting envelope.request_id) asked x in
      next-IsAsked version summaries a b m asked remaining k (
        on_statuses-IsNext a b m envelope.request_id version _ remaining catalog_version reports
          pending (on_event_of a b m envelope _ is_answer h))
  Exchange-IsAsked version summaries _ _ _ (Exchange.other a b request_id asked x same) =
      let (request, remaining, sent, own, pending, k) =
        Exchange-IsAsked version summaries a (Phase.waiting request_id) asked x in
      (request, remaining, sent, own, same ∙ pending, k)
