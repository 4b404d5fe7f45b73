-- ===== src/Client/Asked.antt =====
-- How the actor of src/client.rs asks for the states of a list of hosts, one batch after the other:
-- `handle_server_event` with `send_status_batch`.
pub mod Complete
use remote_open_power.Base.{
  ℕ, Bytes, Bool, true, false, List, [], ◌∷◌, ◌++◌, All, map, Option, none, some, ◌≡◌, ◌≤◌, ◌<◌,
  ◌+◌, ◌-◌, ◌/◌, ◌∙◌, ap, sym, refl, arith, inl, inr, length, take, last, collect, collect, get,
  get-insert, ==-refl, Bool-cases, Option-cases, nat_eq, list_eq, Duration,
}
use remote_open_power.Protocol.Message.{
  Header, ClientEnvelope, ClientOperation, ServerEnvelope, ServerEvent, HostSummary, HostStatus,
  max_status_targets, protocol_version,
}
use remote_open_power.Client.{Actor, Moment, PendingRequest, max_pending_requests}
use remote_open_power.Client.Handle.{
  chunks, send_status_batch, request_statuses, on_hosts, on_next_batch, on_statuses, on_event,
  handle_server_event,
}
use remote_open_power.Client.Batches.{concat, IsBatch, chunks-IsBatch}

-- The envelopes that `b` sent after `a`.
abbrev pub sent_since : Actor → Actor → List ClientEnvelope
sent_since a b = take (length b.sent - length a.sent) b.sent

-- The request whose answer is awaited, or none.
pub data Phase : Type 0 where
  waiting : (request_id : Bytes) → Phase
  finished : Phase

-- After a call that drew the identifier and sent the requests.
abbrev pub phase_after : Moment → List ClientEnvelope → Phase
phase_after m [] = Phase.finished
phase_after m (request ∷ requests) = Phase.waiting m.random_id

abbrev pub hosts_of : ClientOperation → List Bytes
hosts_of (ClientOperation.get_statuses catalog_version host_ids) = host_ids
hosts_of other = []

abbrev pub hosts_in : List ClientEnvelope → List Bytes
hosts_in [] = []
hosts_in (request ∷ requests) = hosts_of request.operation ++ hosts_in requests

-- A request for the states of at least one host and of at most as many as a request may have.
abbrev pub IsStatusRequest : ℕ → ClientEnvelope → Type 0
IsStatusRequest version request =
    (request.operation ≡ ClientOperation.get_statuses version (hosts_of request.operation))
    × IsBatch max_status_targets (hosts_of request.operation)

-- From the call that handles a list of hosts, the calls that handle the answers to its requests for
-- states, and between them anything that leaves the awaited request; with the requests sent.
pub data Exchange (configured_headers : List Header) (skew : Duration) (version : ℕ)
    (summaries : List HostSummary) : Actor → Phase → List ClientEnvelope → Type 0 where
  started :
      (a b : Actor) (m : Moment) (envelope : ServerEnvelope)
      → envelope.event ≡ ServerEvent.hosts version summaries
      → handle_server_event configured_headers skew a m envelope ≡ (b, true)
      → Exchange configured_headers skew version summaries b
          (phase_after m (sent_since a b))
          (sent_since a b)
  answered :
      (a b : Actor) (asked : List ClientEnvelope) (m : Moment) (envelope : ServerEnvelope)
      (catalog_version : ℕ) (reports : List HostStatus)
      → Exchange configured_headers skew version summaries a
          (Phase.waiting envelope.request_id)
          asked
      → envelope.event ≡ ServerEvent.statuses catalog_version reports
      → handle_server_event configured_headers skew a m envelope ≡ (b, true)
      → Exchange configured_headers skew version summaries b
          (phase_after m (sent_since a b))
          (asked ++ sent_since a b)
  other :
      (a b : Actor) (request_id : Bytes) (asked : List ClientEnvelope)
      → Exchange configured_headers skew version summaries a (Phase.waiting request_id) asked
      → get request_id b.pending_requests ≡ get request_id a.pending_requests
      → Exchange configured_headers skew version summaries b (Phase.waiting request_id) asked

-- With these batches left, the requests are for all hosts in their order.
pub record Asks (version : ℕ) (summaries : List HostSummary) (asked : List ClientEnvelope)
    (remaining : List (List Bytes)) : Type 0 where
  pub covers : hosts_in asked ++ concat remaining ≡ map (λ h. h.host_id) summaries
  pub requests : All (IsStatusRequest version) asked
  pub batches : All (IsBatch max_status_targets) remaining
  pub number : length asked + length remaining ≡ (length summaries + 7) / 8

-- The awaited request is the last one sent, and its hosts and the batches left are stored for it.
abbrev pub IsAsked : ℕ → List HostSummary → Actor → Phase → List ClientEnvelope → Type 0
IsAsked version summaries a (Phase.waiting request_id) asked =
    (request : ClientEnvelope) × (remaining : List (List Bytes)) × (last asked ≡ some request)
    × (request.request_id ≡ request_id)
    × (get request_id a.pending_requests
        ≡ some (PendingRequest.batch version (collect (hosts_of request.operation)) remaining))
    × Asks version summaries asked remaining
IsAsked version summaries a Phase.finished asked = Asks version summaries asked []

pub sent_none : (a b : Actor) → b.sent ≡ a.sent → sent_since a b ≡ []
sent_none a b same =
    let none_left : length b.sent - length a.sent ≡ 0 = rw same (omega arith) in rw none_left refl

pub sent_one :
    (a b : Actor) (request : ClientEnvelope)
    → b.sent ≡ request ∷ a.sent
    → sent_since a b ≡ request ∷ []
sent_one a b request same =
    let one_more : length b.sent - length a.sent ≡ 1 = rw same (omega arith) in
    rw (one_more, same) refl
