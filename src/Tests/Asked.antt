-- ===== src/Tests/Asked.antt =====
-- A client that gets a list of nine hosts and the answers to its two requests for their states.
use remote_open_power.Base.{
  ℕ, Bytes, true, List, [], ◌∷◌, ◌++◌, map, refl, ℕ_eq?, list_eq?, collect, insert_set, get, insert,
  remove, from_secs, Duration,
}
use remote_open_power.Protocol.Message.{
  Header_eq?, ClientEnvelope, ServerEnvelope, ServerEvent, HostSummary, HostStatus, HostState,
}
use remote_open_power.Client.{Actor, Moment, PendingRequest}
use remote_open_power.Client.Handle.{
  handle_server_event, on_hosts, on_statuses, on_next_batch, request_statuses, send_status_batch,
  chunks_in,
}
use remote_open_power.Client.Backoff.{started}
use remote_open_power.Client.Asked.{sent_since, Phase, Exchange, IsAsked}
use remote_open_power.Client.Asked.Complete.{Exchange-IsAsked}

abbrev moment : Bytes → Moment
moment id = record {
  checked_ms = 1000;
  now_ms = 1000;
  issued_at_ms = 1000;
  random_id = id;
  first_delivered = true;
  second_delivered = true;
  transmit = λ envelope. true;
  now = 5;
}

abbrev skew : Duration
skew = from_secs 30

abbrev envelope : Bytes → ServerEvent → ServerEnvelope
envelope id event = record {
  version = 1;
  request_id = id;
  issued_at_ms = 990;
  headers = [];
  event = event;
}

abbrev eight : List ℕ
eight = 1 ∷ 2 ∷ 3 ∷ 4 ∷ 5 ∷ 6 ∷ 7 ∷ 8 ∷ []

abbrev summaries : List HostSummary
summaries = map (λ n. record { host_id = n ∷ [] }) (eight ++ (9 ∷ []))

abbrev reports : List ℕ → List HostStatus
reports = map (λ n. record { host_id = n ∷ []; state = HostState.online; observed_at_ms = 990 })

abbrev listing : Actor
listing = record (started 0) { pending_requests = (1 ∷ [], PendingRequest.list) ∷ [] }

abbrev first_answer : ServerEnvelope
first_answer = envelope (2 ∷ []) (ServerEvent.statuses 3 (reports eight))

abbrev second_answer : ServerEnvelope
second_answer = envelope (3 ∷ []) (ServerEvent.statuses 3 (reports (9 ∷ [])))

abbrev listed : Actor
listed =
    (handle_server_event [] skew listing (moment (2 ∷ []))
      (envelope (1 ∷ []) (ServerEvent.hosts 3 summaries))).0

abbrev half : Actor
half = (handle_server_event [] skew listed (moment (3 ∷ [])) first_answer).0

abbrev whole : Actor
whole = (handle_server_event [] skew half (moment (4 ∷ [])) second_answer).0

abbrev asked : List ClientEnvelope
asked = (sent_since listing listed ++ sent_since listed half) ++ sent_since half whole

nine_exchanged : Exchange [] skew 3 summaries whole Phase.finished asked
unfolding handle_server_event on_hosts on_statuses on_next_batch request_statuses send_status_batch
    chunks_in collect insert_set get insert remove Header_eq? ℕ_eq? list_eq?
nine_exchanged =
    Exchange.answered half whole _ (moment (4 ∷ [])) second_answer 3 (reports (9 ∷ []))
      (Exchange.answered listed half _ (moment (3 ∷ [])) first_answer 3 (reports eight)
        (Exchange.started listing listed (moment (2 ∷ []))
          (envelope (1 ∷ []) (ServerEvent.hosts 3 summaries)) refl refl)
        refl refl)
      refl refl

Exchange-IsAsked_example : IsAsked 3 summaries whole Phase.finished asked
Exchange-IsAsked_example =
    Exchange-IsAsked [] skew 3 summaries whole Phase.finished asked nine_exchanged
