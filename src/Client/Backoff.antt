-- ===== src/Client/Backoff.antt =====
-- `client_actor` of src/client.rs: its attempts to connect and the pauses between them.
pub mod Paced
use remote_open_power.Base.{
  ℕ, zero, suc, Bool, true, false, List, [], ◌∷◌, ◌++◌, Option, none, some, ◌+◌, ◌-◌, ◌*◌, ◌^◌, min,
  not, leb, length, if◌then◌else◌, Instant, Duration, from_secs,
}
use remote_open_power.Protocol.Message.{Header}
use remote_open_power.Client.{Actor, ClientEvent, ClientConnectionErrorCode}
use remote_open_power.Client.Commands.{ConnectedClientExit}
use remote_open_power.Client.Run.{Round, run_connected_client}

abbrev pub u32_max : ℕ
u32_max = 2 ^ 32 - 1

abbrev pub reconnect_delays_seconds : List ℕ
reconnect_delays_seconds = 2 ∷ 5 ∷ 10 ∷ 20 ∷ 30 ∷ []

-- An element by its index; none is the panic of an index out of range.
abbrev pub at : List ℕ → ℕ → Option ℕ
at [] i = none
at (x ∷ xs) zero = some x
at (x ∷ xs) (suc i) = at xs i

unfoldable pub reconnect_delay : ℕ → Option Duration
reconnect_delay attempt =
    elim (at reconnect_delays_seconds (min (attempt - 1) (length reconnect_delays_seconds - 1))) [
      | none ↦ none
      | some seconds ↦ some (from_secs seconds)
    ]

-- What a wait for a command finds; a wake command comes with whether its refusal is delivered.
pub data Waited : Type 0 where
  shutdown refresh timeout disconnected : Waited
  wake : Bool → Waited

-- The events, and whether to connect again; when the waits end, so does the time.
unfoldable pub wait_for_reconnect :
    List ClientEvent → Instant → List (Instant × Waited) → List ClientEvent × Bool
wait_for_reconnect events deadline [] = (events, true)
wait_for_reconnect events deadline ((now, w) ∷ waits) =
    let again = wait_for_reconnect events deadline waits in
    let refused = wait_for_reconnect (ClientEvent.error ∷ events) deadline waits in
    if leb deadline now then (events, true) else elim w [
      | Waited.shutdown ↦ (events, false)
      | Waited.disconnected ↦ (events, false)
      | Waited.refresh ↦ again
      | Waited.timeout ↦ (events, true)
      | Waited.wake delivered ↦ if delivered then refused else (events, false)
    ]

-- What an attempt to connect finds.
pub data Found : Type 0 where
  unresolved unreachable stopped unsecured : Found
  established : List Round → Found

-- Which events the queue takes, the time of a failure and the waits after it.
pub record Try : Type 0 where
  pub connecting_delivered : Bool
  pub connected_delivered : Bool
  pub failure_delivered : Bool
  pub disconnect_delivered : Bool
  pub connected_at : Instant
  pub failed_at : Instant
  pub waits : List (Instant × Waited)
  pub found : Found

unfoldable pub report_connection_failure :
    List ClientEvent → Try → ℕ → ClientConnectionErrorCode → List ClientEvent × Bool
report_connection_failure events t attempt code = elim (reconnect_delay attempt) [
  | none ↦ (events, false)
  | some retry_after ↦
      if not t.failure_delivered
      then (events, false)
      else wait_for_reconnect (ClientEvent.connection_failed attempt code retry_after ∷ events)
          (t.failed_at + retry_after) t.waits
]

abbrev pub finish : List ClientEvent → Try → List ClientEvent
finish events t = if t.disconnect_delivered then ClientEvent.disconnected ∷ events else events

abbrev pub started : Instant → Actor
started now = record {
  last_activity = now;
  send_list = true;
  pending = [];
  pending_requests = [];
  events = [];
  sent = [];
  closed = false;
}

unfoldable pub retry :
    List ClientEvent
    → Try
    → ℕ
    → ClientConnectionErrorCode
    → (ℕ → List ClientEvent → List ClientEvent)
    → List ClientEvent
retry events t attempt code next =
    let (events', again) = report_connection_failure events t attempt code in
    if again then next (min (attempt + 1) u32_max) events' else finish events' t

module _ (configured_headers : List Header) (configured_clock_skew : Duration) where
  unfoldable pub session :
      List ClientEvent
      → Try
      → List Round
      → (ℕ → List ClientEvent → List ClientEvent)
      → List ClientEvent
  session events t rounds next =
      let (a, exit) =
        run_connected_client configured_headers configured_clock_skew (started t.connected_at)
          rounds in
      let events' = a.events ++ (ClientEvent.connected ∷ events) in
      if not t.connected_delivered then events else elim exit [
        | none ↦ events'
        | some (ConnectedClientExit.shutdown) ↦ finish events' t
        | some (ConnectedClientExit.lost code) ↦ retry events' t 1 code next
      ]

  abbrev pub attempted :
      ℕ
      → List ClientEvent
      → Try
      → Found
      → (ℕ → List ClientEvent → List ClientEvent)
      → List ClientEvent
  attempted attempt events t Found.unresolved next =
      retry events t attempt ClientConnectionErrorCode.resolve next
  attempted attempt events t Found.unreachable next =
      retry events t attempt ClientConnectionErrorCode.connect next
  attempted attempt events t Found.stopped next = finish events t
  attempted attempt events t Found.unsecured next =
      retry events t attempt ClientConnectionErrorCode.handshake next
  attempted attempt events t (Found.established rounds) next = session events t rounds next

  -- The events of the attempts, the latest first, from the number of the next attempt and the
  -- events before.
  unfoldable pub client_actor : ℕ → List ClientEvent → List Try → List ClientEvent
  client_actor attempt events [] = events
  client_actor attempt events (t ∷ tries) =
      let rest =
        attempted attempt (ClientEvent.connecting attempt ∷ events) t t.found
          (λ n es. client_actor n es tries) in
      if not t.connecting_delivered then events else rest
