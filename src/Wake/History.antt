-- ===== src/Wake/History.antt =====
-- Histories of receipts and observations on a `Progress` of src/wake.rs.
use remote_open_power.Base.{
  Bytes, Bool, true, false, List, [], ◌∷◌, Option, none, some, ◌+◌, ◌-◌, ◌≡◌, refl, ltb, contains,
  ◌==◌, ◌||◌, nat_eq, list_eq, collect, Instant, arith, contains-insert_set, contains-collect,
  contains-filter, all-contains,
}
use remote_open_power.Protocol.Message.{WakeResult}
use remote_open_power.Wake.{
  Progress, Outcome, new, can_recover, accepted_ids, receive, observe, outcome, receipt_timeout,
  wake_wait_timeout, recovery_timeout,
}

pub data Event : Type 0 where
  receives : (results : List WakeResult) (now : Instant) → Event
  observes : (host_id : Bytes) → Event

unfoldable pub step : Progress → Event → Progress
step p (Event.receives results now) = receive p results now
step p (Event.observes host_id) = (observe p host_id).0

unfoldable pub run : Progress → List Event → Progress
run p [] = p
run p (e ∷ es) = run (step p e) es

-- The time of the first receipt.
abbrev pub first_receipt : List Event → Option Instant
first_receipt [] = none
first_receipt (Event.receives results now ∷ es) = some now
first_receipt (Event.observes host_id ∷ es) = first_receipt es

-- The hosts that the last receipt accepted.
abbrev pub last_accepted : List Bytes → List Event → List Bytes
last_accepted ids [] = ids
last_accepted ids (Event.receives results now ∷ es) = last_accepted (accepted_ids results) es
last_accepted ids (Event.observes host_id ∷ es) = last_accepted ids es

-- The hosts that were reported.
abbrev pub observed : Bytes → List Event → Bool
observed id [] = false
observed id (Event.receives results now ∷ es) = observed id es
observed id (Event.observes host_id ∷ es) = (host_id == id) || observed id es

-- Only an accepted host counts as online.
pub IsSound : Progress → Type 0
IsSound p = (id : Bytes) → contains p.online id ≡ true → contains p.accepted id ≡ true

receive-IsSound :
    (p : Progress) (results : List WakeResult) (now : Instant) → IsSound (receive p results now)
unfolding IsSound receive
receive-IsSound p results now id h =
    ground (arith, contains-filter (contains (collect (accepted_ids results))) id p.online)

observe-IsSound : (p : Progress) (host_id : Bytes) → IsSound p → IsSound (observe p host_id).0
unfolding IsSound observe
observe-IsSound p host_id s id h = ground (arith, contains-insert_set host_id id p.online, s id)

step-IsSound : (p : Progress) (e : Event) → IsSound p → IsSound (step p e)
unfolding step
step-IsSound p (Event.receives results now) s = receive-IsSound p results now
step-IsSound p (Event.observes host_id) s = observe-IsSound p host_id s

run-IsSound : (p : Progress) (es : List Event) → IsSound p → IsSound (run p es)
unfolding run
run-IsSound p [] s = s
run-IsSound p (e ∷ es) s = run-IsSound (step p e) es (step-IsSound p e s)

contains-accepted :
    (p : Progress) (ids : List Bytes) (es : List Event) (id : Bytes)
    → contains p.accepted id ≡ contains ids id
    → contains (run p es).accepted id ≡ contains (last_accepted ids es) id
unfolding run step receive observe
contains-accepted p ids [] id h = h
contains-accepted p ids (Event.receives results now ∷ es) id h =
    contains-accepted (receive p results now) (accepted_ids results) es id
      (contains-collect id (accepted_ids results))
contains-accepted p ids (Event.observes host_id ∷ es) id h =
    contains-accepted (observe p host_id).0 ids es id (ground arith)

online-observed :
    (p : Progress) (es : List Event) (id : Bytes)
    → contains (run p es).online id ≡ true
    → (contains p.online id || observed id es) ≡ true
unfolding run step receive observe
online-observed p [] id h = ground arith
online-observed p (Event.receives results now ∷ es) id h = ground (
  arith,
  online-observed (receive p results now) es id h,
  contains-filter (contains (collect (accepted_ids results))) id p.online,
)
online-observed p (Event.observes host_id ∷ es) id h =
    ground (
      arith,
      online-observed (observe p host_id).0 es id h,
      contains-insert_set host_id id p.online,
    )

-- When a history ends in `Complete`, every target was accepted by the last receipt and reported
-- online.
pub outcome-complete :
    (now : Instant) (es : List Event) (targets : List Bytes) (id : Bytes)
    → outcome (run (new now) es) targets ≡ Outcome.complete
    → contains targets id ≡ true
    → (contains (last_accepted [] es) id ≡ true) × (observed id es ≡ true)
unfolding outcome new IsSound
outcome-complete now es targets id h m =
    let p = run (new now) es in
    let online : contains p.online id ≡ true =
      all-contains (contains p.online) id targets (ground arith) m in
    let accepted : contains p.accepted id ≡ true = run-IsSound (new now) es (λ j e. cc) id online in
    (
      ground (arith, contains-accepted (new now) [] es id refl),
      ground (arith, online-observed (new now) es id online),
    )

abbrev timely : Option Instant → Instant → Instant
timely none created = created + receipt_timeout
timely (some t) created = t + wake_wait_timeout

started-deadline :
    (p : Progress) (t : Instant) (es : List Event)
    → p.started_at ≡ some t
    → p.deadline ≡ t + wake_wait_timeout
    → ((run p es).deadline ≡ t + wake_wait_timeout) × ((run p es).created_at ≡ p.created_at)
unfolding run step receive observe
started-deadline p t [] s d = (d, refl)
started-deadline p t (Event.receives results now ∷ es) s d =
    started-deadline (receive p results now) t es (ground arith) (ground arith)
started-deadline p t (Event.observes host_id ∷ es) s d =
    ground (arith, started-deadline (observe p host_id).0 t es (ground arith) (ground arith))

run-deadline :
    (p : Progress) (es : List Event)
    → p.started_at ≡ none
    → p.deadline ≡ p.created_at + receipt_timeout
    → ((run p es).deadline ≡ timely (first_receipt es) p.created_at)
      × ((run p es).created_at ≡ p.created_at)
unfolding run step receive observe
run-deadline p [] s d = (d, refl)
run-deadline p (Event.receives results now ∷ es) s d =
    started-deadline (receive p results now) now es (ground arith) (ground arith)
run-deadline p (Event.observes host_id ∷ es) s d =
    ground (arith, run-deadline (observe p host_id).0 es (ground arith) (ground arith))

-- The wait is fixed by the first receipt, however many follow: one minute from it, or fifteen
-- seconds from the start while there is none. Recovery ends thirteen minutes from the start, whatever
-- was received.
pub deadline-run :
    (now later : Instant) (es : List Event)
    → ((run (new now) es).deadline
        ≡ elim (first_receipt es) [ none ↦ now + receipt_timeout | some t ↦ t + wake_wait_timeout ])
      × (can_recover (run (new now) es) later ≡ ltb (later - now) recovery_timeout)
unfolding can_recover new
deadline-run now later es = ground (arith, run-deadline (new now) es refl refl)
