-- ===== src/Tests/Progress.antt =====
-- A wake operation of two hosts, seen by the client: src/wake.rs.
use remote_open_power.Base.{
  nat_eq, list_eq, ℕ_eq?, list_eq?, collect, Bytes, bytes, true, List, [], ◌∷◌, none, ◌≡◌, refl,
  contains, from_secs,
}
use remote_open_power.Protocol.Message.{WakeResult}
use remote_open_power.Wake.{new, receive, observe, outcome, can_recover}
use remote_open_power.Wake.History
use remote_open_power.Wake.History.{
  run, last_accepted, observed, first_receipt, outcome-complete, deadline-run,
}

abbrev targets : List Bytes
targets = bytes "pc" ∷ bytes "nas" ∷ []

abbrev results : List WakeResult
results =
    record { host_id = bytes "pc"; accepted = true; error_code = none }
    ∷ record { host_id = bytes "nas"; accepted = true; error_code = none }
    ∷ []

abbrev history : List History.Event
history =
    History.Event.observes (bytes "pc")
    ∷ History.Event.receives results (from_secs 1)
    ∷ History.Event.observes (bytes "nas")
    ∷ History.Event.observes (bytes "pc")
    ∷ History.Event.receives results (from_secs 30)
    ∷ []

outcome-complete_example :
    (contains (last_accepted [] history) (bytes "pc") ≡ true)
    × (observed (bytes "pc") history ≡ true)
unfolding outcome run History.step receive collect list_eq? ℕ_eq? observe new
outcome-complete_example = outcome-complete 0 history targets (bytes "pc") refl refl

deadline-run_example :
    ((run (new 0) history).deadline ≡ from_secs 61)
    × (can_recover (run (new 0) history) (from_secs 600) ≡ true)
deadline-run_example = deadline-run 0 (from_secs 600) history
