-- ===== src/Wake.antt =====
-- `Progress` of src/wake.rs: what a client has learnt of one wake operation.
pub mod History
use remote_open_power.Base.{
  ℕ, Bytes, Bool, true, false, List, [], ◌∷◌, map, Option, none, some, ◌+◌, ◌-◌, ◌*◌, not, ltb,
  is_some, is_empty, all, contains, filter, if◌then◌else◌, nat_eq, list_eq, insert_set, collect,
  Instant, Duration, from_secs,
}
use remote_open_power.Protocol.Message.{WakeResult}

abbrev pub recovery_timeout : Duration
recovery_timeout = from_secs (13 * 60)

-- `RECEIPT_TIMEOUT` and `WAKE_WAIT_TIMEOUT` of src/client.rs
abbrev pub receipt_timeout : Duration
receipt_timeout = from_secs 15

abbrev pub wake_wait_timeout : Duration
wake_wait_timeout = from_secs 60

pub data Outcome : Type 0 where
  waiting complete partial rejected : Outcome

pub record Progress : Type 0 where
  pub created_at : Instant
  pub accepted : List Bytes
  pub online : List Bytes
  pub started_at : Option Instant
  pub deadline : Instant

unfoldable pub new : Instant → Progress
new now = record {
  created_at = now;
  accepted = [];
  online = [];
  started_at = none;
  deadline = now + receipt_timeout;
}

-- `saturating_duration_since` is the truncated difference.
unfoldable pub can_recover : Progress → Instant → Bool
can_recover p now = ltb (now - p.created_at) recovery_timeout

abbrev pub accepted_ids : List WakeResult → List Bytes
accepted_ids results = map (λ r. r.host_id) (filter (λ r. r.accepted) results)

-- `Option::get_or_insert`
abbrev pub get_or_insert : Option Instant → Instant → Instant
get_or_insert none now = now
get_or_insert (some t) now = t

unfoldable pub receive : Progress → List WakeResult → Instant → Progress
receive p results now =
    let accepted' = collect (accepted_ids results) in
    let first_receipt = get_or_insert p.started_at now in
    record p {
      accepted = accepted';
      online = filter (contains accepted') p.online;
      started_at = some first_receipt;
      deadline = first_receipt + wake_wait_timeout;
    }

-- The progress, and whether the observation is new.
unfoldable pub observe : Progress → Bytes → Progress × Bool
observe p host_id =
    if contains p.accepted host_id
    then (let (online', fresh) = insert_set host_id p.online in
        (record p { online = online' }, fresh))
    else (p, false)

unfoldable pub outcome : Progress → List Bytes → Outcome
outcome p targets =
    if not (is_some p.started_at)
    then Outcome.waiting
    else if is_empty p.accepted
    then Outcome.rejected
    else if not (all (contains p.online) p.accepted)
    then Outcome.waiting
    else if all (contains p.online) targets
    then Outcome.complete
    else Outcome.partial
