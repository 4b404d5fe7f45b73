-- ===== src/Server/Ledger.antt =====
-- The ledger of src/server.rs: which operations were begun and what they answered. Each method takes
-- the time and the random values that it draws as arguments; `lock` makes each of them atomic.
pub mod Entries
pub mod Calls
pub mod Bounds
pub mod Dispatch
pub mod Once
pub mod Replies
use remote_open_power.Base.{
  ℕ, Bytes, Bool, true, false, List, [], ◌∷◌, Option, none, some, ◌||◌, ◌&&◌, not, ltb, leb, ◌+◌,
  ◌==◌, ◌!=◌, length, is_some, is_some_and, if◌then◌else◌, nat_eq, list_eq, option_eq, list_eq?, Eq,
  ◌≡◌, refl, ap, Dict, get, insert, remove, retain, count, Instant, saturating_add,
}
use remote_open_power.Protocol.Message.{ServerEnvelope, ServerEvent}
use remote_open_power.Server.Limits.{
  ledger_ttl, pending_ledger_ttl, retry_ttl, monitor_timeout_ms, max_ledger_entries,
  max_ledger_entries_per_client,
}
use remote_open_power.Server.Entry.{
  BeginResult, LedgerEntry, OperationKey, OperationKey_eq?, WakeBeginResult, WakeMeta, WakeRetry,
  answer_request, cached_or_replay, first_wake, is_receipt, operation_key_eq, refuses_retry,
  renew_cached_wake, renewed_lease, second_attempt, with_deadline,
}

pub record Ledger : Type 0 where
  pub entries : Dict OperationKey LedgerEntry
  pub tickets : Dict Bytes OperationKey

abbrev pub empty : Ledger
empty = record { entries = []; tickets = [] }

abbrev pub live : Instant → OperationKey → LedgerEntry → Bool
live now _ entry = ltb now entry.expires

-- Whether a ticket is still that of the operation it was issued for, and has not expired.
abbrev pub redeemable : Instant → Bytes → Option LedgerEntry → Bool
redeemable now ticket none = false
redeemable now ticket (some entry) =
    is_some_and entry.wake (λ wake. wake.ticket == ticket && ltb now wake.ticket_expires)

unfoldable pub prune : Ledger → Instant → Ledger
prune l now =
    let entries' = retain (live now) l.entries in
    record {
      entries = entries';
      tickets = retain (λ ticket key. redeemable now ticket (get key entries')) l.tickets;
    }

abbrev pub of_client : Bytes → OperationKey → LedgerEntry → Bool
of_client client_key key _ = key.client_key == client_key

unfoldable pub has_capacity_for : Ledger → Bytes → Bool
has_capacity_for l client_key =
    ltb (length l.entries) max_ledger_entries
    && ltb (count (of_client client_key) l.entries) max_ledger_entries_per_client

abbrev pub put_entry : Ledger → OperationKey → LedgerEntry → Ledger
put_entry l key entry = record l { entries = insert key entry l.entries }

unfoldable pub begin_request : Ledger → OperationKey → Bytes → Instant → Ledger × BeginResult
begin_request l key digest now =
    let pruned = prune l now in
    elim (get key pruned.entries) [
      | some entry ↦ (pruned, answer_request entry digest)
      | none ↦
          if not (has_capacity_for pruned key.client_key) then (pruned, BeginResult.busy) else (
            put_entry pruned key (record {
              digest = digest;
              wake = none;
              response = none;
              pending = true;
              expires = now + pending_ledger_ttl;
            }),
            BeginResult.new,
          )
    ]

-- `self.tickets.insert(wake.ticket, key)` for an entry that holds a wake.
abbrev pub register_ticket : Ledger → OperationKey → Option WakeMeta → Ledger
register_ticket l key none = l
register_ticket l key (some wake) = record l { tickets = insert wake.ticket key l.tickets }

-- The branch of `begin_wake_attempt1` for an entry that is done and still in its first attempt.
abbrev pub replay_attempt1 :
    Ledger → OperationKey → LedgerEntry × Option ServerEnvelope → Ledger × WakeBeginResult
replay_attempt1 l key (entry, none) = (l, WakeBeginResult.replay)
replay_attempt1 l key (entry, some response) =
    (register_ticket (put_entry l key entry) key entry.wake, WakeBeginResult.cached response)

-- `ticket` is what `random_ticket()` draws.
unfoldable pub begin_wake_attempt1 :
    Ledger
    → OperationKey
    → Bytes
    → ℕ
    → List Bytes
    → Bytes
    → Instant
    → ℕ
    → Bytes
    → Ledger × WakeBeginResult
begin_wake_attempt1 l key digest catalog_version host_ids boot_nonce now clock_ms ticket =
    let pruned = prune l now in
    elim (get key pruned.entries) [
      | some entry ↦
          if entry.digest != digest
          then (pruned, WakeBeginResult.conflict)
          else if entry.pending
          then (pruned, WakeBeginResult.busy)
          else if is_some_and entry.wake (λ wake. wake.attempt != 1)
          then (pruned, WakeBeginResult.replay)
          else replay_attempt1 pruned key (renew_cached_wake entry now clock_ms)
      | none ↦
          if not (has_capacity_for pruned key.client_key) then (pruned, WakeBeginResult.busy) else (
            register_ticket
                (put_entry pruned key (record {
                  digest = digest;
                  wake = some (first_wake catalog_version host_ids boot_nonce ticket now);
                  response = none;
                  pending = true;
                  expires = now + pending_ledger_ttl;
                }))
                key (some (first_wake catalog_version host_ids boot_nonce ticket now)),
            WakeBeginResult.new ticket,
          )
    ]

-- The end of `begin_wake_attempt2`, for an entry that is done and whose ticket is registered.
abbrev pub redeem :
    Ledger → OperationKey → WakeRetry → LedgerEntry → Instant → Ledger × WakeBeginResult
redeem l key retry entry now = elim entry.wake [
  | none ↦ (l, WakeBeginResult.replay)
  | some wake ↦
      if refuses_retry wake retry now
      then (l, WakeBeginResult.replay)
      else (put_entry l key (second_attempt entry wake now), WakeBeginResult.new retry.ticket)
]

unfoldable pub begin_wake_attempt2 :
    Ledger → OperationKey → WakeRetry → Instant → ℕ → Ledger × WakeBeginResult
begin_wake_attempt2 l key retry now clock_ms =
    let pruned = prune l now in
    elim (get key pruned.entries) [
      | none ↦ (pruned, WakeBeginResult.replay)
      | some entry ↦
          if entry.digest != retry.digest
          then (pruned, WakeBeginResult.conflict)
          else if entry.pending
          then (pruned, WakeBeginResult.busy)
          else if is_some_and entry.wake (λ wake. wake.attempt == 2 && wake.ticket == retry.ticket)
          then (let (entry', response) = renew_cached_wake entry now clock_ms in
              (put_entry pruned key entry', cached_or_replay response))
          else if get retry.ticket pruned.tickets != some key
          then (pruned, WakeBeginResult.replay)
          else redeem pruned key retry entry now
    ]

unfoldable pub complete : Ledger → OperationKey → ServerEnvelope → Instant → Ledger
complete l key response now = elim (get key l.entries) [
  | none ↦ l
  | some entry ↦ put_entry l key (record entry {
    wake = renewed_lease entry.wake now;
    pending = false;
    response = some response;
    expires = now + ledger_ttl;
  })
]

-- `lock(&self.ledger).entries.remove(&key)`, when no probe can be started for a status request.
unfoldable pub forget : Ledger → OperationKey → Ledger
forget l key = record l { entries = remove key l.entries }
