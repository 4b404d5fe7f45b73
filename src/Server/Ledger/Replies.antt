-- ===== src/Server/Ledger/Replies.antt =====
-- What the ledger of src/server.rs answers to a repeated request and to a retry.
use remote_open_power.Base.{
  ℕ, Bytes, false, Option, none, some, ◌+◌, ◌<◌, ◌==◌, if◌then◌else◌, nat_eq, list_eq, option_eq,
  ◌≡◌, ◌≢◌, refl, ap, get, Instant, arith, Distinct, get-insert, Distinct-insert, Option-cases, inl,
  inr, Bool-cases,
}
use remote_open_power.Protocol.Message.{ServerEnvelope}
use remote_open_power.Server.Limits.{ledger_ttl}
use remote_open_power.Server.Entry.{
  OperationKey, operation_key_eq, WakeMeta, WakeRetry, LedgerEntry, BeginResult, WakeBeginResult,
  second_attempt, refuses_retry, renewed_lease, cached_or_replay, renew_cached_wake,
}
use remote_open_power.Server.Ledger.{
  Ledger, prune, put_entry, complete, begin_request, begin_wake_attempt2, redeem,
}
use remote_open_power.Server.Ledger.Entries.{get-prune, unexpired}

-- The entry of a completed operation.
abbrev completed : LedgerEntry → ServerEnvelope → Instant → LedgerEntry
completed e response now = record e {
  wake = renewed_lease e.wake now;
  pending = false;
  response = some response;
  expires = now + ledger_ttl;
}

get-complete :
    (l : Ledger) (key : OperationKey) (e : LedgerEntry) (response : ServerEnvelope) (now : Instant)
    → get key l.entries ≡ some e
    → complete l key response now ≡ put_entry l key (completed e response now)
unfolding complete
get-complete l key e response now held = rw (held, complete) refl

completed_later :
    (l : Ledger) (key : OperationKey) (e : LedgerEntry) (response : ServerEnvelope)
    (now later : Instant)
    → Distinct l.entries
    → get key l.entries ≡ some e
    → later < now + ledger_ttl
    → get key (prune (complete l key response now) later).entries ≡ some (completed e response now)
completed_later l key e response now later d held soon =
    rw
      (
        get-complete l key e response now held,
        get-prune (put_entry l key (completed e response now)) later key
            (Distinct-insert key (completed e response now) l.entries d),
        get-insert,
      )
      (ground arith)

-- On a ledger that stores no operation twice and has an entry under the key: less than fifteen
-- minutes after `complete`, a request under that key does no more to the ledger than `prune`, and is answered from the ledger: with the stored response if its digest is that of
-- the operation, and with a conflict otherwise.
pub begin_request-complete :
    (l : Ledger) (key : OperationKey) (e : LedgerEntry) (response : ServerEnvelope)
    (now later : Instant) (digest : Bytes)
    → Distinct l.entries
    → get key l.entries ≡ some e
    → later < now + ledger_ttl
    → begin_request (complete l key response now) key digest later ≡ (
      prune (complete l key response now) later,
      if e.digest == digest then BeginResult.cached response else BeginResult.conflict,
    )
unfolding begin_request
begin_request-complete l key e response now later digest d held soon =
    let found = completed_later l key e response now later d held soon in
    rw (found, begin_request) (ground arith)

-- What a granted second attempt rests on: the entry that the first attempt left, unchanged.
pub record Granted (l : Ledger) (key : OperationKey) (retry : WakeRetry) (now : Instant)
    : Type 0 where
  pub entry : LedgerEntry
  pub wake : WakeMeta
  pub stored : get key l.entries ≡ some entry
  pub is_wake : entry.wake ≡ some wake
  pub alive : now < entry.expires
  pub settled : entry.pending ≡ false
  pub same_digest : entry.digest ≡ retry.digest
  pub same_catalog : wake.catalog_version ≡ retry.catalog_version
  pub same_hosts : wake.host_ids ≡ retry.host_ids
  pub same_nonce : wake.boot_nonce ≡ retry.boot_nonce
  pub same_ticket : wake.ticket ≡ retry.ticket
  pub first : wake.attempt ≡ 1
  pub unused : wake.ticket_used ≡ false
  pub fresh : now < wake.ticket_expires

cached-ne-new : (r : Option ServerEnvelope) (t : Bytes) → cached_or_replay r ≢ WakeBeginResult.new t
cached-ne-new none t h = cc
cached-ne-new (some response) t h = cc

-- The tests on the way to a granted retry.
granted_tests :
    (l : Ledger) (key : OperationKey) (retry : WakeRetry) (now : Instant) (clock_ms : ℕ) (t : Bytes)
    (e : LedgerEntry)
    → get key (prune l now).entries ≡ some e
    → (begin_wake_attempt2 l key retry now clock_ms).1 ≡ WakeBeginResult.new t
    → (e.digest ≡ retry.digest)
      × (e.pending ≡ false)
      × ((redeem (prune l now) key retry e now).1 ≡ WakeBeginResult.new t)
unfolding begin_wake_attempt2
granted_tests l key retry now clock_ms t e held h =
    let h' = rw (held, begin_wake_attempt2) at h in
    ground (arith, h', cached-ne-new (renew_cached_wake e now clock_ms).1 t)

unexpired-some :
    (now : Instant) (k : OperationKey) (o : Option LedgerEntry) (e : LedgerEntry)
    → unexpired now k o ≡ some e
    → (o ≡ some e) × (now < e.expires)
unexpired-some now k none e h = cc
unexpired-some now k (some x) e h =
    let same : x ≡ e = ground arith in
    let alive : now < x.expires = ground arith in (ap some same, rw (← same) alive)

redeem_tests :
    (l : Ledger) (key : OperationKey) (retry : WakeRetry) (e : LedgerEntry) (w : WakeMeta)
    (now : Instant) (t : Bytes)
    → e.wake ≡ some w
    → (redeem l key retry e now).1 ≡ WakeBeginResult.new t
    → (refuses_retry w retry now ≡ false)
      × (t ≡ retry.ticket)
      × (redeem l key retry e now
          ≡ (put_entry l key (second_attempt e w now), WakeBeginResult.new retry.ticket))
redeem_tests l key retry e w now t is_wake h =
    let h' = rw (is_wake, redeem) at h in
    elim (Bool-cases (refuses_retry w retry now)) [
      | inl refused ↦ absurd (ground arith)
      | inr granted ↦ (granted, ground arith, rw (is_wake, redeem, granted) refl)
    ]

redeem-none :
    (l : Ledger) (key : OperationKey) (retry : WakeRetry) (e : LedgerEntry) (now : Instant)
    (t : Bytes)
    → e.wake ≡ none
    → (redeem l key retry e now).1 ≢ WakeBeginResult.new t
redeem-none l key retry e now t absent h = let h' = rw (absent, redeem) at h in cc

missing_retry :
    (l : Ledger) (key : OperationKey) (retry : WakeRetry) (now : Instant) (clock_ms : ℕ) (t : Bytes)
    → get key (prune l now).entries ≡ none
    → (begin_wake_attempt2 l key retry now clock_ms).1 ≢ WakeBeginResult.new t
unfolding begin_wake_attempt2
missing_retry l key retry now clock_ms t free h = let h' = rw (free, begin_wake_attempt2) at h in cc

Granted-entry :
    (l : Ledger) (key : OperationKey) (retry : WakeRetry) (now : Instant) (clock_ms : ℕ) (t : Bytes)
    (e : LedgerEntry) (w : WakeMeta)
    → Distinct l.entries
    → get key (prune l now).entries ≡ some e
    → e.wake ≡ some w
    → (begin_wake_attempt2 l key retry now clock_ms).1 ≡ WakeBeginResult.new t
    → Granted l key retry now × (t ≡ retry.ticket)
unfolding refuses_retry
Granted-entry l key retry now clock_ms t e w d held is_wake h =
    let tests = granted_tests l key retry now clock_ms t e held h in
    let redeemed = redeem_tests (prune l now) key retry e w now t is_wake tests.2 in
    let (stored, alive) =
      unexpired-some now key (get key l.entries) e (rw (← get-prune l now key d) held) in
    (
      record {
        entry = e;
        wake = w;
        stored = stored;
        is_wake = is_wake;
        alive = alive;
        settled = tests.1;
        same_digest = tests.0;
        same_catalog = ground (arith, redeemed.0);
        same_hosts = ground (arith, redeemed.0);
        same_nonce = ground (arith, redeemed.0);
        same_ticket = ground (arith, redeemed.0);
        first = ground (arith, redeemed.0);
        unused = ground (arith, redeemed.0);
        fresh = ground (arith, redeemed.0);
      },
      redeemed.1,
    )

-- On a ledger that stores no operation twice, `begin_wake_attempt2` answers `New` only for a retry
-- that repeats its first attempt: the entry is there, unexpired and not pending, has the same digest, catalog version, hosts and nonce, is in its
-- first attempt, and the ticket presented is the one issued, unused and unexpired; that ticket is
-- also the one returned.
pub begin_wake_attempt2-Granted :
    (l : Ledger) (key : OperationKey) (retry : WakeRetry) (now : Instant) (clock_ms : ℕ) (t : Bytes)
    → Distinct l.entries
    → (begin_wake_attempt2 l key retry now clock_ms).1 ≡ WakeBeginResult.new t
    → Granted l key retry now × (t ≡ retry.ticket)
begin_wake_attempt2-Granted l key retry now clock_ms t d h =
    elim (Option-cases (get key (prune l now).entries)) [
      | inl free ↦ absurd (missing_retry l key retry now clock_ms t free h)
      | inr (e, held) ↦ elim (Option-cases e.wake) [
        | inl absent ↦ absurd (
            redeem-none (prune l now) key retry e now t absent
              (granted_tests l key retry now clock_ms t e held h).2)
        | inr (w, is_wake) ↦ Granted-entry l key retry now clock_ms t e w d held is_wake h
      ]
    ]
