-- ===== src/Server/Ledger/Entries.antt =====
-- How a call of the ledger (src/server.rs) changes its entries: it drops the expired ones, and then
-- changes at most the entry of its own key.
use remote_open_power.Base.{
  ℕ, Bytes, Bool, true, false, List, Option, none, some, ◌&&◌, ◌+◌, ◌≤◌, ◌==◌, ◌!=◌, is_some_and,
  if◌then◌else◌, nat_eq, ℕ_eq?, list_eq, option_eq, ◌≡◌, refl, get, insert, Instant, arith,
  Distinct, kept, get-retain, Distinct-retain, Option-cases, Bool-cases, inl, inr, ◌⊎◌,
}
use remote_open_power.Protocol.Message.{ServerEnvelope}
use remote_open_power.Server.Limits.{pending_ledger_ttl}
use remote_open_power.Server.Entry.{
  OperationKey, operation_key_eq, WakeMeta, WakeRetry, LedgerEntry, WakeBeginResult,
  renew_cached_wake, cached_or_replay, refuses_retry, second_attempt,
}
use remote_open_power.Server.Ledger.{
  Ledger, live, prune, has_capacity_for, begin_request, begin_wake_attempt1, begin_wake_attempt2,
  put_entry, register_ticket, replay_attempt1, redeem,
}

-- What has expired is gone.
abbrev pub unexpired : Instant → OperationKey → Option LedgerEntry → Option LedgerEntry
unexpired now = kept (live now)

pub get-prune :
    (l : Ledger) (now : Instant) (k : OperationKey)
    → Distinct l.entries
    → get k (prune l now).entries ≡ unexpired now k (get k l.entries)
unfolding prune
get-prune l now k d = get-retain (live now) k l.entries d

pub Distinct-prune :
    (l : Ledger) (now : Instant) → Distinct l.entries → Distinct (prune l now).entries
unfolding prune
Distinct-prune l now d = Distinct-retain (live now) l.entries d

-- 1 if the caller is told to send the packets.
abbrev pub begins : WakeBeginResult → ℕ
begins (WakeBeginResult.new ticket) = 1
begins _ = 0

-- 1 while a second attempt is possible: the operation is a wake in its first attempt.
abbrev pub retries_left : Option LedgerEntry → ℕ
retries_left none = 0
retries_left (some e) = if is_some_and e.wake (λ wake. wake.attempt == 1) then 1 else 0

-- The three ways in which a `begin` call ends, where it dispatches `firsts` first and `seconds`
-- second attempts.
pub data Move (l l' : Ledger) (key : OperationKey) (now : Instant) (firsts seconds : ℕ)
    : Type 0 where
  keep :
      l'.entries ≡ (prune l now).entries
      → firsts ≡ 0
      → seconds ≡ 0
      → Move l l' key now firsts seconds
  start :
      (e : LedgerEntry)
      → get key (prune l now).entries ≡ none
      → has_capacity_for (prune l now) key.client_key ≡ true
      → e.expires ≡ now + pending_ledger_ttl
      → seconds + retries_left (some e) ≤ firsts
      → l'.entries ≡ insert key e (prune l now).entries
      → Move l l' key now firsts seconds
  update :
      (old e : LedgerEntry)
      → get key (prune l now).entries ≡ some old
      → (e.expires ≡ old.expires) ⊎ (e.expires ≡ now + pending_ledger_ttl)
      → seconds + retries_left (some e) ≤ retries_left (some old)
      → firsts ≡ 0
      → l'.entries ≡ insert key e (prune l now).entries
      → Move l l' key now firsts seconds

-- The same of a wake call and its result, so that a test splits it; `b` says that it is the call of
-- the first attempt.
pub record Moved (b : Bool) (l : Ledger) (r : Ledger × WakeBeginResult) (key : OperationKey)
    (now : Instant) : Type 0 where
  pub move : Move l r.0 key now (if b then begins r.1 else 0) (if b then 0 else begins r.1)

register_ticket-entries :
    (l : Ledger) (key : OperationKey) (wake : Option WakeMeta)
    → (register_ticket l key wake).entries ≡ l.entries
register_ticket-entries l key none = refl
register_ticket-entries l key (some wake) = refl

cached_begins : (r : Option ServerEnvelope) → begins (cached_or_replay r) ≡ 0
cached_begins none = refl
cached_begins (some response) = refl

module _ (l : Ledger) (key : OperationKey) (now : Instant) where
  pub begin_request-Move : (digest : Bytes) → Move l (begin_request l key digest now).0 key now 0 0
  unfolding begin_request
  begin_request-Move digest = elim (Option-cases (get key (prune l now).entries)) [
    | inl free ↦
        rw (free, begin_request)
          (elim (Bool-cases (has_capacity_for (prune l now) key.client_key)) [
            | inl room ↦ rw room (start _ free room refl (omega arith) refl)
            | inr full ↦ rw full (keep refl refl refl)
          ])
    | inr (e, held) ↦ rw (held, begin_request) (keep refl refl refl)
  ]

  renew_cached_wake-expires :
      (e : LedgerEntry) (clock_ms : ℕ) → (renew_cached_wake e now clock_ms).0.expires ≡ e.expires
  unfolding renew_cached_wake
  renew_cached_wake-expires e clock_ms = ground arith

  choose :
      (first : Bool) (b : Bool) (x y : Ledger × WakeBeginResult)
      → Moved first l x key now
      → Moved first l y key now
      → Moved first l (if b then x else y) key now
  choose first true x y mx my = mx
  choose first false x y mx my = my

  stay :
      (first : Bool) (w : WakeBeginResult) → begins w ≡ 0 → Moved first l (prune l now, w) key now
  stay first w h = record { move = keep refl (ground arith) (ground arith) }

  renew_cached_wake-retries :
      (e : LedgerEntry) (clock_ms : ℕ)
      → retries_left (some (renew_cached_wake e now clock_ms).0) ≡ retries_left (some e)
  unfolding renew_cached_wake
  renew_cached_wake-retries e clock_ms = ground arith

  replay_attempt1-Move :
      (e : LedgerEntry) (clock_ms : ℕ)
      → get key (prune l now).entries ≡ some e
      → Moved true l (replay_attempt1 (prune l now) key (renew_cached_wake e now clock_ms)) key now
  replay_attempt1-Move e clock_ms held =
      let renewed = renew_cached_wake e now clock_ms in
      elim (Option-cases renewed.1) [
        | inl refused ↦ rw (refused, replay_attempt1) (stay true WakeBeginResult.replay refl)
        | inr (response, answered) ↦
            rw (answered, replay_attempt1)
              (record {
                move =
                    update e renewed.0 held (inl (renew_cached_wake-expires e clock_ms))
                      (omega (arith, renew_cached_wake-retries e clock_ms)) refl
                      (register_ticket-entries (put_entry (prune l now) key renewed.0) key
                        renewed.0.wake);
              })
      ]

  pub begin_wake_attempt1-Move :
      (digest : Bytes) (catalog_version : ℕ) (host_ids : List Bytes) (boot_nonce : Bytes)
      (clock_ms : ℕ) (ticket : Bytes)
      → Moved true l
          (begin_wake_attempt1 l key digest catalog_version host_ids boot_nonce now clock_ms ticket)
          key
          now
  unfolding begin_wake_attempt1 ℕ_eq?
  begin_wake_attempt1-Move digest catalog_version host_ids boot_nonce clock_ms ticket =
      elim (Option-cases (get key (prune l now).entries)) [
        | inl free ↦
            rw (free, begin_wake_attempt1)
              (elim (Bool-cases (has_capacity_for (prune l now) key.client_key)) [
                | inl room ↦ rw room (record { move = start _ free room refl (omega arith) refl })
                | inr full ↦ rw full (stay true WakeBeginResult.busy refl)
              ])
        | inr (e, held) ↦
            rw (held, begin_wake_attempt1)
              (choose true (e.digest != digest) _ _ (stay true WakeBeginResult.conflict refl) (
                choose true e.pending _ _ (stay true WakeBeginResult.busy refl) (
                  choose true (is_some_and e.wake (λ wake. wake.attempt != 1)) _ _
                    (stay true WakeBeginResult.replay refl)
                    (replay_attempt1-Move e clock_ms held))))
      ]

  renewed_retries :
      (e : LedgerEntry) (clock_ms : ℕ)
      → begins (cached_or_replay (renew_cached_wake e now clock_ms).1)
          + retries_left (some (renew_cached_wake e now clock_ms).0)
        ≤ retries_left (some e)
  renewed_retries e clock_ms = omega (
    arith,
    cached_begins (renew_cached_wake e now clock_ms).1,
    renew_cached_wake-retries e clock_ms,
  )

  -- A second attempt is granted only to a wake in its first.
  second_retries :
      (e : LedgerEntry) (wake : WakeMeta) (retry : WakeRetry)
      → e.wake ≡ some wake
      → refuses_retry wake retry now ≡ false
      → 1 + retries_left (some (second_attempt e wake now)) ≤ retries_left (some e)
  unfolding ℕ_eq? refuses_retry
  second_retries e wake retry found granted = ground arith

  renewed_Move :
      (e : LedgerEntry) (clock_ms : ℕ)
      → get key (prune l now).entries ≡ some e
      → Moved false l
          (
            put_entry (prune l now) key (renew_cached_wake e now clock_ms).0,
            cached_or_replay (renew_cached_wake e now clock_ms).1,
          )
          key
          now
  renewed_Move e clock_ms held = record {
    move =
        update e (renew_cached_wake e now clock_ms).0 held
          (inl (renew_cached_wake-expires e clock_ms)) (renewed_retries e clock_ms) refl refl;
  }

  redeem-Move :
      (retry : WakeRetry) (e : LedgerEntry)
      → get key (prune l now).entries ≡ some e
      → Moved false l (redeem (prune l now) key retry e now) key now
  redeem-Move retry e held = elim (Option-cases e.wake) [
    | inl absent ↦ rw (absent, redeem) (stay false WakeBeginResult.replay refl)
    | inr (wake, found) ↦
        rw (found, redeem)
          (elim (Bool-cases (refuses_retry wake retry now)) [
            | inl refused ↦ rw refused (stay false WakeBeginResult.replay refl)
            | inr granted ↦ rw granted (record {
              move =
                  update e (second_attempt e wake now) held (inr refl)
                    (second_retries e wake retry found granted) refl refl;
            })
          ])
  ]

  pub begin_wake_attempt2-Move :
      (retry : WakeRetry) (clock_ms : ℕ)
      → Moved false l (begin_wake_attempt2 l key retry now clock_ms) key now
  unfolding begin_wake_attempt2
  begin_wake_attempt2-Move retry clock_ms = elim (Option-cases (get key (prune l now).entries)) [
    | inl free ↦ rw (free, begin_wake_attempt2) (stay false WakeBeginResult.replay refl)
    | inr (e, held) ↦
        rw (held, begin_wake_attempt2)
          (choose false (e.digest != retry.digest) _ _ (stay false WakeBeginResult.conflict refl) (
            choose false e.pending _ _ (stay false WakeBeginResult.busy refl) (
              choose false
                (is_some_and e.wake (λ wake. wake.attempt == 2 && wake.ticket == retry.ticket)) _ _
                (renewed_Move e clock_ms held)
                (choose false (get retry.ticket (prune l now).tickets != some key) _ _
                  (stay false WakeBeginResult.replay refl) (redeem-Move retry e held)))))
  ]
