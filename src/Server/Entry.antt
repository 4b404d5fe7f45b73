-- ===== src/Server/Entry.antt =====
-- The entries of the ledger of src/server.rs, and what a call does with the one it finds.
use remote_open_power.Base.{
  ℕ, Bytes, Bool, true, false, List, Option, none, some, ◌||◌, ◌&&◌, not, ltb, leb, ◌+◌, ◌==◌, ◌!=◌,
  if◌then◌else◌, nat_eq, list_eq, option_eq, list_eq?, Eq, ap, Instant, saturating_add,
}
use remote_open_power.Protocol.Message.{ServerEnvelope, ServerEvent}
use remote_open_power.Server.Limits.{pending_ledger_ttl, retry_ttl, monitor_timeout_ms}

pub record OperationKey : Type 0 where
  pub client_key : Bytes
  pub operation_id : Bytes

unfoldable pub OperationKey_eq? : Discrete OperationKey
unfolding list_eq?
OperationKey_eq? a b =
    let clients = list_eq? a.client_key b.client_key in
    let operations = list_eq? a.operation_id b.operation_id in
    elim clients [
      | yes p ↦ elim operations [
        | yes q ↦ yes (λ i. record { client_key = p i; operation_id = q i })
        | no q ↦ no (λ e. q (ap (λ (k : OperationKey). k.operation_id) e))
      ]
      | no p ↦ no (λ e. p (ap (λ (k : OperationKey). k.client_key) e))
    ]

instance abbrev pub operation_key_eq : Eq OperationKey
operation_key_eq = record { eq? = OperationKey_eq? }

pub record WakeMeta : Type 0 where
  pub catalog_version : ℕ
  pub host_ids : List Bytes
  pub boot_nonce : Bytes
  pub ticket : Bytes
  pub ticket_expires : Instant
  pub ticket_used : Bool
  pub attempt : ℕ

-- `now` is an argument of the methods.
pub record WakeRetry : Type 0 where
  pub digest : Bytes
  pub catalog_version : ℕ
  pub host_ids : List Bytes
  pub boot_nonce : Bytes
  pub ticket : Bytes

pub record LedgerEntry : Type 0 where
  pub digest : Bytes
  pub wake : Option WakeMeta
  pub response : Option ServerEnvelope
  pub pending : Bool
  pub expires : Instant

pub data BeginResult : Type 0 where
  new busy conflict : BeginResult
  cached : ServerEnvelope → BeginResult

pub data WakeBeginResult : Type 0 where
  new : Bytes → WakeBeginResult
  cached : ServerEnvelope → WakeBeginResult
  busy conflict replay : WakeBeginResult

-- `begin_request` after `prune`, on the entry found.
abbrev pub answer_request : LedgerEntry → Bytes → BeginResult
answer_request entry digest =
    if entry.digest != digest
    then BeginResult.conflict
    else if entry.pending
    then BeginResult.busy
    else elim entry.response [
      | some response ↦ BeginResult.cached response
      | none ↦ BeginResult.busy
    ]

-- The receipt with its deadline moved; any other response stays.
abbrev pub with_deadline : ServerEnvelope → ℕ → ServerEnvelope
with_deadline response deadline = elim response.event [
  | ServerEvent.command_executed operation_id attempt ticket _ results ↦ record response {
    event = ServerEvent.command_executed operation_id attempt ticket deadline results;
  }
  | _ ↦ response
]

abbrev pub is_receipt : ServerEnvelope → Bool
is_receipt response = elim response.event [
  | ServerEvent.command_executed _ _ _ _ _ ↦ true
  | _ ↦ false
]

-- The entry after the call, and the response; `clock_ms` is `unix_ms()`.
unfoldable pub renew_cached_wake : LedgerEntry → Instant → ℕ → LedgerEntry × Option ServerEnvelope
renew_cached_wake entry now clock_ms =
    if ltb entry.expires (now + retry_ttl) then (entry, none) else elim entry.wake [
      | none ↦ (entry, none)
      | some wake ↦ elim entry.response [
        | none ↦ (entry, none)
        | some response ↦
            if is_receipt response
            then (
              record entry { wake = some (record wake { ticket_expires = now + retry_ttl }) },
              some (with_deadline response (saturating_add clock_ms monitor_timeout_ms)),
            )
            else (entry, some response)
      ]
    ]

abbrev pub cached_or_replay : Option ServerEnvelope → WakeBeginResult
cached_or_replay none = WakeBeginResult.replay
cached_or_replay (some response) = WakeBeginResult.cached response

abbrev pub first_wake : ℕ → List Bytes → Bytes → Bytes → Instant → WakeMeta
first_wake catalog_version host_ids boot_nonce ticket now = record {
  catalog_version = catalog_version;
  host_ids = host_ids;
  boot_nonce = boot_nonce;
  ticket = ticket;
  ticket_expires = now + retry_ttl;
  ticket_used = false;
  attempt = 1;
}

-- The tests on a wake that refuse a second attempt.
unfoldable pub refuses_retry : WakeMeta → WakeRetry → Instant → Bool
refuses_retry wake retry now =
    wake.catalog_version != retry.catalog_version
    || wake.host_ids != retry.host_ids
    || wake.boot_nonce != retry.boot_nonce
    || wake.attempt != 1
    || wake.ticket != retry.ticket
    || wake.ticket_used
    || leb wake.ticket_expires now

abbrev pub second_attempt : LedgerEntry → WakeMeta → Instant → LedgerEntry
second_attempt entry wake now = record entry {
  wake = some (record wake { ticket_used = true; attempt = 2 });
  pending = true;
  response = none;
  expires = now + pending_ledger_ttl;
}

abbrev pub renewed_lease : Option WakeMeta → Instant → Option WakeMeta
renewed_lease none now = none
renewed_lease (some wake) now =
    if wake.attempt == 1 && not wake.ticket_used
    then some (record wake { ticket_expires = now + retry_ttl })
    else some wake
