-- ===== src/Security/Replay.antt =====
-- `ReplayCache` of src/security.rs. `lock` makes `reserve` and `confirm` atomic; each takes the time
-- as an argument.
pub mod Bounds
pub mod Once
use remote_open_power.Base.{
  ℕ, Bytes, Bool, true, false, List, [], ◌∷◌, Option, none, some, ◌&&◌, not, ltb, leb, ◌+◌, ◌==◌,
  length, Duration, if◌then◌else◌, nat_eq, list_eq, list_eq?, Eq, ◌≡◌, ap, Dict, get, insert,
  retain, count, contains_key, Instant, from_secs, ◌*◌,
}

abbrev pub max_replay_entries : ℕ
max_replay_entries = 8 * 1024

abbrev pub max_replay_entries_per_client : ℕ
max_replay_entries_per_client = 64

abbrev pub max_pending_replays_per_client : ℕ
max_pending_replays_per_client = 4

abbrev pub replay_ttl : Duration
replay_ttl = from_secs 180

abbrev pub pending_replay_ttl : Duration
pending_replay_ttl = from_secs 6

-- the pair `(client_key, nonce)`
pub record NonceKey : Type 0 where
  pub client_key : Bytes
  pub nonce : Bytes

unfoldable pub NonceKey_eq? : Discrete NonceKey
unfolding list_eq?
NonceKey_eq? a b =
    let clients = list_eq? a.client_key b.client_key in
    let nonces = list_eq? a.nonce b.nonce in
    elim clients [
      | yes p ↦ elim nonces [
        | yes q ↦ yes (λ i. record { client_key = p i; nonce = q i })
        | no q ↦ no (λ e. q (ap (λ (k : NonceKey). k.nonce) e))
      ]
      | no p ↦ no (λ e. p (ap (λ (k : NonceKey). k.client_key) e))
    ]

instance abbrev pub nonce_key_eq : Eq NonceKey
nonce_key_eq = record { eq? = NonceKey_eq? }

pub record ReplayEntry : Type 0 where
  pub expires : Instant
  pub confirmed : Bool

abbrev pub ReplayMap : Type 0
ReplayMap = Dict NonceKey ReplayEntry

abbrev pub live : Instant → NonceKey → ReplayEntry → Bool
live now _ entry = ltb now entry.expires

abbrev pub of_client : Bytes → NonceKey → ReplayEntry → Bool
of_client client_key k _ = k.client_key == client_key

abbrev pub pending_of : Bytes → NonceKey → ReplayEntry → Bool
pending_of client_key k entry = k.client_key == client_key && not entry.confirmed

unfoldable pub reserve : ReplayMap → NonceKey → Instant → ReplayMap × Bool
reserve cache key now =
    let entries = retain (live now) cache in
    if contains_key key entries
    then (entries, false)
    else if leb max_replay_entries_per_client (count (of_client key.client_key) entries)
    then (entries, false)
    else if leb max_pending_replays_per_client (count (pending_of key.client_key) entries)
    then (entries, false)
    else if leb max_replay_entries (length entries)
    then (entries, false)
    else (
      insert key (record { expires = now + pending_replay_ttl; confirmed = false }) entries,
      true,
    )

unfoldable pub confirm : ReplayMap → NonceKey → Instant → ReplayMap × Bool
confirm cache key now =
    let entries = retain (live now) cache in
    elim (get key entries) [
      | none ↦ (entries, false)
      | some entry ↦
          (insert key (record { expires = now + replay_ttl; confirmed = true }) entries, true)
    ]

pub data Call : Type 0 where
  reserves confirms : NonceKey → Call

pub record Event : Type 0 where
  pub now : Instant
  pub call : Call

unfoldable pub perform : ReplayMap → Instant → Call → ReplayMap × Bool
perform cache now (Call.reserves key) = reserve cache key now
perform cache now (Call.confirms key) = confirm cache key now

abbrev pub step : ReplayMap → Event → ReplayMap
step cache e = (perform cache e.now e.call).0

unfoldable pub run : ReplayMap → List Event → ReplayMap
run cache [] = cache
run cache (e ∷ es) = run (step cache e) es

-- How many handshakes with the nonce `k` a history lets through.
unfoldable pub accepted : NonceKey → ReplayMap → Instant → Call → ℕ
accepted k cache now (Call.reserves key) =
    if key == k then (if (reserve cache key now).1 then 1 else 0) else 0
accepted k cache now (Call.confirms key) = 0

unfoldable pub acceptances : NonceKey → ReplayMap → List Event → ℕ
acceptances k cache [] = 0
acceptances k cache (e ∷ es) = accepted k cache e.now e.call + acceptances k (step cache e) es
