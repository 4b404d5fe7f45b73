-- ===== src/Server/Rate.antt =====
-- `RateLimiter` of src/server.rs: fixed windows for each key.
pub mod Window
use remote_open_power.Base.{
  ℕ, suc, Bytes, Bool, true, false, List, [], ◌∷◌, Option, none, some, ◌+◌, ◌-◌, ◌==◌, ◌&&◌, ltb,
  leb, not, length, contains_key, if◌then◌else◌, Eq, Dict, get, insert, retain, Instant, Duration,
  list_eq?, nat_eq, min, ◌^◌, ap, ◌≡◌,
}
use remote_open_power.Server.Limits.{max_rate_keys}

-- An IP address is its bytes.
pub data RateKey : Type 0 where
  handshake_ip ip client : Bytes → RateKey

unfoldable pub RateKey_eq? : Discrete RateKey
unfolding list_eq?
RateKey_eq? (RateKey.handshake_ip a) (RateKey.handshake_ip b) = elim (list_eq? a b) [
  | yes p ↦ yes (ap RateKey.handshake_ip p)
  | no p ↦ no (λ e. p (cc))
]
RateKey_eq? (RateKey.ip a) (RateKey.ip b) = elim (list_eq? a b) [
  | yes p ↦ yes (ap RateKey.ip p)
  | no p ↦ no (λ e. p (cc))
]
RateKey_eq? (RateKey.client a) (RateKey.client b) = elim (list_eq? a b) [
  | yes p ↦ yes (ap RateKey.client p)
  | no p ↦ no (λ e. p (cc))
]
RateKey_eq? (RateKey.handshake_ip a) (RateKey.ip b) = no (λ e. cc)
RateKey_eq? (RateKey.handshake_ip a) (RateKey.client b) = no (λ e. cc)
RateKey_eq? (RateKey.ip a) (RateKey.handshake_ip b) = no (λ e. cc)
RateKey_eq? (RateKey.ip a) (RateKey.client b) = no (λ e. cc)
RateKey_eq? (RateKey.client a) (RateKey.handshake_ip b) = no (λ e. cc)
RateKey_eq? (RateKey.client a) (RateKey.ip b) = no (λ e. cc)

instance abbrev pub rate_key_eq : Eq RateKey
rate_key_eq = record { eq? = RateKey_eq? }

pub record RateBucket : Type 0 where
  pub started : Instant
  pub count : ℕ

abbrev pub Buckets : Type 0
Buckets = Dict RateKey RateBucket

-- `duration_since` is the truncated difference.
abbrev pub within : Instant → Duration → RateKey → RateBucket → Bool
within now window _ bucket = ltb (now - bucket.started) window

abbrev pub or_insert : Option RateBucket → Instant → RateBucket
or_insert none now = record { started = now; count = 0 }
or_insert (some bucket) now = bucket

-- The reset of a bucket whose window is over.
abbrev pub restarted : RateBucket → Instant → Duration → RateBucket
restarted bucket now window =
    if leb window (now - bucket.started) then record { started = now; count = 0 } else bucket

-- `u32::saturating_add(1)`
abbrev pub next_count : ℕ → ℕ
next_count n = min (n + 1) (2 ^ 32 - 1)

unfoldable pub allow : Buckets → RateKey → ℕ → Duration → Instant → Buckets × Bool
allow buckets key limit window now =
    let live = retain (within now window) buckets in
    if leb max_rate_keys (length live) && not (contains_key key live)
    then (live, false)
    else (let bucket = restarted (or_insert (get key live) now) now window in
        if leb limit bucket.count
        then (insert key bucket live, false)
        else (insert key (record bucket { count = next_count bucket.count }) live, true))

-- A request to pass: for which key, at which limit and when.
pub record Event : Type 0 where
  pub key : RateKey
  pub limit : ℕ
  pub now : Instant

abbrev pub step : Duration → Buckets → Event → Buckets
step window m e = (allow m e.key e.limit window e.now).0

unfoldable pub run : Duration → Buckets → List Event → Buckets
run window m [] = m
run window m (e ∷ es) = run window (step window m e) es

-- How many requests of a key a history lets pass.
unfoldable pub passed : RateKey → Duration → Buckets → Event → ℕ
passed k window m e =
    if e.key == k then (if (allow m e.key e.limit window e.now).1 then 1 else 0) else 0

unfoldable pub passes : RateKey → Duration → Buckets → List Event → ℕ
passes k window m [] = 0
passes k window m (e ∷ es) = passed k window m e + passes k window (step window m e) es
