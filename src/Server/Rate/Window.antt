-- ===== src/Server/Rate/Window.antt =====
-- How many requests the rate limiter of src/server.rs lets pass in any window, and how much it stores.
use remote_open_power.Base.{
  ℕ, Bool, true, false, List, [], ◌∷◌, All, Option, none, some, ◌+◌, ◌-◌, ◌*◌, ◌≤◌, ◌<◌, ◌==◌, ◌&&◌,
  leb, not, length, contains_key, if◌then◌else◌, get, insert, retain, Instant, Duration, nat_eq,
  ◌^◌, ◌≡◌, arith, Distinct, Distinct-retain, Distinct-insert, get-retain, get-insert,
  length-insert, length-retain-le, Bool-cases, inl, inr, ◌⊎◌, kept,
}
use remote_open_power.Server.Limits.{max_rate_keys}
use remote_open_power.Server.Rate.{
  RateKey, rate_key_eq, RateKey_eq?, RateBucket, Buckets, within, or_insert, restarted, next_count,
  allow, Event, step, run, passed, passes,
}

pub record IsValid (m : Buckets) : Type 0 where
  pub keys : Distinct m
  pub size : length m ≤ max_rate_keys

abbrev pruned : Buckets → Duration → Instant → Buckets
pruned m window now = retain (within now window) m

-- The bucket that a call works on, and what it leaves.
abbrev current : Buckets → RateKey → Duration → Instant → RateBucket
current m k window now = restarted (or_insert (get k (pruned m window now)) now) now window

abbrev charged : RateBucket → ℕ → RateBucket
charged b limit = if leb limit b.count then b else record b { count = next_count b.count }

allow_cases {ℓ} :
    (P : Buckets × Bool → Type ℓ) (m : Buckets) (key : RateKey) (limit : ℕ) (window : Duration)
    (now : Instant)
    → (contains_key key (pruned m window now) ≡ false
        → max_rate_keys ≤ length (pruned m window now)
        → P (pruned m window now, false))
    → (((contains_key key (pruned m window now) ≡ true)
          ⊎ (length (pruned m window now) < max_rate_keys))
        → limit ≤ (current m key window now).count
        → P (insert key (current m key window now) (pruned m window now), false))
    → (((contains_key key (pruned m window now) ≡ true)
          ⊎ (length (pruned m window now) < max_rate_keys))
        → (current m key window now).count < limit
        → P (
          insert key
              (record (current m key window now) {
                count = next_count (current m key window now).count;
              })
              (pruned m window now),
          true,
        ))
    → P (allow m key limit window now)
unfolding allow
allow_cases P m key limit window now full refuse grant =
    elim (Bool-cases (
      leb max_rate_keys (length (pruned m window now))
      && not (contains_key key (pruned m window now)))) [
        | inl a ↦ rw (allow, a) (full (ground arith) (ground arith))
        | inr a ↦ elim (Bool-cases (leb limit (current m key window now).count)) [
          | inl b ↦ rw (allow, a, b) (refuse (ground arith) (ground arith))
          | inr b ↦ rw (allow, a, b) (grant (ground arith) (ground arith))
        ]
      ]

allow-IsValid :
    (m : Buckets) (key : RateKey) (limit : ℕ) (window : Duration) (now : Instant)
    → IsValid m
    → IsValid (allow m key limit window now).0
allow-IsValid m key limit window now v =
    let live = pruned m window now in
    let d = Distinct-retain (within now window) m v.keys in
    let small : length live ≤ max_rate_keys =
      omega (arith, length-retain-le (within now window) m, v.size) in
    allow_cases (λ r. IsValid r.0) m key limit window now
      (λ absent full. record { keys = d; size = small })
      (λ room over. record {
        keys = Distinct-insert key _ live d;
        size = ground (arith, length-insert key (current m key window now) live);
      })
      (λ room under. record {
        keys = Distinct-insert key _ live d;
        size = ground (
          arith,
          length-insert key
              (record (current m key window now) {
                count = next_count (current m key window now).count;
              })
              live,
        );
      })

empty-IsValid : IsValid []
empty-IsValid = record { keys = tt; size = omega arith }

run-IsValid :
    (window : Duration) (m : Buckets) (es : List Event) → IsValid m → IsValid (run window m es)
unfolding run
run-IsValid window m [] v = v
run-IsValid window m (e ∷ es) v =
    run-IsValid window (step window m e) es (allow-IsValid m e.key e.limit window e.now v)

-- How many requests may still pass in a period that begins at `t` and is no longer than a window.
abbrev room : Instant → ℕ → Option RateBucket → ℕ
room t limit none = limit
room t limit (some b) = if leb t b.started then limit - b.count else limit + (limit - b.count)

room-kept :
    (t now : Instant) (window : Duration) (limit : ℕ) (k : RateKey) (o : Option RateBucket)
    → t ≤ now
    → now < t + window
    → room t limit (kept (within now window) k o) ≤ room t limit o
room-kept t now window limit k none after before = omega arith
room-kept t now window limit k (some b) after before = ground arith

room_current :
    (t now : Instant) (window : Duration) (limit : ℕ) (k : RateKey) (o : Option RateBucket)
    → t ≤ now
    → now < t + window
    → room t limit (some (restarted (or_insert (kept (within now window) k o) now) now window))
      ≤ room t limit o
room_current t now window limit k none after before = ground arith
room_current t now window limit k (some b) after before = ground arith

room_charged :
    (t : Instant) (limit : ℕ) (b : RateBucket)
    → limit < 2 ^ 32
    → b.count < limit
    → 1 + room t limit (some (record b { count = next_count b.count })) ≤ room t limit (some b)
room_charged t limit b small under = ground arith

allow-room :
    (t now : Instant) (window : Duration) (limit : ℕ) (k : RateKey) (m : Buckets)
    → Distinct m
    → limit < 2 ^ 32
    → t ≤ now
    → now < t + window
    → (if (allow m k limit window now).1 then 1 else 0)
        + room t limit (get k (allow m k limit window now).0)
      ≤ room t limit (get k m)
allow-room t now window limit k m d small after before =
    let found = get-retain (within now window) k m d in
    let kept_room = room-kept t now window limit k (get k m) after before in
    let fits = room_current t now window limit k (get k m) after before in
    let b = current m k window now in
    let fits' : room t limit (some b) ≤ room t limit (get k m) = rw found fits in
    allow_cases (λ r. (if r.1 then 1 else 0) + room t limit (get k r.0) ≤ room t limit (get k m)) m
      k limit window now (λ absent full. rw found (omega (arith, kept_room)))
      (λ space over. rw get-insert (ground (arith, fits')))
      (λ space under. rw get-insert (ground (arith, fits', room_charged t limit b small under)))

other-room :
    (t now : Instant) (window : Duration) (limit other_limit : ℕ) (k other : RateKey) (m : Buckets)
    → Distinct m
    → t ≤ now
    → now < t + window
    → (other == k) ≡ false
    → room t limit (get k (allow m other other_limit window now).0) ≤ room t limit (get k m)
other-room t now window limit other_limit k other m d after before apart =
    let found = get-retain (within now window) k m d in
    let kept_room = room-kept t now window limit k (get k m) after before in
    allow_cases (λ r. room t limit (get k r.0) ≤ room t limit (get k m)) m other other_limit window
      now (λ absent full. rw found kept_room)
      (λ space over. rw (get-insert, apart, found) kept_room)
      (λ space under. rw (get-insert, apart, found) kept_room)

-- A request in the window from `t`, at the limit `limit` if it is for the key `k`.
abbrev pub Request : RateKey → ℕ → Duration → Instant → Event → Type 0
Request k limit window t e =
    (t ≤ e.now) × ((e.now < t + window) × (((e.key == k) ≡ false) ⊎ (e.limit ≡ limit)))

passed-room :
    (k : RateKey) (limit : ℕ) (window : Duration) (t : Instant) (m : Buckets) (e : Event)
    → Distinct m
    → limit < 2 ^ 32
    → Request k limit window t e
    → passed k window m e + room t limit (get k (step window m e)) ≤ room t limit (get k m)
unfolding passed
passed-room k limit window t m e d small (after, (before, which)) = elim (RateKey_eq? e.key k) [
  | yes p ↦ ground (arith, p, allow-room t e.now window limit k m d small after before)
  | no p ↦
      ground
        (arith, p, other-room t e.now window limit e.limit k e.key m d after before (ground arith))
]

room_bound : (t : Instant) (limit : ℕ) (o : Option RateBucket) → room t limit o ≤ 2 * limit
room_bound t limit none = omega arith
room_bound t limit (some b) = ground arith

passes-room :
    (k : RateKey) (limit : ℕ) (window : Duration) (t : Instant) (m : Buckets) (es : List Event)
    → IsValid m
    → limit < 2 ^ 32
    → All (Request k limit window t) es
    → passes k window m es ≤ room t limit (get k m)
unfolding passes
passes-room k limit window t m [] v small h = omega arith
passes-room k limit window t m (e ∷ es) v small h = omega (
  arith,
  passed-room k limit window t m e v.keys small h.0,
  passes-room k limit window t (step window m e) es (allow-IsValid m e.key e.limit window e.now v)
      small h.1,
)

-- After any history from no buckets, and for any instant `t`: of any requests made from `t` on and
-- less than one window after it, at most twice the limit pass for a key, if its own requests among
-- them all have that limit and it is below 2^32.
pub rate_limit :
    (k : RateKey) (limit : ℕ) (window : Duration) (t : Instant) (before es : List Event)
    → limit < 2 ^ 32
    → All (Request k limit window t) es
    → passes k window (run window [] before) es ≤ 2 * limit
rate_limit k limit window t before es small h =
    let m = run window [] before in
    omega (
      arith,
      room_bound t limit (get k m),
      passes-room k limit window t m es (run-IsValid window [] before empty-IsValid) small h,
    )

-- After any history from no buckets, at any limits, no key has two buckets and at most `max_rate_keys`
-- are stored.
pub rate_run-IsValid : (window : Duration) (es : List Event) → IsValid (run window [] es)
rate_run-IsValid window es = run-IsValid window [] es empty-IsValid
