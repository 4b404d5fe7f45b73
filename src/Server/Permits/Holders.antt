-- ===== src/Server/Permits/Holders.antt =====
-- The counter of `ConnectionLimiter` of src/server.rs is the number of permits held.
use remote_open_power.Base.{ℕ, Bool, List, [], ◌∷◌, ◌++◌, ◌+◌, ◌≤◌, nat_eq, ◌≡◌, refl, arith}
use remote_open_power.Server.Permits.{
  Thread, World, try_exchange, release, access, put, Step, moves, AllIdle, Reachable, new, next,
}

abbrev pub permit : Thread → ℕ
permit Thread.idle = 0
permit (Thread.trying current) = 0
permit Thread.holding = 1

abbrev pub holders : List Thread → ℕ
holders [] = 0
holders (t ∷ ts) = permit t + holders ts

pub holders-append : (ts us : List Thread) → holders (ts ++ us) ≡ holders ts + holders us
holders-append [] us = omega arith
holders-append (t ∷ ts) us = omega (arith, holders-append ts us)

pub record IsCounted (limit : ℕ) (w : World) : Type 0 where
  pub counts : w.counter ≡ holders w.threads
  pub bound : w.counter ≤ limit

-- An access changes the counter as it changes the permits.
access-permit :
    (limit counter : ℕ) (fails : Bool) (thread : Thread)
    → permit thread ≤ counter
    → counter ≤ limit
    → ((access limit fails counter thread).0 + permit thread
        ≡ counter + permit (access limit fails counter thread).1)
      × ((access limit fails counter thread).0 ≤ limit)
unfolding access try_exchange release
access-permit limit counter fails Thread.idle some_permit small = (refl, small)
access-permit limit counter fails (Thread.trying current) some_permit small = ground arith
access-permit limit counter fails Thread.holding some_permit small = ground arith

holders-AllIdle : (ts : List Thread) → AllIdle ts → holders ts ≡ 0
holders-AllIdle [] h = refl
holders-AllIdle (t ∷ ts) h = ground (arith, h.0, holders-AllIdle ts h.1)

Step-IsCounted :
    (limit : ℕ) (w w' : World) → Step limit w w' → IsCounted limit w → IsCounted limit w'
Step-IsCounted limit w1 w2 (moves counter before thread after fails) v =
    let split = holders-append before (thread ∷ after) in
    let joined = holders-append before ((access limit fails counter thread).1 ∷ after) in
    let (exact, small) =
      access-permit limit counter fails thread (omega (arith, v.counts, split)) v.bound in
    record { counts = omega (arith, v.counts, split, joined, exact); bound = small }

-- However the threads interleave, and whichever exchanges fail: the counter is the number of permits
-- held, and no more than the limit.
pub interleaved-IsCounted : (limit : ℕ) (w : World) → Reachable limit w → IsCounted limit w
interleaved-IsCounted limit w1 (new threads idle) = record {
  counts = omega (arith, holders-AllIdle threads idle);
  bound = omega arith;
}
interleaved-IsCounted limit w1 (next w w' r s) =
    Step-IsCounted limit w w' s (interleaved-IsCounted limit w r)

-- However the threads interleave, the counter is above zero whenever a thread with a permit
-- releases it, so the error of `release` is never reached.
pub release_above_zero :
    (limit counter : ℕ) (before after : List Thread)
    → Reachable limit (put before (counter, Thread.holding) after)
    → release counter + 1 ≡ counter
unfolding release
release_above_zero limit counter before after r =
    let v = interleaved-IsCounted limit (put before (counter, Thread.holding) after) r in
    ground (arith, v.counts, holders-append before (Thread.holding ∷ after))
