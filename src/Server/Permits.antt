-- ===== src/Server/Permits.antt =====
-- `ConnectionLimiter` of src/server.rs: one atomic counter, which any number of threads change by
-- compare and exchange. Each access to the counter is one step.
pub mod Holders
use remote_open_power.Base.{
  ℕ, Bool, true, false, List, [], ◌∷◌, ◌++◌, ◌+◌, ◌-◌, ◌==◌, ◌&&◌, leb, not, if◌then◌else◌, nat_eq,
  All, ◌≡◌,
}

-- Where a thread is: outside, in the loop of `acquire` with the value it read last, or with a permit.
pub data Thread : Type 0 where
  idle : Thread
  trying : (current : ℕ) → Thread
  holding : Thread

-- The counter and the place of the thread after the access.
abbrev pub load : ℕ → ℕ × Thread
load counter = (counter, Thread.trying counter)

-- One round of the loop; a weak exchange may fail though the values are equal.
unfoldable pub try_exchange : ℕ → ℕ → ℕ → Bool → ℕ × Thread
try_exchange limit counter current fails =
    if leb limit current
    then (counter, Thread.idle)
    else if counter == current && not fails
    then (current + 1, Thread.holding)
    else (counter, Thread.trying counter)

-- `checked_sub`: at zero the counter stays, and the error is logged.
unfoldable pub release : ℕ → ℕ
release counter = if counter == 0 then counter else counter - 1

-- What a thread does next; `fails` is the scheduler's choice.
unfoldable pub access : ℕ → Bool → ℕ → Thread → ℕ × Thread
access limit fails counter Thread.idle = load counter
access limit fails counter (Thread.trying current) = try_exchange limit counter current fails
access limit fails counter Thread.holding = (release counter, Thread.idle)

pub record World : Type 0 where
  pub counter : ℕ
  pub threads : List Thread

abbrev pub put : List Thread → ℕ × Thread → List Thread → World
put before (counter, thread) after = record {
  counter = counter;
  threads = before ++ thread ∷ after;
}

-- One access by any of the threads.
pub data Step (limit : ℕ) : World → World → Type 0 where
  moves :
      (counter : ℕ) (before : List Thread) (thread : Thread) (after : List Thread) (fails : Bool)
      → Step limit
          (put before (counter, thread) after)
          (put before (access limit fails counter thread) after)

abbrev pub AllIdle : List Thread → Type 0
AllIdle = All (λ thread. thread ≡ Thread.idle)

-- From the new limiter, with any number of threads outside.
pub data Reachable (limit : ℕ) : World → Type 0 where
  new :
      (threads : List Thread)
      → AllIdle threads
      → Reachable limit (record { counter = 0; threads = threads })
  next : (w w' : World) → Reachable limit w → Step limit w w' → Reachable limit w'
