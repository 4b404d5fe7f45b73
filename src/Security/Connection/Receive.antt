-- ===== src/Security/Connection/Receive.antt =====
-- What the loops of src/security.rs write and read.
use mathlib.Core.List.{append_assoc}
use remote_open_power.Base.{
  ℕ, Bytes, true, false, List, [], ◌∷◌, ◌++◌, some, ok, ◌+◌, ◌≤◌, ◌<◌, ◌==◌, ◌≡◌, ◌≢◌, ◌∙◌, sym, ap,
  refl, arith, leb, min, length, take, drop, take-drop, length-append, length-take, be_bytes4,
  header_length, header_length-append, header_length_total, Instant, Option-cases, Bool-cases, inl,
  inr, nat_eq,
}
use remote_open_power.Security.Connection.{
  max_record_bytes, chunk_bytes, Written, wrote, would_block, write_failed, write_all, write_record,
  Arrival, arrived, ended, read_failed, incomplete, bad, inspect, receive, room,
}

write_all-exact :
    (deadline : Instant) (calls : List (Instant × Written)) (xs : Bytes)
    → (write_all deadline calls xs).1 ≡ true
    → (write_all deadline calls xs).0 ≡ xs
unfolding write_all
write_all-exact deadline calls [] h = refl
write_all-exact deadline [] (x ∷ xs) h = cc
write_all-exact deadline ((now, would_block) ∷ calls) (x ∷ xs) h =
    ground (arith, write_all-exact deadline calls (x ∷ xs))
write_all-exact deadline ((now, write_failed) ∷ calls) (x ∷ xs) h = cc
write_all-exact deadline ((now, wrote n) ∷ calls) (x ∷ xs) h =
    ground (arith, write_all-exact deadline calls (drop n (x ∷ xs)), take-drop n (x ∷ xs))

-- A record with its prefix.
abbrev pub frame : Bytes → Bytes
frame encrypted = be_bytes4 (length encrypted) ++ encrypted

pub write_record-frame :
    (payload : Bytes) (maximum : ℕ) (deadline : Instant) (calls : List (Instant × Written))
    → (write_record payload maximum deadline calls).1 ≡ ok tt
    → (write_record payload maximum deadline calls).0 ≡ frame payload
unfolding write_record
write_record-frame payload maximum deadline calls h = ground (
  arith,
  h,
  write_all-exact deadline calls (be_bytes4 (length payload)),
  write_all-exact deadline (write_all deadline calls (be_bytes4 (length payload))).2 payload,
)

-- Every call of `read` finds the stream open.
abbrev pub Open : List Arrival → Type 0
Open [] = Unit
Open (Arrival.arrived n ∷ arrivals) = Open arrivals
Open (other ∷ arrivals) = ⊥

joined : (k : ℕ) (b i : Bytes) → (b ++ take k i) ++ drop k i ≡ b ++ i
joined k b i = append_assoc b (take k i) (drop k i) ∙ ap (λ x. b ++ x) (take-drop k i)

abbrev taken : ℕ → Bytes → Bytes → ℕ
taken n b i = min n (min (min (room b) chunk_bytes) (length i))

-- Reading moves bytes from the stream to the buffer, and drops none.
pub receive-append :
    (arrivals : List Arrival) (b i : Bytes)
    → (receive arrivals b i).0 ++ (receive arrivals b i).1 ≡ b ++ i
unfolding receive
receive-append [] b i = ground arith
receive-append (arrived n ∷ arrivals) b i = ground (
  arith,
  receive-append arrivals (b ++ take (taken n b i) i) (drop (taken n b i) i),
  joined (taken n b i) b i,
)
receive-append (ended ∷ arrivals) b i = ground arith
receive-append (read_failed ∷ arrivals) b i = ground arith

-- A stream whose first length, if it has one, is one that the code accepts.
abbrev pub Good : Bytes → Type 0
Good s = (n : ℕ) → header_length s ≡ some n → (0 < n) × (n ≤ max_record_bytes)

inspect-Good :
    (b i : Bytes)
    → Good (b ++ i)
    → (inspect b ≢ bad) × (inspect b ≡ incomplete → (room b == 0) ≡ false)
unfolding inspect
inspect-Good b i g = elim (Option-cases (header_length b)) [
  | inl a ↦ (
    ground (arith, a),
    λ e. elim (Bool-cases (leb 4 (length b))) [
      | inl long ↦ let found = header_length_total b (ground (arith, long)) in absurd (cc)
      | inr short ↦ ground (arith, short)
    ],
  )
  | inr (n, a) ↦
      let fits = g n (header_length-append b i n a) in
      (ground (arith, a, fits), λ e. ground (arith, a, fits, e))
]

-- On a good stream that stays open, reading does not fail.
pub receive-ok :
    (arrivals : List Arrival) (b i : Bytes)
    → Good (b ++ i)
    → Open arrivals
    → (receive arrivals b i).2 ≡ ok tt
unfolding receive
receive-ok [] b i g o = ground (arith, inspect-Good b i g)
receive-ok (arrived n ∷ arrivals) b i g o =
    let again : Good ((b ++ take (taken n b i) i) ++ drop (taken n b i) i) =
      λ m h. g m (rw (sym (joined (taken n b i) b i)) h) in
    ground (
      arith,
      inspect-Good b i g,
      receive-ok arrivals (b ++ take (taken n b i) i) (drop (taken n b i) i) again o,
    )
receive-ok (ended ∷ arrivals) b i g o = absurd o
receive-ok (read_failed ∷ arrivals) b i g o = absurd o

-- Every call of `read` finds bytes, if there are any.
abbrev pub Eager : List Arrival → Type 0
Eager [] = Unit
Eager (Arrival.arrived n ∷ arrivals) = (0 < n) × Eager arrivals
Eager (other ∷ arrivals) = ⊥

pub Eager-Open : (arrivals : List Arrival) → Eager arrivals → Open arrivals
Eager-Open [] e = tt
Eager-Open (arrived n ∷ arrivals) e = Eager-Open arrivals e.1
Eager-Open (ended ∷ arrivals) e = absurd e
Eager-Open (read_failed ∷ arrivals) e = absurd e

receive_grows : (arrivals : List Arrival) (b i : Bytes) → length b ≤ length (receive arrivals b i).0
unfolding receive
receive_grows [] b i = ground arith
receive_grows (arrived n ∷ arrivals) b i = ground (
  arith,
  receive_grows arrivals (b ++ take (taken n b i) i) (drop (taken n b i) i),
  length-append b (take (taken n b i) i),
)
receive_grows (ended ∷ arrivals) b i = ground arith
receive_grows (read_failed ∷ arrivals) b i = ground arith

inspect_short :
    (b i : Bytes) (n : ℕ)
    → Good (b ++ i)
    → header_length (b ++ i) ≡ some n
    → length b < 4 + n
    → inspect b ≡ incomplete
unfolding inspect
inspect_short b i n g h short = elim (Option-cases (header_length b)) [
  | inl a ↦ ground (arith, a)
  | inr (k, a) ↦
      let fits = g n h in
      let same : k ≡ n = cc (header_length-append b i k a, h) in
      ground (arith, a, fits, same, short)
]

moved_sizes :
    (t : ℕ) (b i : Bytes)
    → t ≤ length i
    → (length (b ++ take t i) ≡ length b + t) × (length (drop t i) + t ≡ length i)
moved_sizes t b i h = (
  omega (arith, length-append b (take t i), length-take t i h),
  omega (arith, length-take t i h, length-append (take t i) (drop t i), ap length (take-drop t i)),
)

-- One byte for each call is enough for a whole record.
pub receive_complete :
    (arrivals : List Arrival) (b i : Bytes) (n : ℕ)
    → Good (b ++ i)
    → Eager arrivals
    → header_length (b ++ i) ≡ some n
    → 4 + n ≤ length b + length i
    → 4 + n ≤ length b + length arrivals
    → 4 + n ≤ length (receive arrivals b i).0
unfolding receive
receive_complete [] b i n g e h whole budget = ground arith
receive_complete (arrived k ∷ arrivals) b i n g e h whole budget =
    elim (Bool-cases (leb (4 + n) (length b))) [
      | inl long ↦
          let big : 4 + n ≤ length b = ground (arith, long) in
          omega (arith, big, receive_grows (arrived k ∷ arrivals) b i)
      | inr short ↦
          let small : length b < 4 + n = ground (arith, short) in
          let fits = g n h in
          let t = taken k b i in
          let moved : 0 < t = ground (arith, e.0, small, fits, whole) in
          let size : (length (b ++ take t i) ≡ length b + t) × (length (drop t i) + t ≡ length i) =
            moved_sizes t b i (omega arith) in
          let again : Good ((b ++ take t i) ++ drop t i) = λ m j. g m (rw (sym (joined t b i)) j) in
          let rest =
            receive_complete arrivals (b ++ take t i) (drop t i) n again e.1 (rw (joined t b i) h)
              (omega (arith, size, whole)) (omega (arith, size, moved, budget)) in
          ground (arith, inspect_short b i n g h small, moved, rest, fits, small)
    ]
receive_complete (ended ∷ arrivals) b i n g e h whole budget = absurd e
receive_complete (read_failed ∷ arrivals) b i n g e h whole budget = absurd e
