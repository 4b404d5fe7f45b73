-- ===== src/Log/Latest.antt =====
-- `LogQueue` of src/logging.rs keeps the latest lines and counts the others.
use mathlib.Core.List.{append_assoc, append-nil}
use remote_open_power.Base.{
  ℕ, zero, suc, Bytes, List, [], ◌∷◌, ◌++◌, map, ◌==◌, drop, length, length-append, if◌then◌else◌,
  ◌≡◌, ◌≢◌, ◌≤◌, ◌+◌, ◌-◌, refl, sym, ◌∙◌, ap, arith, min, nat_eq, u64_max, Bool-cases, inl, inr,
}
use remote_open_power.Log.{LogQueue, empty_queue, push, drain, Drained, max_terminal_logs}

abbrev pub push_all : LogQueue → List Bytes → LogQueue
push_all q [] = q
push_all q (line ∷ lines) = push_all (push q line) lines

-- The queue holds the end of what was pushed, and the number of the lines before.
abbrev pub IsLatest : List Bytes → LogQueue → Type 0
IsLatest pushed q =
    (q.lines ≡ drop (length pushed - max_terminal_logs) pushed)
    × (q.omitted ≡ min (length pushed - max_terminal_logs) u64_max)

drop-append : (k : ℕ) (xs ys : List Bytes) → k ≤ length xs → drop k (xs ++ ys) ≡ drop k xs ++ ys
drop-append zero xs ys h = refl
drop-append (suc k) [] ys h = absurd (omega (arith, h))
drop-append (suc k) (x ∷ xs) ys h = drop-append k xs ys (omega (arith, h))

drop-drop : (k : ℕ) (xs : List Bytes) → drop 1 (drop k xs) ≡ drop (suc k) xs
drop-drop zero xs = refl
drop-drop (suc k) [] = refl
drop-drop (suc k) (x ∷ xs) = drop-drop k xs

length-drop : (k : ℕ) (xs : List Bytes) → length (drop k xs) ≡ length xs - k
length-drop zero xs = omega arith
length-drop (suc k) [] = omega arith
length-drop (suc k) (x ∷ xs) = omega (arith, length-drop k xs)

push-IsLatest :
    (pushed : List Bytes) (q : LogQueue) (line : Bytes)
    → IsLatest pushed q
    → IsLatest (pushed ++ (line ∷ [])) (push q line)
unfolding push
push-IsLatest pushed q line (kept, counted) =
    let k = length pushed - max_terminal_logs in
    let size : length q.lines ≡ length pushed - k = ap length kept ∙ length-drop k pushed in
    let grown : length (pushed ++ (line ∷ [])) ≡ length pushed + 1 =
      length-append pushed (line ∷ []) in
    elim (Bool-cases (length q.lines == max_terminal_logs)) [
      | inl full ↦
          let filled : length q.lines ≡ max_terminal_logs = ground (arith, full) in
          let next : length (pushed ++ (line ∷ [])) - max_terminal_logs ≡ suc k =
            omega (arith, size, grown, filled) in
          let lines_after : drop 1 q.lines ++ (line ∷ []) ≡ drop (suc k) (pushed ++ (line ∷ [])) =
            ap (λ x. drop 1 x ++ (line ∷ [])) kept
            ∙ ap (λ x. x ++ (line ∷ [])) (drop-drop k pushed)
            ∙ sym (drop-append (suc k) pushed (line ∷ []) (omega (arith, size, filled))) in
          rw (full, next) (lines_after, omega (arith, counted))
      | inr space ↦
          let few : length q.lines ≢ max_terminal_logs = λ e. ground (arith, space, e) in
          let next : length (pushed ++ (line ∷ [])) - max_terminal_logs ≡ k =
            omega (arith, size, grown, few) in
          let lines_after : q.lines ++ (line ∷ []) ≡ drop k (pushed ++ (line ∷ [])) =
            ap (λ x. x ++ (line ∷ [])) kept
            ∙ sym (drop-append k pushed (line ∷ []) (omega arith)) in
          rw (space, next) (lines_after, counted)
    ]

pushes-IsLatest :
    (pushed : List Bytes) (q : LogQueue) (lines : List Bytes)
    → IsLatest pushed q
    → IsLatest (pushed ++ lines) (push_all q lines)
pushes-IsLatest pushed q [] l = rw (append-nil pushed) l
pushes-IsLatest pushed q (line ∷ lines) l =
    rw (sym (append_assoc pushed (line ∷ []) lines))
      (pushes-IsLatest (pushed ++ (line ∷ [])) (push q line) lines (push-IsLatest pushed q line l))

abbrev latest : List Bytes → List Drained
latest lines =
    let texts = map Drained.text (drop (length lines - max_terminal_logs) lines) in
    if length lines - max_terminal_logs == 0
    then texts
    else Drained.warning (min (length lines - max_terminal_logs) u64_max) ∷ texts

-- What is drained after any lines were pushed are the latest 2048 of them in order, after a warning
-- with the number of those before, if there are any.
pub drain-push_all : (lines : List Bytes) → (drain (push_all empty_queue lines)).0 ≡ latest lines
unfolding drain
drain-push_all lines =
    let (kept, counted) = pushes-IsLatest [] empty_queue lines (refl, refl) in
    ground (arith, kept, counted)
