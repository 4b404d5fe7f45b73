-- ===== src/Log.antt =====
-- `LogQueue` of src/logging.rs: the lines that wait for the terminal. Files and locks are left out.
pub mod Latest
use remote_open_power.Base.{
  ℕ, Bytes, Bool, List, [], ◌∷◌, ◌++◌, map, ◌==◌, ◌!=◌, drop, length, if◌then◌else◌, nat_eq,
  saturating_add, u64_max,
}

abbrev pub max_terminal_logs : ℕ
max_terminal_logs = 2048

pub record LogQueue : Type 0 where
  pub lines : List Bytes
  pub omitted : ℕ

abbrev pub empty_queue : LogQueue
empty_queue = record { lines = []; omitted = 0 }

unfoldable pub push : LogQueue → Bytes → LogQueue
push q line =
    if length q.lines == max_terminal_logs
    then record { lines = drop 1 q.lines ++ (line ∷ []); omitted = saturating_add q.omitted 1 }
    else record { lines = q.lines ++ (line ∷ []); omitted = q.omitted }

-- A line of the program, or the warning with the number of lines that are left out.
pub data Drained : Type 0 where
  text : Bytes → Drained
  warning : ℕ → Drained

-- The lines, and the queue after the call.
unfoldable pub drain : LogQueue → List Drained × LogQueue
drain q = (
  if q.omitted != 0
      then Drained.warning q.omitted ∷ map Drained.text q.lines
      else map Drained.text q.lines,
  empty_queue,
)
