-- ===== src/Allocate.antt =====
-- `allocateID` of cli/board.go: the number of a new task, from `.next-id`.
pub mod Search
pub mod Fresh
use task_board_tools.Base.{
  ℕ, zero, suc, ◌+◌, Bool, true, false, List, [], ◌∷◌, ◌++◌, Option, none, some, Text, codes,
  if◌then◌else◌, any, ℤ, pos, negsuc, ltb_ℤ, suc_ℤ, length,
}
use task_board_tools.Strings.{trim_space}
use task_board_tools.Strings.Decimal.{atoi, format_ℤ, max_int}
use task_board_tools.Status.{all_status_dirs}
use task_board_tools.Board.{Board}
use task_board_tools.Gates.{task_destination_exists}

-- `n + 1` on 64 bits.
abbrev pub suc_int : ℤ → ℤ
suc_int n = if ltb_ℤ n (pos max_int) then suc_ℤ n else negsuc max_int

-- `PREFIX-n`
unfoldable pub id_name : Text → ℤ → Text
id_name prefix n = prefix ++ b'-' ∷ format_ℤ n

unfoldable pub id_exists : Text → Board → ℤ → Bool
id_exists prefix b n = any (λ s. task_destination_exists b s (id_name prefix n)) all_status_dirs

-- The loop, for so many rounds.
unfoldable pub first_free : ℕ → Text → Board → ℤ → Option ℤ
first_free zero prefix b n = none
first_free (suc fuel) prefix b n =
    let rest = first_free fuel prefix b (suc_int n) in if id_exists prefix b n then rest else some n

-- The number and the new text of `.next-id`, or why there is none; `looping` is a search without end,
-- which `Allocate.Search` excludes.
pub data Allocation : Type 0 where
  allocated : ℤ → Text → Allocation
  no_counter bad_counter counter_not_written looping : Allocation

abbrev pub write_counter : Bool → Option ℤ → Allocation
write_counter write_ok none = looping
write_counter true (some n) = allocated n (format_ℤ (suc_int n) ++ codes "\n")
write_counter false (some n) = counter_not_written

abbrev pub search_from : Text → Bool → Board → ℤ × Bool → Allocation
search_from prefix write_ok b (n, false) = bad_counter
search_from prefix write_ok b (n, true) =
    write_counter write_ok (first_free (suc (length b)) prefix b n)

-- `counter` is what `.next-id` holds, if it can be read.
unfoldable pub allocate_id : Text → Bool → Board → Option Text → Allocation
allocate_id prefix write_ok b none = no_counter
allocate_id prefix write_ok b (some text) = search_from prefix write_ok b (atoi (trim_space text))
