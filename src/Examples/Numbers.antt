-- ===== src/Examples/Numbers.antt =====
-- The allocation of numbers on a board whose counter lags behind.
use task_board_tools.Strings.Decimal.{atoi, format}
use task_board_tools.Strings.{trim_space, trim_right, is_space, trim_left}
use task_board_tools.Base.{
  [], ◌∷◌, some, ◌≡◌, refl, Text, codes, length, pos, none, ℕ, true, ◌<◌, suc, arith, ◌++◌, ◌+◌,
  false,
}
use task_board_tools.Status.{backlog, archive, Status}
use task_board_tools.Board.{Board, file, absent}
use task_board_tools.Allocate.Fresh.{allocate_id_lem, allocate_id_twice, Holds}
use task_board_tools.Allocate.{allocate_id, allocated, id_name}
use task_board_tools.Allocate.Search.{FirstFree}
use task_board_tools.Gates.{task_destination_exists}

abbrev numbered_board : Board
numbered_board =
    record {
      status = backlog;
      id = codes "PR-3";
      slot = record { file_form = file (codes "x"); folder = none };
    }
    ∷ record {
      status = archive;
      id = codes "PR-4";
      slot = record { file_form = absent; folder = some absent };
    }
    ∷ []

counter_text-Holds : Holds (codes "3\n") 3
unfolding trim_space atoi trim_right is_space trim_left
counter_text-Holds = refl

allocate_id_lem_example :
    (m : ℕ) × (allocate_id (codes "PR") true numbered_board (some (codes "3\n"))
      ≡ allocated (pos m) (format (suc m) ++ codes "\n"))
    × FirstFree (codes "PR") numbered_board 3 m
    × (m < 3 + suc (length numbered_board))
    × ((s : Status)
        → task_destination_exists numbered_board s (id_name (codes "PR") (pos m)) ≡ false)
allocate_id_lem_example =
    allocate_id_lem (codes "PR") numbered_board (codes "3\n") 3 counter_text-Holds (omega arith)

allocate_id_twice_example :
    (m k : ℕ) × (counter : Text) × (end : Text) × (allocate_id
        (codes "PR")
        true
        numbered_board
        (some (codes "3\n"))
      ≡ allocated (pos m) counter)
    × (allocate_id (codes "PR") true [] (some counter) ≡ allocated (pos k) end)
    × (m < k)
allocate_id_twice_example =
    allocate_id_twice (codes "PR") numbered_board [] (codes "3\n") 3 counter_text-Holds
      (omega arith)
