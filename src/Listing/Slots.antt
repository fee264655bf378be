-- ===== src/Listing/Slots.antt =====
-- What the order of `tb ls` does to active and to done tasks.
use task_board_tools.Base.{
  ℕ, Bool, not, List, Option, ◌≡◌, filter, map, ltb, ltb_ℤ, ℤ, ◌==◌, if◌then◌else◌,
}
use task_board_tools.Board.{sort_by}
use task_board_tools.Board.Sorting.{IsSorted, tied}
use task_board_tools.Listing.Order.{
  ListItem, is_done, completion_less, done_less, list_priority_less,
}

abbrev by_number : ℕ → ℤ → ℕ → ℤ → Bool
by_number p i q j = if not (p == q) then ltb p q else ltb_ℤ i j

abbrev by_date : Option ℕ → ℕ → ℤ → Option ℕ → ℕ → ℤ → Bool
by_date d p i e q j = completion_less d e (by_number p i q j)

-- The places that are filled with as many done tasks as there are.
record IsRefilled (xs ys result : List ListItem) : Type 0 where
  finished : filter is_done result ≡ ys
  active : filter (λ x. not (is_done x)) result ≡ filter (λ x. not (is_done x)) xs
  places : map is_done result ≡ map is_done xs

-- How `tb ls` orders: `items` by priority and number, and the done tasks in their places once more.
pub record IsListed (items result : List ListItem) : Type 0 where
  pub active :
      filter (λ x. not (is_done x)) result
      ≡ filter (λ x. not (is_done x)) (sort_by list_priority_less items)
  pub places : map is_done result ≡ map is_done (sort_by list_priority_less items)
  pub sorted : IsSorted done_less (filter is_done result)
  pub same :
      (z : ListItem)
      → filter (tied done_less z) (filter is_done result)
        ≡ filter (tied done_less z) (filter is_done (sort_by list_priority_less items))
