-- ===== src/Examples/Filters.antt =====
-- The filters of a list, and the grooming checks, of one task.
use task_board_tools.Strings.{contains}
use task_board_tools.Base.{[], ◌∷◌, ◌≡◌, ◌↔◌, Text, codes, true, ◌≢◌, false}
use task_board_tools.Task.{Task, Field, tags, priority, task_module}
use task_board_tools.Listing.{ListFilters, list_match}
use task_board_tools.Triage.{check_needs_grooming}
use task_board_tools.Listing.Laws.{Matches, list_match_iff}
use task_board_tools.Triage.Laws.{IsFilled, check_needs_grooming_iff}

abbrev fields : Field → Text
fields tags = codes "ui"
fields priority = codes "P1"
fields _ = []

abbrev small_task : Task
small_task = record { id = codes "PR-1"; title = codes "Fix"; meta = fields }

abbrev by_tag : ListFilters
by_tag = record {
  with_tags = codes "cli" ∷ codes "UI" ∷ [];
  with_sizes = [];
  with_modules = [];
  with_types = [];
  with_priorities = [];
  with_parents = [];
  with_agents = codes "claude" ∷ [];
  term = codes "x";
}

list_match_iff_example : (list_match by_tag small_task ≡ true) ↔ Matches by_tag small_task
list_match_iff_example = list_match_iff by_tag small_task

check_needs_grooming_iff_example : (check_needs_grooming (codes "## Goal\nx\n") small_task ≡ []) ↔ (
    (codes "P1" ≢ [])
    × (small_task.meta task_module ≢ [])
    × IsFilled (codes "## Goal\nx\n") (codes "## Goal")
    × IsFilled (codes "## Goal\nx\n") (codes "## Acceptance Criteria")
    × (contains (codes "## Goal\nx\n") (codes "Created by `tb scan`") ≡ false))
check_needs_grooming_iff_example = check_needs_grooming_iff (codes "## Goal\nx\n") small_task
