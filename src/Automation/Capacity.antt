-- ===== src/Automation/Capacity.antt =====
-- gui/app/automation_capacity.go: how many more runs may start.
pub mod Laws
use task_board_tools.Base.{
  ℕ, suc, ◌-◌, List, [], ◌∷◌, Option, none, some, Text, text_eq, ltb, if◌then◌else◌, ◌||◌, ℤ, pos,
  negsuc, length, zero,
}
use task_board_tools.Strings.{trim_space}
use task_board_tools.Daemon.{is_in}

-- `max > 0`, or the fallback.
abbrev pub positive_or : ℕ → ℤ → ℕ
positive_or d (pos (suc n)) = suc n
positive_or d (pos zero) = d
positive_or d (negsuc n) = d

-- The IDs that are not blank join the set.
unfoldable pub add_active : List Text → List Text → List Text
add_active set [] = set
add_active set (id ∷ ids) =
    if text_eq (trim_space id) [] || is_in set id
    then add_active set ids
    else add_active (id ∷ set) ids

abbrev pub budget_workers : Option (ℤ × List Text) → Option ℤ → ℕ
budget_workers (some (n, _)) settings = positive_or 1 n
budget_workers none (some n) = positive_or 1 n
budget_workers none none = 1

abbrev pub budget_tasks : Option (ℤ × List Text) → List Text
budget_tasks none = []
budget_tasks (some (_, ids)) = ids

abbrev pub agent_tasks : Option (List Text) → List Text
agent_tasks none = []
agent_tasks (some ids) = ids

-- The set that `active` has become.
unfoldable pub active_set : Option (ℤ × List Text) → Option (List Text) → List Text
unfolding add_active
active_set budget agent = add_active (add_active [] (budget_tasks budget)) (agent_tasks agent)

-- `remainingAutomationWorkerCapacity`; the arguments are what the three services answer, `none` for a
-- service that is not there.
unfoldable pub remaining_capacity : Option (ℤ × List Text) → Option (List Text) → Option ℤ → ℕ
unfolding active_set
remaining_capacity budget agent settings =
    let max = budget_workers budget settings in
    let used = length (active_set budget agent) in if ltb max used then 0 else max - used
