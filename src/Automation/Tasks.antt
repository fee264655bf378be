-- ===== src/Automation/Tasks.antt =====
-- The tasks and the snapshot of a board that the coordinators read: the fields of gui/app/board_service.go
-- that they use, and the maps that they keep by task ID.
use task_board_tools.Base.{
  ℕ, Bool, true, false, List, [], ◌∷◌, ◌++◌, Option, none, some, Text, codes, text_eq, ◌==◌, map,
  if◌then◌else◌, ◌||◌, ℤ, pos, negsuc,
}
use task_board_tools.Strings.{trim_space, to_upper, has_suffix}
use task_board_tools.Strings.Decimal.{atoi}
use task_board_tools.EpicOrder

pub record BoardTask : Type 0 where
  pub id : Text
  pub status : Text
  pub priority : Text
  pub parent : Text
  pub agent : Text
  pub agent_status : Text
  pub implement_status : Text
  pub review_ref : Text
  pub tags : List Text

-- `wip_counts` and `wip_limits` by the names of the columns; 0 is no limit.
pub record Snapshot : Type 0 where
  pub backlog : List BoardTask
  pub ready : List BoardTask
  pub in_progress : List BoardTask
  pub code_review : List BoardTask
  pub done : List BoardTask
  pub archive : List BoardTask
  pub wip_counts : Text → ℕ
  pub wip_limits : Text → ℕ
  pub wip_enforcement : Text

-- A map by task ID, with the newest entry first.
unfoldable pub look_up {ℓ} : {A : Type ℓ} → List (Text × A) → Text → Option A
look_up [] id = none
look_up ((k, a) ∷ es) id = let rest = look_up es id in if text_eq k id then some a else rest

unfoldable pub erase {ℓ} : {A : Type ℓ} → List (Text × A) → Text → List (Text × A)
erase [] id = []
erase ((k, a) ∷ es) id = let rest = erase es id in if text_eq k id then rest else (k, a) ∷ rest

unfoldable pub put {ℓ} : {A : Type ℓ} → List (Text × A) → Text → A → List (Text × A)
unfolding erase
put es id a = (id, a) ∷ erase es id

-- What stands before and behind the last `sep`.
unfoldable pub cut_last : ℕ → Text → Option (Text × Text)
cut_last sep [] = none
cut_last sep (c ∷ s) = elim (cut_last sep s) [
  | none ↦ if c == sep then some ([], s) else none
  | some (a, b) ↦ some (c ∷ a, b)
]

abbrev pub natural : ℤ × Bool → ℕ × Bool
natural (pos n, true) = (n, true)
natural (pos n, false) = (0, false)
natural (negsuc n, _) = (0, false)

abbrev pub numeric_suffix : Text → Text → ℕ × Bool
numeric_suffix before after =
    if text_eq before [] || text_eq after []
    then (0, false)
    else if has_suffix before (codes "-")
    then (0, false)
    else natural (atoi after)

-- `ParseNumeric`
unfoldable pub parse_numeric : Text → ℕ × Bool
unfolding cut_last
parse_numeric id = elim (cut_last b'-' id) [
  | none ↦ (0, false)
  | some (before, after) ↦ numeric_suffix before after
]

unfoldable pub epic_task_from_board_task : BoardTask → EpicOrder.Task
unfolding parse_numeric
epic_task_from_board_task t = record {
  id = t.id;
  numeric = (parse_numeric t.id).0;
  parent = t.parent;
  status = t.status;
  agent_status = t.agent_status;
  tags = t.tags;
}

unfoldable pub build_epicorder_siblings : Snapshot → List EpicOrder.Task
build_epicorder_siblings snap = map epic_task_from_board_task (
    snap.backlog ++ snap.ready ++ snap.in_progress ++ snap.code_review ++ snap.done ++ snap.archive)

-- `priorityRank`
unfoldable pub rank_of : Text → ℕ
rank_of p =
    let q = to_upper (trim_space p) in
    if text_eq q (codes "P0")
    then 0
    else if text_eq q (codes "P1")
    then 1
    else if text_eq q (codes "P2")
    then 2
    else if text_eq q (codes "P3")
    then 3
    else 4
