-- ===== src/Gates.antt =====
-- The checks of a move, none of which writes: the source (cli/move.go), WIP limits (cli/ready.go,
-- cli/board.go), the review reference (cli/review.go, cli/json_output.go) and the guards.
pub mod Source
pub mod Review
pub mod Wip
use task_board_tools.Base.{
  ℕ, suc, Bool, true, false, ◌||◌, ◌&&◌, not, List, [], ◌∷◌, ◌++◌, Option, none, some, Text, codes,
  text_eq, if◌then◌else◌, ltb, ltb_ℤ, length, filter, any,
}
use task_board_tools.Strings.{trim_space}
use task_board_tools.Status.{Status, code_review, status_eq, all_status_dirs, numeric_id}
use task_board_tools.Task.{Task, review_ref}
use task_board_tools.Board.{
  Board, Error, Result, ok, err, ◌>>=◌, TaskRef, resolve_task_refs_for_id, discover_task_refs,
  parse_task_ref, sort_by, no_review_ref, not_found, destination_taken, ambiguous_source,
  wip_limit_reached, wrong_source, slot_at, absent, directory, unreadable, file, Node, Slot,
}

-- What `.tb.yaml` sets. A limit of 0 stands for a missing one too: both mean no limit.
pub record Config : Type 0 where
  pub prefix : Text
  pub wip_limits : Status → ℕ
  pub strict : Bool

unfoldable pub wip_limit_for : Config → Status → Option ℕ
wip_limit_for c status = if ltb 0 (c.wip_limits status) then some (c.wip_limits status) else none

abbrev pub keep_parsed : Result Task → List Task → List Task
keep_parsed (ok t) ts = t ∷ ts
keep_parsed (err e) ts = ts

-- A file that does not parse is skipped with a warning.
unfoldable pub parse_refs : Text → Board → List TaskRef → List Task
parse_refs prefix b [] = []
parse_refs prefix b (r ∷ rs) = keep_parsed (parse_task_ref prefix b r) (parse_refs prefix b rs)

unfoldable pub collect_tasks : Config → Board → Status → Result (List Task)
collect_tasks c b status = do
  refs ← discover_task_refs c.prefix b (status ∷ [])
  ok (sort_by (λ t u. ltb_ℤ (numeric_id t.id) (numeric_id u.id)) (parse_refs c.prefix b refs))

-- `true` in the result is the warning on stderr.
abbrev pub limit_check : Config → Bool → Option ℕ → Result (List Task) → Result Bool
limit_check c strict_override none tasks = ok false
limit_check c strict_override (some limit) (err e) = err e
limit_check c strict_override (some limit) (ok tasks) =
    if ltb (length tasks) limit
    then ok false
    else if strict_override || c.strict
    then err wip_limit_reached
    else ok true

unfoldable pub enforce_wip_limit_for_mode : Config → Status → Board → Bool → Result Bool
enforce_wip_limit_for_mode c status b strict_override =
    limit_check c strict_override (wip_limit_for c status) (collect_tasks c b status)

unfoldable pub enforce_wip_limit : Config → Status → Board → Result Bool
unfolding enforce_wip_limit_for_mode
enforce_wip_limit c status b = enforce_wip_limit_for_mode c status b false

-- A check under the lock: the board, the task, its status and the target. Its warnings are dropped.
abbrev pub MoveGuard : Type 0
MoveGuard = Board → Text → Status → Status → Result Bool

unfoldable pub wip_limit_guard_for_mode : Config → Bool → MoveGuard
wip_limit_guard_for_mode c strict_override b _ _ target =
    enforce_wip_limit_for_mode c target b strict_override

unfoldable pub wip_limit_guard : Config → MoveGuard
unfolding wip_limit_guard_for_mode
wip_limit_guard c = wip_limit_guard_for_mode c false

unfoldable pub expected_source_guard : List Status → MoveGuard
expected_source_guard expected b id src target =
    if any (λ s. status_eq s src) expected then ok false else err wrong_source

-- `nil` guards are skipped, and the first error is returned.
unfoldable pub compose_guards : List (Option MoveGuard) → MoveGuard
compose_guards [] b id src target = ok false
compose_guards (none ∷ gs) b id src target = compose_guards gs b id src target
compose_guards (some g ∷ gs) b id src target =
    let rest = compose_guards gs b id src target in g b id src target >>= λ _. rest

-- The em dash, in UTF-8.
abbrev pub em_dash : Text
em_dash = 226 ∷ 128 ∷ 148 ∷ []

unfoldable pub normalize_review_ref : Text → Text
unfolding trim_space text_eq
normalize_review_ref raw =
    let trimmed = trim_space raw in
    if text_eq trimmed [] || (text_eq trimmed em_dash || text_eq trimmed (codes "-"))
    then []
    else trimmed

unfoldable pub ensure_review_ref : Config → Board → TaskRef → Result Bool
ensure_review_ref c b ref = do
  t ← parse_task_ref c.prefix b ref
  if text_eq (normalize_review_ref (t.meta review_ref)) [] then err no_review_ref else ok true

-- `resolveMoveSource`: the source, and whether the task stands in the target already. `elsewhere` is
-- `sourceRefs`.
abbrev pub elsewhere : Status → List TaskRef → List TaskRef
elsewhere target = filter (λ r. not (status_eq r.status target))

abbrev pub in_target : Status → List TaskRef → Bool
in_target target = any (λ r. status_eq r.status target)

abbrev pub choose_source : Bool → List TaskRef → List TaskRef → Result (TaskRef × Bool)
choose_source target_exists [] sources = err not_found
choose_source target_exists (r ∷ refs) [] = ok (r, true)
choose_source true (r ∷ refs) (s ∷ ss) = err destination_taken
choose_source false (r ∷ refs) (s ∷ []) = ok (s, false)
choose_source false (r ∷ refs) (s ∷ q ∷ ss) = err ambiguous_source

unfoldable pub resolve_move_source : Board → Text → Status → Result (TaskRef × Bool)
resolve_move_source b id target = resolve_task_refs_for_id b id all_status_dirs >>= λ refs.
    choose_source (in_target target refs) refs (elsewhere target refs)

-- `os.Lstat` of the two paths of a destination.
abbrev node_exists : Node → Bool
node_exists absent = false
node_exists directory = true
node_exists unreadable = false
node_exists (file _) = true

abbrev folder_exists : Option Node → Bool
folder_exists none = false
folder_exists (some _) = true

unfoldable pub task_destination_exists : Board → Status → Text → Bool
task_destination_exists b status id =
    node_exists (slot_at b status id).file_form || folder_exists (slot_at b status id).folder

unfoldable pub ensure_move_destination_free : Board → Status → Text → Result Bool
unfolding task_destination_exists
ensure_move_destination_free b status id =
    if task_destination_exists b status id then err destination_taken else ok true
