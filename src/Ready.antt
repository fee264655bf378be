-- ===== src/Ready.antt =====
-- `tb ready` and `tb pull` of cli/ready.go, and `tb mv` and `tb start` of cli/move.go. A command looks at
-- the board before it takes the lock; what other processes do until it has the lock is a function on
-- boards, an argument of the model, and so is what they do before it takes the lock once more.
pub mod Guarded
pub mod Promote
pub mod Least
pub mod Pick
pub mod Cleared
use task_board_tools.Base.{
  not, ℕ, Bool, true, false, ◌||◌, List, [], ◌∷◌, ◌++◌, Option, none, some, Text, codes, text_eq,
  if◌then◌else◌, ltb, ltb_ℤ, ◌==◌, length,
}
use task_board_tools.Strings.{split, join}
use task_board_tools.Status.{
  status_name, Status, backlog, ready, in_progress, code_review, done, archive, status_eq,
  all_status_dirs, priority_rank, numeric_id,
}
use task_board_tools.Task.{Task, priority}
use task_board_tools.Metadata.{clear_field}
use task_board_tools.Triage.{check_needs_grooming, GroomingReason}
use task_board_tools.Board.{
  Board, Error, Result, ok, err, TaskRef, resolve_task_ref, read_ref, parse_task_ref, sort_by,
  needs_grooming, not_promotable, wrong_source, malformed_task,
}
use task_board_tools.Gates.{
  em_dash, Config, MoveGuard, collect_tasks, enforce_wip_limit, enforce_wip_limit_for_mode,
  wip_limit_guard, wip_limit_guard_for_mode, expected_source_guard, compose_guards,
}
use task_board_tools.Move.{
  Disk, M, ◌>>=◌, ◌>>◌, pure, check, TaskMove, move_task_with_guard, write_markdown,
}

-- What other processes do to the board while this one holds no lock.
abbrev pub Others : Type 0
Others = Board → Board

abbrev pub meanwhile : Others → M Bool
meanwhile others b = (others b, ok true)

-- Whether the command goes on, has nothing to do, or fails.
abbrev promotable : Status → Result Bool
promotable backlog = ok true
promotable ready = ok false
promotable in_progress = err not_promotable
promotable code_review = err not_promotable
promotable done = err not_promotable
promotable archive = err not_promotable

abbrev groomed : List GroomingReason → Result Bool
groomed [] = ok true
groomed (_ ∷ _) = err needs_grooming

-- `checkNeedsGrooming` reads the file once more; a read that fails gives no reasons.
abbrev grooming_gate : Result Text → Task → Result Bool
grooming_gate (err e) t = ok true
grooming_gate (ok content) t = groomed (check_needs_grooming content t)

-- `clearReadyAgentStatus`: a write only where the line was there.
abbrev pub write_cleared : Disk → TaskRef → List Text → List Text → M Bool
write_cleared d ref lines cleared =
    if length cleared == length lines
    then pure true
    else write_markdown d ref.form ref.status ref.id (join cleared (codes "\n"))

unfoldable pub clear_ready_agent_status : Config → Disk → Text → M Bool
clear_ready_agent_status c d id = do
  ref ← check (λ b. resolve_task_ref c.prefix b id (ready ∷ []))
  content ← check (λ b. read_ref b ref)
  write_cleared d ref (split content b'\n')
      (clear_field (split content b'\n') (codes "AgentStatus"))

abbrev pub ready_guard : Config → Bool → Option MoveGuard
ready_guard c strict_wip = some (
    compose_guards (
      some (expected_source_guard (backlog ∷ []))
      ∷ some (wip_limit_guard_for_mode c strict_wip)
      ∷ []))

abbrev after_promotion : Config → Disk → Others → Text → TaskMove → M Bool
after_promotion c d others id r =
    if r.noop then pure false else meanwhile others >> clear_ready_agent_status c d id >> pure true

abbrev promote_from : Config → Disk → Others → Others → Bool → Text → Bool → TaskRef → M Bool
promote_from c d others later strict_wip id false ref = pure false
promote_from c d others later strict_wip id true ref = do
  t ← check (λ b. parse_task_ref c.prefix b ref)
  check (λ b. grooming_gate (read_ref b ref) t)
  check (λ b. enforce_wip_limit_for_mode c ready b strict_wip)
  meanwhile others
  r ←
      move_task_with_guard c d id ready (ready_guard c strict_wip)
        (λ _. codes "Committed " ++ (em_dash ++ codes " moved to ready"))
  after_promotion c d later id r

-- `promoteToReadyWithOptions`; the result tells whether the task was moved.
unfoldable pub promote_to_ready : Config → Disk → Others → Others → Bool → Text → M Bool
promote_to_ready c d others later strict_wip id = do
  ref ← check (λ b. resolve_task_ref c.prefix b id all_status_dirs)
  go_on ← check (λ _. promotable ref.status)
  promote_from c d others later strict_wip id go_on ref

-- Highest priority first, then the lowest number.
abbrev pub picks_before : Task → Task → Bool
picks_before t u =
    if priority_rank (t.meta priority) == priority_rank (u.meta priority)
    then ltb_ℤ (numeric_id t.id) (numeric_id u.id)
    else ltb (priority_rank (t.meta priority)) (priority_rank (u.meta priority))

abbrev pub first_id : List Task → Option Text
first_id [] = none
first_id (t ∷ _) = some t.id

abbrev pub picked : Result (List Task) → Result (Option Text)
picked (err e) = err e
picked (ok tasks) = ok (first_id (sort_by picks_before tasks))

unfoldable pub pick_next_ready_task : Config → Board → Result (Option Text)
pick_next_ready_task c b = picked (collect_tasks c b ready)

abbrev pub pull_guard : Config → Option MoveGuard
pull_guard c =
    some
      (compose_guards (some (expected_source_guard (ready ∷ [])) ∷ some (wip_limit_guard c) ∷ []))

abbrev in_ready : Result TaskRef → Result Bool
in_ready (err e) = err e
in_ready (ok ref) = if status_eq ref.status ready then ok true else err wrong_source

abbrev pull_target : Config → Disk → Others → Option Text → M Bool
pull_target c d others none = pure false
pull_target c d others (some id) = do
  meanwhile others
  r ← move_task_with_guard c d id in_progress (pull_guard c) (λ _. codes "Pulled into in-progress")
  pure (not r.noop)

-- `pullReadyTask`; without an ID the next task is picked.
unfoldable pub pull_ready_task : Config → Disk → Others → Option Text → M Bool
pull_ready_task c d others none = do
  check (λ b. enforce_wip_limit c in_progress b)
  next ← check (λ b. pick_next_ready_task c b)
  pull_target c d others next
pull_ready_task c d others (some id) = do
  check (λ b. enforce_wip_limit c in_progress b)
  check (λ b. in_ready (resolve_task_ref c.prefix b id all_status_dirs))
  pull_target c d others (some id)

-- `cmdMove` behind its arguments.
unfoldable pub command_move : Config → Disk → Others → Text → Status → M TaskMove
command_move c d others id target = do
  check (λ b. enforce_wip_limit c target b)
  meanwhile others
  move_task_with_guard c d id target (some (wip_limit_guard c))
      (λ _. codes "Moved to " ++ status_name target)

-- `cmdStart`; the warning about a task in backlog is left out.
unfoldable pub command_start : Config → Disk → Others → Text → M TaskMove
command_start c d others id = do
  check (λ b. enforce_wip_limit c in_progress b)
  meanwhile others
  move_task_with_guard c d id in_progress (some (wip_limit_guard c))
      (λ _. codes "Started " ++ (em_dash ++ codes " moved to in-progress"))
