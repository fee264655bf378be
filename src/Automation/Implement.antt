-- ===== src/Automation/Implement.antt =====
-- gui/app/auto_implement.go: one scan of the coordinator. It resumes runs that a crash left, and starts
-- runs on the ready tasks that pass all gates. `Calls` holds the answers of the agent service, of the
-- run history and of `tb`, by task ID.
use task_board_tools.Base.{
  ℕ, ◌+◌, ◌-◌, suc, Bool, true, false, ◌&&◌, ◌||◌, not, List, [], ◌∷◌, Option, none, some, Text,
  codes, text_eq, ltb, leb, ◌==◌, if◌then◌else◌, filter, ◌*◌,
}
use task_board_tools.Strings.{trim_space, to_lower}
use task_board_tools.EpicOrder.{Reason, Result, blocked, contains_tag, eligible_for_epic_order}
use task_board_tools.Daemon.{is_in}
use task_board_tools.Automation.Tasks.{
  BoardTask, Snapshot, look_up, erase, put, parse_numeric, epic_task_from_board_task,
  build_epicorder_siblings, rank_of,
}

-- Why a task is passed over; the texts of errors are left out.
pub data Skip : Type 0 where
  user_initiated no_worker has_run cooldown resume_failed triage_flagged wip_full : Skip
  no_client agent_not_set agent_unsupported pull_failed run_failed : Skip
  by_agent_status : Text → Skip
  by_implement_status : Text → Skip
  by_epic_order : Reason → Skip

-- How `RunAgentAs` and `ResumeAgentAs` end.
pub data RunResult : Type 0 where
  started already_running capacity_full failed : RunResult

-- `initiated` is whether the latest run was queued by auto-implement, `none` if that cannot be read.
pub record Calls : Type 0 where
  pub has_active_run : Text → Bool
  pub initiated : Text → Option Bool
  pub resume_agent : Text → RunResult
  pub run_agent : Text → RunResult
  pub client : Bool
  pub set_agent : Text → Bool
  pub runner_for : Text → Bool
  pub pull_task : Text → Bool
  pub move_to_ready : Text → Bool

-- What a scan does to the world, in its order. `resumed` stands for a resumed and for a restarted run.
pub data Action : Type 0 where
  resumed agent_set pulled queued moved_back : Text → Action

-- The coordinator's fields, and what one scan counts. `actions` are those done so far, the last first.
pub record Scan : Type 0 where
  pub workers : ℕ
  pub in_progress : ℕ
  pub last_skip : List (Text × Skip)
  pub resume_attempts : List (Text × ℕ)
  pub actions : List Action

unfoldable pub record_skip : Text → Skip → Scan → Scan
unfolding put
record_skip id why s = record s { last_skip = put s.last_skip id why }

unfoldable pub act : Action → Scan → Scan
act a s = record s { actions = a ∷ s.actions }

-- Seconds.
abbrev pub resume_cooldown : ℕ
resume_cooldown = 30

unfoldable pub prune_resume_attempts : ℕ → List (Text × ℕ) → List (Text × ℕ)
prune_resume_attempts now attempts =
    filter (λ a. not (ltb (a.1 + 2 * resume_cooldown) now)) attempts

unfoldable pub in_cooldown : ℕ → Text → Scan → Bool
in_cooldown now id s = elim (look_up s.resume_attempts id) [
  | none ↦ false
  | some last ↦ ltb now (last + resume_cooldown)
]

-- The switch on the status, which has one of two values when a task comes here.
unfoldable pub resume_call : Calls → Text → Text → Option RunResult
resume_call k id status =
    if text_eq status (codes "interrupted")
    then some (k.resume_agent id)
    else if text_eq status (codes "lost")
    then some (k.run_agent id)
    else none

-- What follows the call; the first part is whether a run has started.
unfoldable pub resume_ended : Text → Option RunResult → Scan → Bool × Scan
resume_ended id none s = (false, s)
resume_ended id (some started) s = (
  true,
  act (resumed id)
      (record s { last_skip = erase s.last_skip id; resume_attempts = erase s.resume_attempts id }),
)
resume_ended id (some already_running) s = (false, s)
resume_ended id (some capacity_full) s = (false, record_skip id no_worker s)
resume_ended id (some failed) s = (false, record_skip id resume_failed s)

unfoldable pub try_auto_resume : Calls → ℕ → BoardTask → Scan → Bool × Scan
unfolding record_skip in_cooldown resume_call resume_ended put
try_auto_resume k now t s =
    if k.has_active_run t.id
    then (false, record_skip t.id has_run s)
    else if in_cooldown now t.id s
    then (false, record_skip t.id cooldown s)
    else resume_ended t.id (resume_call k t.id t.agent_status)
        (record s { resume_attempts = put s.resume_attempts t.id now })

abbrev pub crashed : BoardTask → Bool
crashed t = text_eq t.agent_status (codes "interrupted") || text_eq t.agent_status (codes "lost")

abbrev pub take_worker : Bool × Scan → Scan
take_worker (false, s) = s
take_worker (true, s) = record s { workers = s.workers - 1 }

-- The part of a round behind the question who has started the run.
unfoldable pub resume_owned : Calls → ℕ → BoardTask → Option Bool → Scan → Scan
unfolding record_skip
resume_owned k now t none s = s
resume_owned k now t (some false) s = record_skip t.id user_initiated s
resume_owned k now t (some true) s =
    if s.workers == 0 then record_skip t.id no_worker s else take_worker (try_auto_resume k now t s)

unfoldable pub resume_round : Calls → ℕ → BoardTask → Scan → Scan
unfolding resume_owned
resume_round k now t s = if crashed t then resume_owned k now t (k.initiated t.id) s else s

-- The loop over the tasks in progress.
unfoldable pub resume_sweep : Calls → ℕ → List BoardTask → Scan → Scan
unfolding resume_round
resume_sweep k now [] s = s
resume_sweep k now (t ∷ ts) s = resume_sweep k now ts (resume_round k now t s)

-- `implementGateBlocker`
unfoldable pub implement_gate_blocker : BoardTask → Option Skip
implement_gate_blocker t =
    if text_eq t.agent_status (codes "cancelled") || text_eq t.agent_status (codes "needs-user")
    then some (by_agent_status t.agent_status)
    else if text_eq t.implement_status (codes "queued")
        || text_eq t.implement_status (codes "running")
    then some (by_implement_status t.implement_status)
    else none

abbrev pub order_blocker : Result → Option Skip
order_blocker Result.eligible = none
order_blocker (blocked id why) = some (by_epic_order why)

-- The gates of the candidate pass, in their order.
unfoldable pub candidate_blocker : Calls → List Text → Snapshot → BoardTask → Option Skip
unfolding implement_gate_blocker
candidate_blocker k triage snap t = elim (implement_gate_blocker t) [
  | some why ↦ some why
  | none ↦
      if is_in triage t.id
      then some triage_flagged
      else if k.has_active_run t.id
      then some has_run
      else order_blocker
          (eligible_for_epic_order (epic_task_from_board_task t) (build_epicorder_siblings snap))
]

-- The candidates, and the scan with the reasons of the others.
unfoldable pub candidate_pass :
    Calls → List Text → Snapshot → List BoardTask → Scan → List BoardTask × Scan
unfolding candidate_blocker record_skip
candidate_pass k triage snap [] s = ([], s)
candidate_pass k triage snap (t ∷ ts) s = elim (candidate_blocker k triage snap t) [
  | some why ↦ candidate_pass k triage snap ts (record_skip t.id why s)
  | none ↦ let (cs, s') = candidate_pass k triage snap ts s in (t ∷ cs, s')
]

abbrev pub review_failed : BoardTask → Bool
review_failed t = contains_tag t.tags (codes "review-failed")

-- The order of the candidates.
unfoldable pub starts_before : BoardTask → BoardTask → Bool
starts_before a b =
    let ra = rank_of a.priority in
    let rb = rank_of b.priority in
    if not (ra == rb)
    then ltb ra rb
    else if review_failed a
    then if review_failed b then ltb (parse_numeric a.id).0 (parse_numeric b.id).0 else true
    else if review_failed b
    then false
    else ltb (parse_numeric a.id).0 (parse_numeric b.id).0

-- `autoImplementStartResult`
pub record StartResult : Type 0 where
  pub was_pulled : Bool
  pub was_queued : Bool

abbrev pub not_started : StartResult
not_started = record { was_pulled = false; was_queued = false }

abbrev pub only_pulled : StartResult
only_pulled = record { was_pulled = true; was_queued = false }

-- The end of `startCandidate`, behind the pull.
unfoldable pub run_ended : Calls → Text → RunResult → Scan → StartResult × Scan
unfolding record_skip act
run_ended k id started s = (
  record { was_pulled = true; was_queued = true },
  act (queued id) (record s { last_skip = erase s.last_skip id }),
)
run_ended k id already_running s = (only_pulled, record_skip id run_failed s)
run_ended k id failed s = (only_pulled, record_skip id run_failed s)
run_ended k id capacity_full s =
    if k.move_to_ready id
    then (not_started, act (moved_back id) (record_skip id no_worker s))
    else (only_pulled, record_skip id no_worker s)

unfoldable pub pull_and_run : Calls → Text → Text → Scan → StartResult × Scan
unfolding run_ended
pull_and_run k id agent s =
    if not (k.runner_for agent)
    then (not_started, record_skip id agent_unsupported s)
    else if not (k.pull_task id)
    then (not_started, record_skip id pull_failed s)
    else run_ended k id (k.run_agent id) (act (pulled id) s)

unfoldable pub start_candidate : Calls → Text → BoardTask → Scan → StartResult × Scan
unfolding pull_and_run
start_candidate k default_agent t s =
    let agent = to_lower (trim_space t.agent) in
    if not (text_eq agent [])
    then pull_and_run k t.id agent s
    else if not k.client
    then (not_started, record_skip t.id no_client s)
    else if not (k.set_agent t.id)
    then (not_started, record_skip t.id agent_not_set s)
    else pull_and_run k t.id default_agent (act (agent_set t.id) s)

-- The counters behind a start.
abbrev pub count_start : ℕ → StartResult × Scan → Scan
count_start limit (r, s) = record s {
  in_progress = if r.was_pulled && ltb 0 limit then suc s.in_progress else s.in_progress;
  workers = if r.was_queued then s.workers - 1 else s.workers;
}

unfoldable pub start_round : Calls → Text → ℕ → BoardTask → Scan → Scan
unfolding start_candidate record_skip
start_round k default_agent limit t s =
    if s.workers == 0
    then record_skip t.id no_worker s
    else if ltb 0 limit && leb limit s.in_progress
    then record_skip t.id wip_full s
    else count_start limit (start_candidate k default_agent t s)

unfoldable pub start_loop : Calls → Text → ℕ → List BoardTask → Scan → Scan
unfolding start_round
start_loop k default_agent limit [] s = s
start_loop k default_agent limit (t ∷ ts) s =
    start_loop k default_agent limit ts (start_round k default_agent limit t s)
