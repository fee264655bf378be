-- ===== src/Automation/Gates/Rights.antt =====
-- What makes a resumption or a start of a run right.
use mathlib.Core.List.{Memᴰ}
use task_board_tools.Base.{
  ◌≡◌, ◌≢◌, List, [], Text, arith, refl, Option, All, codes, none, some, false, true, ◌⊎◌,
  text_eq_iff,
}
use task_board_tools.EpicOrder.{Result, blocked}
use task_board_tools.Automation.Implement.{
  Action, Calls, candidate_blocker, order_blocker, implement_gate_blocker, crashed, resumed,
  agent_set, pulled, queued, moved_back,
}
use task_board_tools.Automation.Tasks.{
  BoardTask, Snapshot, epic_task_from_board_task, build_epicorder_siblings,
}
use task_board_tools.Daemon.{is_in}
use task_board_tools.EpicOrder.{contains_tag, eligible_for_epic_order}
use task_board_tools.EpicOrder.Laws.{IsFinished, eligible_iff}

-- A crashed run of auto-implement on a task of `tasks`, with nothing active.
pub record MayResume (k : Calls) (tasks : List BoardTask) (id : Text) : Type 0 where
  pub task : BoardTask
  pub at : Memᴰ task tasks
  pub named : task.id ≡ id
  pub was_crashed : crashed task ≡ true
  pub owned : k.initiated id ≡ some true
  pub inactive : k.has_active_run id ≡ false

-- A task of `ready` that passes every gate; `order` reads that all its earlier siblings are closed.
pub record MayStart (k : Calls) (triage : Option (List Text)) (snap : Snapshot)
    (ready : List BoardTask) (id : Text) : Type 0 where
  pub task : BoardTask
  pub at : Memᴰ task ready
  pub named : task.id ≡ id
  pub not_stopped :
      (task.agent_status ≢ codes "cancelled") × (task.agent_status ≢ codes "needs-user")
  pub not_underway :
      (task.implement_status ≢ codes "queued") × (task.implement_status ≢ codes "running")
  pub groomed : (flagged : List Text) × (triage ≡ some flagged) × (is_in flagged id ≡ false)
  pub inactive : k.has_active_run id ≡ false
  pub leaf : contains_tag task.tags (codes "epic") ≡ false
  pub in_order :
      (task.parent ≡ [])
      ⊎ All (IsFinished (epic_task_from_board_task task)) (build_epicorder_siblings snap)

order_blocker-none : (r : Result) → order_blocker r ≡ none → r ≡ Result.eligible
order_blocker-none Result.eligible h = refl
order_blocker-none (blocked id why) h = absurd (cc)

pub candidate_blocker-MayStart :
    (k : Calls) (triage : List Text) (snap : Snapshot) (ready : List BoardTask) (t : BoardTask)
    → Memᴰ t ready
    → candidate_blocker k triage snap t ≡ none
    → MayStart k (some triage) snap ready t.id
unfolding candidate_blocker implement_gate_blocker epic_task_from_board_task
candidate_blocker-MayStart k triage snap ready t m h =
    let gate : implement_gate_blocker t ≡ none = ground arith in
    let flag : is_in triage t.id ≡ false = ground arith in
    let idle : k.has_active_run t.id ≡ false = ground arith in
    let through : order_blocker
          (eligible_for_epic_order (epic_task_from_board_task t) (build_epicorder_siblings snap))
        ≡ none =
      ground arith in
    let order =
      (eligible_iff (epic_task_from_board_task t) (build_epicorder_siblings snap)).0
        (order_blocker-none _ through) in
    record {
      task = t;
      at = m;
      named = refl;
      not_stopped = (
        (λ e. absurd (ground (arith, text_eq_iff t.agent_status (codes "cancelled")))),
        λ e. absurd (ground (arith, text_eq_iff t.agent_status (codes "needs-user"))),
      );
      not_underway = (
        (λ e. absurd (ground (arith, text_eq_iff t.implement_status (codes "queued")))),
        λ e. absurd (ground (arith, text_eq_iff t.implement_status (codes "running"))),
      );
      groomed = (triage, refl, flag);
      inactive = idle;
      leaf = order.0;
      in_order = order.1;
    }

-- What may be done to a task.
abbrev pub Allowed : Calls → Option (List Text) → Snapshot → List BoardTask → Action → Type 0
Allowed k triage snap ready (resumed id) = MayResume k snap.in_progress id
Allowed k triage snap ready (agent_set id) = MayStart k triage snap ready id
Allowed k triage snap ready (pulled id) = MayStart k triage snap ready id
Allowed k triage snap ready (queued id) = MayStart k triage snap ready id
Allowed k triage snap ready (moved_back id) = MayStart k triage snap ready id
