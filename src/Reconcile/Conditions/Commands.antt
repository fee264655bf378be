-- ===== src/Reconcile/Conditions/Commands.antt =====
-- When a command of the reconciler is right.
use task_board_tools.Base.{
  ◌<◌, Bool-cases, true, false, [], some, Text, codes, ◌≡◌, ◌≢◌, inl, inr, arith, text_eq,
  text_eq_iff, ◌⊎◌, List, none,
}
use task_board_tools.Reconcile.Repair.{
  Command, ready_task, pull_task, wip_strict_blocked, submit_review, move_to_ready, fail_review,
  markdown_section_body,
}
use task_board_tools.Reconcile.Rules.{Case, has_ended}
use task_board_tools.Reconcile.History.{ReconcileRun}
use task_board_tools.Automation.Tasks.{Snapshot, look_up}
use task_board_tools.Strings.{trim_space}
use task_board_tools.EpicOrder.{contains_tag}

-- The task stands in `column`, and the latest run has ended in this way.
abbrev pub Ended : Case → Text → Text → Text → Text → Type 0
Ended c column mode status initiator =
    (c.task.status ≡ column)
    × ((r : ReconcileRun) × (c.run ≡ some r)
        × (r.finished ≡ true)
        × (r.run_mode ≡ mode)
        × (r.run_status ≡ status)
        × (r.run_initiator ≡ initiator))

-- The column takes one more task: limits are not strict, or there is none, or it is not reached.
abbrev pub HasRoom : Snapshot → Text → Type 0
HasRoom snap status =
    (snap.wip_enforcement ≢ codes "strict")
    ⊎ ((snap.wip_limits status ≡ 0) ⊎ (snap.wip_counts status < snap.wip_limits status))

pub wip_strict_blocked-HasRoom :
    (snap : Snapshot) (status : Text) → wip_strict_blocked snap status ≡ false → HasRoom snap status
unfolding wip_strict_blocked
wip_strict_blocked-HasRoom snap status h =
    elim (Bool-cases (text_eq snap.wip_enforcement (codes "strict"))) [
      | inl e ↦ inr (ground arith)
      | inr e ↦
          inl (λ z. absurd (ground (arith, text_eq_iff snap.wip_enforcement (codes "strict"))))
    ]

-- What the state of the task must be for a command, the column it goes to included.
abbrev pub Meets : Case → Command → Type 0
Meets c (ready_task id) =
    (id ≡ c.task.id)
    × Ended c (codes "backlog") (codes "groom") (codes "success") (codes "auto-groom")
    × ((flags : List (Text × List Text)) × (c.triage ≡ some flags)
        × (look_up flags c.task.id ≡ none))
    × ((c.snap.wip_limits (codes "ready") ≡ 0)
        ⊎ (c.snap.wip_counts (codes "ready") < c.snap.wip_limits (codes "ready")))
Meets c (pull_task id) =
    (id ≡ c.task.id)
    × (c.task.status ≡ codes "ready")
    × ((r : ReconcileRun) × (c.run ≡ some r)
        × (r.finished ≡ false)
        × (r.run_mode ≡ codes "implement")
        × (r.run_initiator ≡ codes "auto-implement"))
    × ((c.task.agent_status ≡ codes "queued") ⊎ (c.task.agent_status ≡ codes "running"))
    × HasRoom c.snap (codes "in-progress")
Meets c (submit_review id) =
    (id ≡ c.task.id)
    × Ended c (codes "in-progress") (codes "implement") (codes "success") (codes "auto-implement")
    × (trim_space c.task.review_ref ≢ [])
    × HasRoom c.snap (codes "code-review")
Meets c (move_to_ready id) =
    (id ≡ c.task.id)
    × (c.task.status ≡ codes "in-progress")
    × (c.task.agent_status ≡ codes "needs-user")
    × ((r : ReconcileRun) × (c.run ≡ some r) × (has_ended r ≡ true))
    × (trim_space (markdown_section_body c.body (codes "## User Attention")) ≢ [])
    × HasRoom c.snap (codes "ready")
Meets c (fail_review id findings) =
    (id ≡ c.task.id)
    × (c.task.status ≡ codes "code-review")
    × (contains_tag c.task.tags (codes "review-failed") ≡ true)
    × (findings ≡ markdown_section_body c.body (codes "## Review Findings"))
    × (trim_space findings ≢ [])
    × HasRoom c.snap (codes "ready")
