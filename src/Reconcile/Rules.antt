-- ===== src/Reconcile/Rules.antt =====
-- The five rules, and the pass over one task.
use task_board_tools.Base.{
  Bool, true, false, ◌&&◌, ◌||◌, not, List, [], ◌∷◌, Option, none, some, Text, codes, text_eq,
  if◌then◌else◌,
}
use task_board_tools.Strings.{trim_space, join}
use task_board_tools.EpicOrder.{contains_tag}
use task_board_tools.Automation.Tasks.{BoardTask, Snapshot, look_up}
use task_board_tools.Reconcile.History.{ReconcileRun}
use task_board_tools.Reconcile.Repair.{
  World, Desk, Transition, wip_fingerprint, markdown_section_body, attempt_repair, Command,
  reconcile_fingerprint, record_repair_skip, auto_groom_ready_wip_full, wip_strict_blocked,
  auto_groom_ready, auto_implement_start, auto_implement_submit, implement_needs_user,
  review_failed_ready, ready_task, pull_task, submit_review, move_to_ready, fail_review,
}

-- What a rule sees: the board, the task with its text, its latest run, and the answer of triage, `none`
-- for an error.
pub record Case : Type 0 where
  pub snap : Snapshot
  pub task : BoardTask
  pub body : Text
  pub run : Option ReconcileRun
  pub triage : Option (List (Text × List Text))

-- What a rule finds.
pub data Finding : Type 0 where
  nothing_to_do : Finding
  -- triage cannot be read, which ends the pass
  unknown : Finding
  -- the transition cannot be made, with the fingerprint of the reason
  stuck : Transition → Text → Finding
  -- the transition to repair, its fingerprint, whether the column is full, and the command
  repair : Transition → Text → Bool → Command → Finding

unfoldable pub is_reconcile_protected : Text → Bool
is_reconcile_protected status =
    let s = trim_space status in
    text_eq s (codes "needs-user")
    || (text_eq s (codes "cancelled")
        || (text_eq s (codes "interrupted") || text_eq s (codes "lost")))

abbrev pub is_run_of : ReconcileRun → Text → Text → Text → Bool
is_run_of r mode status initiator =
    r.finished
    && (text_eq r.run_mode mode
        && (text_eq r.run_status status && text_eq r.run_initiator initiator))

-- `reconcileAutoGroom`, behind its conditions.
unfoldable pub groomed : World → Case → ReconcileRun → Finding
unfolding look_up wip_fingerprint reconcile_fingerprint auto_groom_ready_wip_full
groomed w c r = elim c.triage [
  | none ↦ unknown
  | some flags ↦ elim (look_up flags c.task.id) [
    | some reasons ↦ stuck auto_groom_ready (
        reconcile_fingerprint w
          (codes "triage" ∷ c.task.id ∷ r.id ∷ join reasons (codes "\n") ∷ []))
    | none ↦
        repair auto_groom_ready
          (reconcile_fingerprint w (
            codes "ready"
            ∷ c.task.id
            ∷ r.id
            ∷ r.run_status
            ∷ wip_fingerprint c.snap (codes "ready")
            ∷ []))
          (auto_groom_ready_wip_full c.snap) (ready_task c.task.id)
  ]
]

unfoldable pub reconcile_auto_groom : World → Case → Finding
unfolding groomed
reconcile_auto_groom w c = elim c.run [
  | none ↦ nothing_to_do
  | some r ↦
      if text_eq c.task.status (codes "backlog")
        && is_run_of r (codes "groom") (codes "success") (codes "auto-groom")
      then groomed w c r
      else nothing_to_do
]

unfoldable pub reconcile_auto_implement_start : World → Case → Finding
unfolding wip_fingerprint reconcile_fingerprint wip_strict_blocked
reconcile_auto_implement_start w c = elim c.run [
  | none ↦ nothing_to_do
  | some r ↦
      if not (text_eq c.task.status (codes "ready"))
      then nothing_to_do
      else if r.finished
          || not (
              text_eq r.run_mode (codes "implement")
              && text_eq r.run_initiator (codes "auto-implement"))
      then nothing_to_do
      else if text_eq c.task.agent_status (codes "queued")
          || text_eq c.task.agent_status (codes "running")
      then repair auto_implement_start
          (reconcile_fingerprint w (
            codes "pull"
            ∷ c.task.id
            ∷ r.id
            ∷ c.task.agent_status
            ∷ wip_fingerprint c.snap (codes "in-progress")
            ∷ []))
          (wip_strict_blocked c.snap (codes "in-progress")) (pull_task c.task.id)
      else nothing_to_do
]

unfoldable pub submitted : World → Case → ReconcileRun → Finding
unfolding wip_fingerprint reconcile_fingerprint wip_strict_blocked
submitted w c r =
    let review_ref = trim_space c.task.review_ref in
    let fp = reconcile_fingerprint w (
      codes "submit"
      ∷ c.task.id
      ∷ r.id
      ∷ review_ref
      ∷ wip_fingerprint c.snap (codes "code-review")
      ∷ []) in
    if text_eq review_ref []
    then stuck auto_implement_submit fp
    else repair auto_implement_submit fp (wip_strict_blocked c.snap (codes "code-review"))
        (submit_review c.task.id)

unfoldable pub reconcile_auto_implement_submit : World → Case → Finding
unfolding submitted
reconcile_auto_implement_submit w c = elim c.run [
  | none ↦ nothing_to_do
  | some r ↦
      if text_eq c.task.status (codes "in-progress")
        && is_run_of r (codes "implement") (codes "success") (codes "auto-implement")
      then submitted w c r
      else nothing_to_do
]

abbrev pub has_ended : ReconcileRun → Bool
has_ended r =
    r.finished
    && (text_eq r.run_mode (codes "implement")
        && (text_eq r.run_status (codes "success") || text_eq r.run_status (codes "failed")))

unfoldable pub handed_over : World → Case → ReconcileRun → Finding
unfolding markdown_section_body wip_fingerprint reconcile_fingerprint wip_strict_blocked
handed_over w c r =
    let attention = markdown_section_body c.body (codes "## User Attention") in
    if text_eq (trim_space attention) []
    then nothing_to_do
    else repair implement_needs_user
        (reconcile_fingerprint w (
          codes "needs-user"
          ∷ c.task.id
          ∷ r.id
          ∷ r.run_status
          ∷ w.hash attention
          ∷ wip_fingerprint c.snap (codes "ready")
          ∷ []))
        (wip_strict_blocked c.snap (codes "ready")) (move_to_ready c.task.id)

unfoldable pub reconcile_implement_needs_user : World → Case → Finding
unfolding handed_over
reconcile_implement_needs_user w c =
    if text_eq c.task.status (codes "in-progress")
      && text_eq c.task.agent_status (codes "needs-user")
    then elim c.run [
      | none ↦ nothing_to_do
      | some r ↦ if has_ended r then handed_over w c r else nothing_to_do
    ]
    else nothing_to_do

unfoldable pub reconcile_review_failed : World → Case → Finding
unfolding markdown_section_body wip_fingerprint reconcile_fingerprint wip_strict_blocked
reconcile_review_failed w c =
    let findings = markdown_section_body c.body (codes "## Review Findings") in
    if not (
      text_eq c.task.status (codes "code-review")
      && contains_tag c.task.tags (codes "review-failed"))
    then nothing_to_do
    else if text_eq (trim_space findings) []
    then nothing_to_do
    else repair review_failed_ready
        (reconcile_fingerprint w (
          codes "review-failed"
          ∷ c.task.id
          ∷ w.hash findings
          ∷ wip_fingerprint c.snap (codes "ready")
          ∷ []))
        (wip_strict_blocked c.snap (codes "ready")) (fail_review c.task.id findings)

-- A finding put into effect: the desk, and whether the pass goes on.
unfoldable pub act_on : World → Text → Finding → Desk → Desk × Bool
unfolding attempt_repair record_repair_skip
act_on w id nothing_to_do d = (d, true)
act_on w id unknown d = (d, false)
act_on w id (stuck t fp) d = (record_repair_skip w id t fp d, true)
act_on w id (repair t fp full c) d = (attempt_repair w id t fp full c d, true)

-- The rules in turn, until one fails.
unfoldable pub act_on_all : World → Text → List Finding → Desk → Desk
unfolding act_on
act_on_all w id [] d = d
act_on_all w id (f ∷ fs) d =
    let (d', goes_on) = act_on w id f d in
    let rest = act_on_all w id fs d' in if goes_on then rest else d'

-- `reconcileTask`, for a task that has been read.
unfoldable pub reconcile_task : World → Case → Desk → Desk
unfolding act_on_all reconcile_implement_needs_user is_reconcile_protected
reconcile_task w c d =
    let handed = (act_on w c.task.id (reconcile_implement_needs_user w c) d).0 in
    if is_reconcile_protected c.task.agent_status
    then handed
    else act_on_all w c.task.id
        (reconcile_auto_groom w c
          ∷ reconcile_auto_implement_start w c
          ∷ reconcile_auto_implement_submit w c
          ∷ reconcile_review_failed w c
          ∷ [])
        handed
