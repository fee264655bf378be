-- ===== src/Reconcile/Conditions.antt =====
-- Under which conditions a repair gives its command.
pub mod Commands
use task_board_tools.Base.{
  ◌<◌, Bool-cases, true, false, ◌&&◌, [], some, Text, codes, ◌≡◌, ◌≢◌, inl, inr, refl, arith,
  Option-cases, text_eq_sound, if_any, text_eq, option_any, not, text_eq_iff, ◌||◌, ◌⊎◌, ◌∷◌,
}
use task_board_tools.Reconcile.Retry.{record_repair_skip_quiet, attempt_repair_once}
use task_board_tools.Reconcile.Repair.{
  World, Command, ready_task, pull_task, wip_strict_blocked, submit_review, move_to_ready,
  fail_review, markdown_section_body, Desk, auto_groom_ready_wip_full,
}
use task_board_tools.Reconcile.Rules.{
  Case, Finding, stuck, groomed, reconcile_auto_groom, is_run_of, repair, nothing_to_do, unknown,
  has_ended, reconcile_auto_implement_start, submitted, reconcile_auto_implement_submit,
  reconcile_implement_needs_user, reconcile_review_failed, act_on, handed_over,
  is_reconcile_protected, reconcile_task,
}
use task_board_tools.Reconcile.History.{ReconcileRun}
use task_board_tools.Automation.Tasks.{look_up, Snapshot}
use task_board_tools.Strings.{trim_space}
use task_board_tools.EpicOrder.{contains_tag}
use task_board_tools.Reconcile.Dispatch.{finding_of, reconcile_task-finding_of}
use task_board_tools.Reconcile.Conditions.Commands.{
  Ended, HasRoom, wip_strict_blocked-HasRoom, Meets,
}

is_run_of-Ended :
    {mode status initiator : Text} (c : Case) (r : ReconcileRun) (column : Text)
    → c.task.status ≡ column
    → c.run ≡ some r
    → is_run_of r mode status initiator ≡ true
    → Ended c column mode status initiator
is_run_of-Ended c r column s e h = (
  s,
  (
    r,
    e,
    ground arith,
    text_eq_sound _ _ (ground arith),
    text_eq_sound _ _ (ground arith),
    text_eq_sound _ _ (ground arith),
  ),
)

auto_groom_room :
    (snap : Snapshot)
    → auto_groom_ready_wip_full snap ≡ false
    → (snap.wip_limits (codes "ready") ≡ 0)
      ⊎ (snap.wip_counts (codes "ready") < snap.wip_limits (codes "ready"))
unfolding auto_groom_ready_wip_full
auto_groom_room snap h = ground arith

abbrev Sound : Case → Finding → Type 0
Sound c nothing_to_do = Unit
Sound c unknown = Unit
Sound c (stuck t fp) = Unit
Sound c (repair t fp full x) = full ≡ false → Meets c x

groomed-Sound :
    (w : World) (c : Case) (r : ReconcileRun)
    → c.task.status ≡ codes "backlog"
    → c.run ≡ some r
    → is_run_of r (codes "groom") (codes "success") (codes "auto-groom") ≡ true
    → Sound c (groomed w c r)
unfolding groomed
groomed-Sound w c r s e h =
    option_any (Sound c) c.triage (λ _. tt)
      (λ flags q.
        option_any (Sound c) (look_up flags c.task.id)
          (λ f room. (
            refl,
            is_run_of-Ended c r (codes "backlog") s e h,
            (flags, q, f),
            auto_groom_room c.snap room,
          ))
          (λ _ _. tt))

auto_groom-Sound : (w : World) (c : Case) → Sound c (reconcile_auto_groom w c)
unfolding reconcile_auto_groom
auto_groom-Sound w c =
    option_any (Sound c) c.run (λ _. tt)
      (λ r e.
        if_any (Sound c)
          (text_eq c.task.status (codes "backlog")
            && is_run_of r (codes "groom") (codes "success") (codes "auto-groom"))
          (λ h. groomed-Sound w c r (text_eq_sound _ _ (ground arith)) e (ground arith)) (λ _. tt))

auto_implement_start-Sound : (w : World) (c : Case) → Sound c (reconcile_auto_implement_start w c)
unfolding reconcile_auto_implement_start
auto_implement_start-Sound w c =
    option_any (Sound c) c.run (λ _. tt)
      (λ r e.
        if_any (Sound c) (not (text_eq c.task.status (codes "ready"))) (λ _. tt)
          (λ s.
            if_any (Sound c)
              (r.finished
                || not (
                    text_eq r.run_mode (codes "implement")
                    && text_eq r.run_initiator (codes "auto-implement")))
              (λ _. tt)
              (λ h.
                if_any (Sound c)
                  (text_eq c.task.agent_status (codes "queued")
                    || text_eq c.task.agent_status (codes "running"))
                  (λ under_way room. (
                    refl,
                    text_eq_sound _ _ (ground arith),
                    (
                      r,
                      e,
                      ground arith,
                      text_eq_sound _ _ (ground arith),
                      text_eq_sound _ _ (ground arith),
                    ),
                    ground (
                      arith,
                      text_eq_iff c.task.agent_status (codes "queued"),
                      text_eq_iff c.task.agent_status (codes "running"),
                    ),
                    wip_strict_blocked-HasRoom c.snap (codes "in-progress") room,
                  ))
                  (λ _. tt))))

submitted-Sound :
    (w : World) (c : Case) (r : ReconcileRun)
    → Ended c (codes "in-progress") (codes "implement") (codes "success") (codes "auto-implement")
    → Sound c (submitted w c r)
unfolding submitted
submitted-Sound w c r ended =
    if_any (Sound c) (text_eq (trim_space c.task.review_ref) []) (λ _. tt)
      (λ h room. (
        refl,
        ended,
        (λ z. absurd (ground (arith, text_eq_iff (trim_space c.task.review_ref) []))),
        wip_strict_blocked-HasRoom c.snap (codes "code-review") room,
      ))

auto_implement_submit-Sound : (w : World) (c : Case) → Sound c (reconcile_auto_implement_submit w c)
unfolding reconcile_auto_implement_submit
auto_implement_submit-Sound w c =
    option_any (Sound c) c.run (λ _. tt)
      (λ r e.
        if_any (Sound c)
          (text_eq c.task.status (codes "in-progress")
            && is_run_of r (codes "implement") (codes "success") (codes "auto-implement"))
          (λ h. submitted-Sound w c r (
            is_run_of-Ended c r (codes "in-progress") (text_eq_sound _ _ (ground arith)) e
              (ground arith)))
          (λ _. tt))

needs_user-Sound : (w : World) (c : Case) → Sound c (reconcile_implement_needs_user w c)
unfolding reconcile_implement_needs_user handed_over
needs_user-Sound w c =
    if_any (Sound c)
      (text_eq c.task.status (codes "in-progress")
        && text_eq c.task.agent_status (codes "needs-user"))
      (λ h.
        option_any (Sound c) c.run (λ _. tt)
          (λ r e.
            if_any (Sound c) (has_ended r)
              (λ ended.
                if_any (Sound c)
                  (text_eq (trim_space (markdown_section_body c.body (codes "## User Attention")))
                    [])
                  (λ _. tt)
                  (λ told room. (
                    refl,
                    text_eq_sound _ _ (ground arith),
                    text_eq_sound _ _ (ground arith),
                    (r, e, ended),
                    (λ z. absurd (
                        ground (
                          arith,
                          text_eq_iff
                              (trim_space
                                (markdown_section_body c.body (codes "## User Attention")))
                              [],
                        ))),
                    wip_strict_blocked-HasRoom c.snap (codes "ready") room,
                  )))
              (λ _. tt)))
      (λ _. tt)

review_failed-Sound : (w : World) (c : Case) → Sound c (reconcile_review_failed w c)
unfolding reconcile_review_failed
review_failed-Sound w c =
    let findings = markdown_section_body c.body (codes "## Review Findings") in
    if_any (Sound c)
      (not (
        text_eq c.task.status (codes "code-review")
        && contains_tag c.task.tags (codes "review-failed")))
      (λ _. tt)
      (λ h.
        if_any (Sound c) (text_eq (trim_space findings) []) (λ _. tt)
          (λ full room. (
            refl,
            text_eq_sound _ _ (ground arith),
            ground arith,
            refl,
            (λ z. absurd (ground (arith, text_eq_iff (trim_space findings) []))),
            wip_strict_blocked-HasRoom c.snap (codes "ready") room,
          )))

finding_of-Sound : (w : World) (c : Case) → Sound c (finding_of w c)
unfolding finding_of
finding_of-Sound w c =
    let P : Finding → Type 0 = Sound c in
    if_any P (is_reconcile_protected c.task.agent_status) (λ _. needs_user-Sound w c)
      (λ _.
        if_any P (text_eq c.task.status (codes "backlog")) (λ _. auto_groom-Sound w c)
          (λ _.
            if_any P (text_eq c.task.status (codes "ready")) (λ _. auto_implement_start-Sound w c)
              (λ _.
                if_any P (text_eq c.task.status (codes "in-progress"))
                  (λ _. auto_implement_submit-Sound w c)
                  (λ _.
                    if_any P (text_eq c.task.status (codes "code-review"))
                      (λ _. review_failed-Sound w c) (λ _. tt)))))

-- A pass over a task gives no command, or exactly one. The command is about this task; the task stands
-- in the column, with the run, and with the status, answer of triage, tag, reference or section, that
-- the command is for: a groomed task is not flagged by triage, a started one is queued or running by its
-- agent status, a submitted one has a review reference, one that waits for the user says in its section
-- what for, and a failed review has its findings. The column it goes to has room, by its limit for a
-- groomed task, in strict enforcement for the others.
pub reconcile_task-Meets :
    (w : World) (c : Case) (d : Desk)
    → ((reconcile_task w c d).commands ≡ d.commands)
      ⊎ ((x : Command) × ((reconcile_task w c d).commands ≡ x ∷ d.commands) × Meets c x)
unfolding act_on
reconcile_task-Meets w c d =
    rw (reconcile_task-finding_of w c d) (acted (finding_of w c) (finding_of-Sound w c))
  where
    acted :
        (f : Finding)
        → Sound c f
        → ((act_on w c.task.id f d).0.commands ≡ d.commands)
          ⊎ ((x : Command) × ((act_on w c.task.id f d).0.commands ≡ x ∷ d.commands) × Meets c x)
    acted nothing_to_do s = inl refl
    acted unknown s = inl refl
    acted (stuck t fp) s = inl (record_repair_skip_quiet w c.task.id t fp d)
    acted (repair t fp full x) s = elim (attempt_repair_once w c.task.id t fp full x d) [
      | inl e ↦ inl e
      | inr (e, room) ↦ inr (x, e, s room)
    ]
