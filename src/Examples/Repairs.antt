-- ===== src/Examples/Repairs.antt =====
-- A submission that the reconciler makes up for, and one that `tb` refuses.
use task_board_tools.Status.{status_eq}
use task_board_tools.Strings.Decimal.{format}
use task_board_tools.Board.{put, place_eq}
use task_board_tools.EpicOrder.{contains_tag}
use task_board_tools.Strings.{trim_space, trim_right, is_space, trim_left, join, split, has_prefix}
use task_board_tools.Base.{
  Bool, true, false, List, [], ◌∷◌, none, some, Text, codes, text_eq, ◌≡◌, ◌≤◌, ◌⊎◌, refl, length,
}
use task_board_tools.Automation.Tasks.{BoardTask, Snapshot, look_up, erase}
use task_board_tools.Reconcile.History.{
  Event, ev_queued, ev_started, ev_finished, latest_reconcile_run, last_run, read_events,
  update_runs, note_event, parse_reconcile_mode, EventKind,
}
use task_board_tools.Reconcile.Repair.{
  World, Desk, Command, record_repair_skip, attempt_repair, reconcile_fingerprint, wip_fingerprint,
  wip_strict_blocked, markdown_section_body, skip_key, has_current_skip, clear_skip,
  auto_groom_ready_wip_full, lines_behind_heading, lines_before_heading, transition_name,
  submit_review,
}
use task_board_tools.Reconcile.Rules.{
  Case, reconcile_task, act_on, reconcile_implement_needs_user, is_reconcile_protected, act_on_all,
  reconcile_auto_groom, reconcile_auto_implement_start, reconcile_auto_implement_submit,
  reconcile_review_failed, handed_over, submitted,
}
use task_board_tools.Reconcile.Conditions.{reconcile_task-Meets}
use task_board_tools.Reconcile.Conditions.Commands.{Meets}
use task_board_tools.Reconcile.Retry.{passes, passes_settle}
use task_board_tools.Reconcile.Dispatch.{finding_of, reconcile_task-finding_of}

abbrev an_event : EventKind → Text → Event
an_event kind status = record {
  run_id = codes "r1";
  kind = kind;
  mode = codes "implement";
  initiator = codes "auto-implement";
  status = status;
}

abbrev history : List Event
history =
    an_event ev_queued [] ∷ an_event ev_started [] ∷ an_event ev_finished (codes "success") ∷ []

abbrev finished_task : BoardTask
finished_task = record {
  id = codes "TB-9";
  status = codes "in-progress";
  priority = codes "P1";
  parent = [];
  agent = codes "claude";
  agent_status = codes "success";
  implement_status = codes "success";
  review_ref = codes "fix/9";
  tags = [];
}

abbrev roomy : Snapshot
roomy = record {
  backlog = [];
  ready = [];
  in_progress = finished_task ∷ [];
  code_review = [];
  done = [];
  archive = [];
  wip_counts = λ s. 0;
  wip_limits = λ s. 1;
  wip_enforcement = codes "strict";
}

abbrev a_case : Case
a_case = record {
  snap = roomy;
  task = finished_task;
  body = [];
  run = latest_reconcile_run (some history);
  triage = none;
}

-- A world with a hash that keeps texts apart, in which commands succeed or not.
abbrev a_world : Bool → World
a_world answer = record { hash = λ t. t; obeys = λ c. answer; can_write = true }

abbrev empty_desk : Desk
empty_desk = record { skip_file = some []; commands = [] }

submits :
    reconcile_task (a_world true) a_case empty_desk
    ≡ record { skip_file = some []; commands = submit_review (codes "TB-9") ∷ [] }
unfolding reconcile_task latest_reconcile_run act_on reconcile_implement_needs_user
    is_reconcile_protected act_on_all reconcile_auto_groom reconcile_auto_implement_start
    reconcile_auto_implement_submit reconcile_review_failed last_run read_events record_repair_skip
    attempt_repair text_eq handed_over trim_space reconcile_fingerprint wip_fingerprint
    wip_strict_blocked submitted markdown_section_body contains_tag update_runs look_up skip_key put
    has_current_skip clear_skip trim_right is_space trim_left join auto_groom_ready_wip_full format
    lines_behind_heading split lines_before_heading note_event transition_name place_eq erase
    has_prefix parse_reconcile_mode status_eq
submits = refl

reconcile_task-finding_of_example :
    reconcile_task (a_world true) a_case empty_desk
    ≡ (act_on (a_world true) (codes "TB-9") (finding_of (a_world true) a_case) empty_desk).0
reconcile_task-finding_of_example = reconcile_task-finding_of (a_world true) a_case empty_desk

passes_settle_example :
    (passes 3 (a_world false) a_case empty_desk ≡ reconcile_task (a_world false) a_case empty_desk)
    × (length (reconcile_task (a_world false) a_case empty_desk).commands ≤ 1)
passes_settle_example = passes_settle (a_world false) a_case empty_desk 2 refl (λ x. refl)

reconcile_task-Meets_example :
    ((reconcile_task (a_world true) a_case empty_desk).commands ≡ [])
    ⊎ ((x : Command) × ((reconcile_task (a_world true) a_case empty_desk).commands ≡ x ∷ [])
        × Meets a_case x)
reconcile_task-Meets_example = reconcile_task-Meets (a_world true) a_case empty_desk
