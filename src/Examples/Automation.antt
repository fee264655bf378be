-- ===== src/Examples/Automation.antt =====
-- A scan with one crashed run and two ready tasks, on two workers and with a limit of two in progress.
use task_board_tools.Status.{status_eq}
use task_board_tools.Strings.Decimal.{atoi}
use task_board_tools.EpicOrder.{
  eligible_for_epic_order, contains_tag, scan_siblings, skipped, is_closed, wants_user,
}
use task_board_tools.Listing.{canonical_agents}
use task_board_tools.Strings.{
  split, trim_space, has_prefix, cut_at, trim_right, is_space, trim_left, to_lower, lower, to_upper,
  upper, has_suffix,
}
use task_board_tools.Base.{
  true, false, [], ◌∷◌, none, some, Text, codes, text_eq, ◌≡◌, ◌≤◌, ◌⊎◌, refl, arith, All,
  if◌then◌else◌, ◌-◌, pos, length, ◌↔◌, List,
}
use task_board_tools.Automation.Tasks.{
  BoardTask, Snapshot, rank_of, parse_numeric, epic_task_from_board_task, build_epicorder_siblings,
  cut_last, erase, look_up,
}
use task_board_tools.Automation.Implement.{
  Calls, starts_before, started, queued, pulled, resumed, candidate_pass, start_loop, resume_sweep,
  prune_resume_attempts, candidate_blocker, record_skip, start_round, resume_round,
  implement_gate_blocker, start_candidate, resume_owned, pull_and_run, act, try_auto_resume,
  run_ended, in_cooldown, resume_ended, resume_call,
}
use task_board_tools.Automation.Scan.{
  Inputs, Coordinator, scan, explicit_limit, has_explicit_wip, scan_board, started_from, swept,
}
use task_board_tools.Daemon.Counts.{count}
use task_board_tools.Automation.Query.{request, ls_request-normalize}
use task_board_tools.Listing.Flags.{ls_request}
use task_board_tools.Automation.Filter.{list_with_filter_args}
use task_board_tools.Automation.Gates.{scan-Allowed}
use task_board_tools.Automation.Gates.Rights.{Allowed}
use task_board_tools.Automation.Wip.{Always, Within, scan-Within}
use task_board_tools.Automation.Workers.{launches, scan-launches}
use task_board_tools.Automation.Filter.{
  AutoImplementFilter, normalize, clean_string_slice, is_empty,
}
use task_board_tools.Automation.Capacity.{active_set, remaining_capacity}
use task_board_tools.Board.{sort_by, insert_by, put, place_eq}
use task_board_tools.Daemon.{is_in}
use task_board_tools.Automation.Capacity.Laws.{IsNamed, remaining_capacity_lem}
use task_board_tools.Automation.Turns.{Turns, scan-Turns}
use task_board_tools.Automation.Pulls.{pulled_ids}
use task_board_tools.Strings.Parts.{any-Lacks}

abbrev pub a_task : Text → Text → Text → Text → BoardTask
a_task id status priority agent_status = record {
  id = id;
  status = status;
  priority = priority;
  parent = [];
  agent = codes "claude";
  agent_status = agent_status;
  implement_status = [];
  review_ref = [];
  tags = [];
}

abbrev crashed_task : BoardTask
crashed_task = a_task (codes "TB-1") (codes "in-progress") (codes "P1") (codes "interrupted")

abbrev later_task : BoardTask
later_task = a_task (codes "TB-2") (codes "ready") (codes "P2") []

abbrev urgent_task : BoardTask
urgent_task = a_task (codes "TB-3") (codes "ready") (codes "P0") []

abbrev a_snapshot : Snapshot
a_snapshot = record {
  backlog = [];
  ready = later_task ∷ urgent_task ∷ [];
  in_progress = crashed_task ∷ [];
  code_review = [];
  done = [];
  archive = [];
  wip_counts = λ s. if text_eq s (codes "in-progress") then 1 else 0;
  wip_limits = λ s. 2;
  wip_enforcement = codes "strict";
}

-- Every call succeeds.
abbrev willing : Calls
willing = record {
  has_active_run = λ id. false;
  initiated = λ id. some true;
  resume_agent = λ id. started;
  run_agent = λ id. started;
  client = true;
  set_agent = λ id. true;
  runner_for = λ agent. true;
  pull_task = λ id. true;
  move_to_ready = λ id. true;
}

abbrev some_query : AutoImplementFilter
some_query = record {
  wanted_search = [];
  wanted_types = [];
  wanted_priorities = codes "P0" ∷ codes " P2" ∷ [];
  wanted_modules = [];
  wanted_sizes = [];
  wanted_tags = [];
  wanted_agents = codes "Codex" ∷ [];
  wanted_parents = codes "7" ∷ [];
}

abbrev some_inputs : Inputs
some_inputs = record {
  services = true;
  enabled = true;
  query = some_query;
  default_agent = codes "codex";
  board = some a_snapshot;
  ready_tasks = some (later_task ∷ urgent_task ∷ []);
  triage = some [];
  config = some (codes "wip_limit_in_progress: 2");
  capacity = 2;
  now = 100;
}

abbrev fresh : Coordinator
fresh = record {
  needs_default = false;
  needs_query = false;
  skips = [];
  attempts = [];
  done_actions = [];
}

-- The crashed run and the urgent task take the two workers.
scan_starts :
    (scan willing some_inputs fresh).done_actions
    ≡ queued (codes "TB-3") ∷ pulled (codes "TB-3") ∷ resumed (codes "TB-1") ∷ []
unfolding scan is_empty scan_board text_eq trim_space started_from swept trim_right is_space
    trim_left candidate_pass start_loop explicit_limit sort_by starts_before resume_sweep
    prune_resume_attempts candidate_blocker record_skip start_round has_explicit_wip insert_by
    rank_of parse_numeric resume_round implement_gate_blocker eligible_for_epic_order
    epic_task_from_board_task build_epicorder_siblings put start_candidate split to_upper
    contains_tag cut_last resume_owned scan_siblings place_eq erase to_lower pull_and_run act
    has_prefix cut_at upper has_suffix atoi try_auto_resume skipped is_closed wants_user status_eq
    lower run_ended in_cooldown resume_ended resume_call look_up
scan_starts = refl

scan-launches_example : launches (scan willing some_inputs fresh).done_actions ≤ 2
scan-launches_example = scan-launches willing some_inputs fresh

scan-Within_example :
    Always
      (Within 1 (explicit_limit some_inputs a_snapshot))
      (scan willing some_inputs fresh).done_actions
unfolding explicit_limit has_explicit_wip split trim_space text_eq has_prefix cut_at trim_right
    is_space trim_left
scan-Within_example =
    scan-Within willing some_inputs fresh a_snapshot refl (omega arith) (omega arith)

scan-Allowed_example :
    All
      (Allowed willing (some []) a_snapshot (later_task ∷ urgent_task ∷ []))
      (scan willing some_inputs fresh).done_actions
scan-Allowed_example =
    scan-Allowed willing some_inputs fresh a_snapshot (later_task ∷ urgent_task ∷ []) refl refl

scan-Turns_example :
    (pulled_ids (scan willing some_inputs fresh).done_actions ≡ [])
    ⊎ ((flagged : List Text) × (snap : Snapshot) × (ready : List BoardTask) × (some_inputs.triage
          ≡ some flagged)
        × (some_inputs.board ≡ some snap)
        × (some_inputs.ready_tasks ≡ some ready)
        × Turns willing flagged snap ready (scan willing some_inputs fresh).done_actions)
scan-Turns_example = scan-Turns willing some_inputs fresh

ls_request-normalize_example :
    ls_request (codes "TB") (λ t. false) (list_with_filter_args [] (normalize some_query))
    ≡ some (request (codes "TB") [] (normalize some_query) (codes "codex" ∷ []))
unfolding normalize canonical_agents trim_space clean_string_slice to_lower trim_right is_space
    trim_left text_eq lower
ls_request-normalize_example =
    ls_request-normalize (codes "TB") (λ t. false) [] some_query
      (record {
        types = tt;
        priorities = (any-Lacks b',' (codes "P0") refl, (any-Lacks b',' (codes " P2") refl, tt));
        modules = tt;
        sizes = tt;
        tags = tt;
        agents = (any-Lacks b',' (codes "Codex") refl, tt);
        parents = (any-Lacks b',' (codes "7") refl, tt);
      })

remaining_capacity_lem_example :
    ((x : Text)
      → count x (active_set (some (pos 2, codes "TB-1" ∷ [])) (some (codes "TB-1" ∷ []))) ≤ 1)
    × ((x : Text)
        → (is_in (active_set (some (pos 2, codes "TB-1" ∷ [])) (some (codes "TB-1" ∷ []))) x ≡ true)
          ↔ (((is_in (codes "TB-1" ∷ []) x ≡ true) ⊎ (is_in (codes "TB-1" ∷ []) x ≡ true))
              × IsNamed x))
    × (remaining_capacity (some (pos 2, codes "TB-1" ∷ [])) (some (codes "TB-1" ∷ [])) none
        ≡ 2 - length (active_set (some (pos 2, codes "TB-1" ∷ [])) (some (codes "TB-1" ∷ []))))
    × (1 ≤ 2)
remaining_capacity_lem_example =
    remaining_capacity_lem (some (pos 2, codes "TB-1" ∷ [])) (some (codes "TB-1" ∷ [])) none
