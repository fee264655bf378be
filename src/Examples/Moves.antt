-- ===== src/Examples/Moves.antt =====
-- Moves on a board with one folder task, `PR-1`, whose orphaned file form is still there.
use task_board_tools.Sections.{
  find_task_section, append_log_entry, find_section_where, normalize_heading, find_start,
  trim_newlines, line_kind, find_end, fence_marker,
}
use task_board_tools.Strings.Decimal.{atoi, is_digit}
use task_board_tools.Metadata.{
  clear_field, field_index, metadata_start, find_field, metadata_end, count_blank, has_field,
  count_filled,
}
use task_board_tools.Triage.{check_needs_grooming, has_placeholder_section}
use task_board_tools.Strings.{
  equal_fold, to_lower, contains, split, lower, has_prefix, cut_at, join, after_prefix, trim_prefix,
  trim_space, trim_right, is_space, trim_left, has_suffix, to_upper, upper, trim_suffix,
}
use task_board_tools.Base.{
  if◌then◌else◌, true, false, [], ◌∷◌, none, some, refl, Text, codes, text_eq, ◌≡◌, ◌⊎◌, List, ◌++◌,
}
use task_board_tools.Status.{
  Status, backlog, ready, status_eq, done, in_progress, numeric_id, priority_rank, status_name,
  all_status_dirs,
}
use task_board_tools.Board.{
  Board, file, resolve_task_refs_for_id, resolve_task_ref_in_status, resolve_form, slot_at,
  place_eq, read_ref, TaskRef, ok, write_failed, discover_task_refs, discover_from,
  discover_in_status, collect_refs, add_unseen, sort_by, resolve_task_ref, parse_task_ref,
  insert_by, discover_entry, put, is_task_dir_name, is_task_file, Entry, absent, folder_form,
  empty_slot,
}
use task_board_tools.Gates.{
  Config, resolve_move_source, ensure_move_destination_free, enforce_wip_limit_for_mode,
  wip_limit_guard, collect_tasks, wip_limit_for, parse_refs, compose_guards, expected_source_guard,
  wip_limit_guard_for_mode, ensure_review_ref, task_destination_exists, normalize_review_ref,
  enforce_wip_limit, em_dash,
}
use task_board_tools.Move.{
  Disk, TaskMove, move_task_with_guard, move_checks, move_writes, cleanup_orphan, rename_task,
  write_markdown,
}
use task_board_tools.Move.Success.{MoveDone, move_task_done, Checked}
use task_board_tools.Ready.{
  Others, promote_to_ready, pull_ready_task, command_move, pick_next_ready_task,
  clear_ready_agent_status,
}
use task_board_tools.Gates.Wip.{Room}
use task_board_tools.Ready.Guarded.{Pulled, pull_ready_task_lem, move_message, command_move_lem}
use task_board_tools.Ready.Promote.{Promoted, promote_to_ready_lem}
use task_board_tools.Task.{
  parse_task_file, parse_lines, parse_task_header, first_field, extract_field_any, field_name,
  drop_last_empty, scan_lines, header_rest, span_digits,
}
use task_board_tools.Gates.Source.{OnlyAt}
use task_board_tools.Ready.Pick.{Next, pick_next_ready_task_lem}
use task_board_tools.Move.Errors.{Kept, move_error_keeps}
use task_board_tools.Board.Lookup.{Complete, resolve_refs-Complete}
use task_board_tools.Board.Slots.{slot_at-put}

abbrev pub example_config : Config
example_config = record { prefix = codes "PR"; wip_limits = λ _. 1; strict = true }

abbrev pub example_disk : Disk
example_disk = record {
  mkdir_ok = true;
  remove_ok = true;
  rename_ok = true;
  write_ok = true;
  today = codes "2026-01-02";
  redact_line = λ s. s;
}

abbrev full_disk : Disk
full_disk = record example_disk { write_ok = false }

abbrev task_text : Text
task_text =
    codes "# PR-1: F\n**Priority:** P1\n**Module:** m\n\n## Goal\nx\n## Acceptance Criteria\ny\n"

abbrev example_board : Status → Board
example_board status =
    record {
      status = status;
      id = codes "PR-1";
      slot = record { file_form = file (codes "old"); folder = some (file task_text) };
    }
    ∷ []

abbrev example_message : Status → Text
example_message _ = codes "Moved"

abbrev board_after : Board
board_after =
    (move_task_with_guard example_config example_disk (codes "PR-1") ready none example_message
      (example_board backlog)).0

abbrev from_backlog : TaskMove
from_backlog = record { src_status = backlog; noop = false }

move_task_done_example :
    MoveDone example_config example_disk
      (codes "PR-1")
      ready
      none
      example_message
      (example_board backlog)
      board_after
      from_backlog
unfolding move_task_with_guard resolve_move_source resolve_task_refs_for_id
    resolve_task_ref_in_status resolve_form slot_at place_eq status_eq text_eq move_checks
    ensure_move_destination_free read_ref move_writes cleanup_orphan rename_task write_markdown
move_task_done_example =
    move_task_done example_config example_disk (codes "PR-1") ready none example_message
      (example_board backlog) board_after from_backlog refl refl

abbrev board_failed : Board
board_failed =
    (move_task_with_guard example_config full_disk (codes "PR-1") ready none example_message
      (example_board backlog)).0

move_error_keeps_example :
    (board_failed ≡ example_board backlog)
    ⊎ ((src : TaskRef) × (content : Text) × OnlyAt (example_board backlog) (codes "PR-1") src
        × Checked example_config full_disk
            (codes "PR-1")
            ready
            none
            src
            (example_board backlog)
            content
        × Kept board_failed (codes "PR-1") src ready content)
unfolding move_task_with_guard resolve_move_source resolve_task_refs_for_id
    resolve_task_ref_in_status resolve_form slot_at place_eq status_eq text_eq move_checks
    ensure_move_destination_free read_ref move_writes cleanup_orphan rename_task write_markdown
move_error_keeps_example =
    move_error_keeps example_config full_disk (codes "PR-1") ready none example_message
      (example_board backlog) board_failed write_failed refl

-- Another process finishes a task meanwhile.
abbrev pub example_others : Others
example_others b =
    record {
      status = done;
      id = codes "PR-2";
      slot = record { file_form = file (codes "x"); folder = none };
    }
    ∷ b

abbrev pub finished_elsewhere : Entry
finished_elsewhere = record {
  status = done;
  id = codes "PR-2";
  slot = record { file_form = file (codes "x"); folder = none };
}

abbrev promoted_text : Text
promoted_text =
    task_text
    ++ (codes "\n## Log\n\n- 2026-01-02: Committed " ++ (em_dash ++ codes " moved to ready\n"))

abbrev board_promoted : Board
board_promoted =
    finished_elsewhere
    ∷ finished_elsewhere
    ∷ record {
      status = backlog;
      id = codes "PR-1";
      slot = record { file_form = absent; folder = none };
    }
    ∷ record {
      status = ready;
      id = codes "PR-1";
      slot = record { file_form = absent; folder = some (file promoted_text) };
    }
    ∷ []

promote_to_ready_lem_example :
    Promoted example_config example_disk example_others example_others false
      (codes "PR-1")
      (example_board backlog)
      board_promoted
unfolding promote_to_ready resolve_task_ref discover_task_refs parse_task_ref read_ref
    enforce_wip_limit_for_mode move_task_with_guard discover_from equal_fold parse_task_file
    check_needs_grooming slot_at wip_limit_for collect_tasks resolve_move_source compose_guards
    expected_source_guard wip_limit_guard_for_mode clear_ready_agent_status discover_in_status
    add_unseen text_eq to_lower parse_lines scan_lines has_placeholder_section contains place_eq
    sort_by numeric_id parse_refs resolve_task_refs_for_id move_checks move_writes status_eq split
    clear_field collect_refs lower parse_task_header drop_last_empty trim_suffix find_task_section
    has_prefix insert_by cut_at resolve_task_ref_in_status ensure_move_destination_free rename_task
    write_markdown append_log_entry join field_index discover_entry header_rest after_prefix
    first_field trim_prefix trim_space find_section_where normalize_heading atoi resolve_form
    ensure_review_ref task_destination_exists cleanup_orphan metadata_start find_field metadata_end
    span_digits extract_field_any field_name trim_right is_space trim_left find_start
    normalize_review_ref put trim_newlines count_blank has_field count_filled is_task_dir_name
    is_task_file is_digit line_kind find_end has_suffix fence_marker
promote_to_ready_lem_example =
    promote_to_ready_lem example_config example_disk example_others example_others false
      (codes "PR-1") (example_board backlog) board_promoted refl

abbrev board_pulled : Board
board_pulled =
    (pull_ready_task example_config example_disk example_others none (example_board ready)).0

pull_ready_task_lem_example :
    Pulled example_config example_disk none
      (example_board ready)
      (example_others (example_board ready))
      board_pulled
unfolding pull_ready_task enforce_wip_limit pick_next_ready_task resolve_task_ref
    enforce_wip_limit_for_mode collect_tasks move_task_with_guard status_eq discover_task_refs
    wip_limit_for sort_by numeric_id parse_refs resolve_move_source compose_guards
    expected_source_guard wip_limit_guard discover_from equal_fold insert_by priority_rank cut_at
    parse_task_ref resolve_task_refs_for_id move_checks move_writes wip_limit_guard_for_mode
    discover_in_status add_unseen text_eq to_lower to_upper atoi read_ref parse_task_file
    resolve_task_ref_in_status ensure_move_destination_free rename_task write_markdown collect_refs
    lower upper slot_at parse_lines resolve_form ensure_review_ref task_destination_exists
    cleanup_orphan discover_entry place_eq parse_task_header normalize_review_ref put after_prefix
    first_field trim_prefix trim_space is_task_dir_name has_prefix is_task_file extract_field_any
    field_name trim_right is_space trim_left has_suffix drop_last_empty split trim_suffix
pull_ready_task_lem_example =
    pull_ready_task_lem example_config example_disk example_others none (example_board ready)
      board_pulled refl

abbrev board_moved : Board
board_moved =
    (command_move example_config example_disk example_others (codes "PR-1") in_progress
      (example_board ready)).0

abbrev from_ready : TaskMove
from_ready = record { src_status = ready; noop = false }

command_move_lem_example :
    MoveDone example_config example_disk
      (codes "PR-1")
      in_progress
      (some (wip_limit_guard example_config))
      (move_message in_progress)
      (example_others (example_board ready))
      board_moved
      from_ready
    × Room example_config in_progress (example_others (example_board ready))
unfolding command_move enforce_wip_limit move_task_with_guard wip_limit_guard status_name
    enforce_wip_limit_for_mode resolve_move_source wip_limit_guard_for_mode wip_limit_for
    collect_tasks resolve_task_refs_for_id move_checks move_writes discover_task_refs sort_by
    numeric_id parse_refs resolve_task_ref_in_status status_eq ensure_move_destination_free read_ref
    rename_task write_markdown discover_from insert_by cut_at parse_task_ref resolve_form slot_at
    ensure_review_ref task_destination_exists cleanup_orphan discover_in_status add_unseen atoi
    parse_task_file place_eq text_eq normalize_review_ref put collect_refs parse_lines trim_space
    discover_entry parse_task_header trim_right is_space trim_left after_prefix first_field
    trim_prefix is_task_dir_name has_prefix is_task_file extract_field_any field_name has_suffix
command_move_lem_example =
    command_move_lem example_config example_disk example_others (codes "PR-1") in_progress
      (example_board ready) board_moved from_ready refl refl refl

pick_next_ready_task_lem_example :
    (refs : List TaskRef) × (discover_task_refs example_config.prefix
        (example_board ready)
        (ready ∷ [])
      ≡ ok refs)
    × Next example_config (example_board ready) refs (some (codes "PR-1"))
unfolding pick_next_ready_task collect_tasks sort_by discover_task_refs numeric_id parse_refs
    insert_by priority_rank discover_from cut_at parse_task_ref text_eq to_upper discover_in_status
    add_unseen atoi read_ref parse_task_file upper collect_refs slot_at parse_lines status_eq
    discover_entry place_eq parse_task_header after_prefix first_field trim_prefix is_task_dir_name
    has_prefix is_task_file extract_field_any field_name has_suffix trim_space trim_right is_space
    trim_left drop_last_empty split trim_suffix
pick_next_ready_task_lem_example =
    pick_next_ready_task_lem example_config (example_board ready) (some (codes "PR-1")) refl

resolve_refs-Complete_example :
    Complete
      (example_board ready)
      (codes "PR-1")
      all_status_dirs
      (record { id = codes "PR-1"; status = ready; form = folder_form } ∷ [])
unfolding resolve_task_refs_for_id resolve_task_ref_in_status resolve_form slot_at place_eq
    status_eq text_eq
resolve_refs-Complete_example =
    resolve_refs-Complete (example_board ready) (codes "PR-1") all_status_dirs
      (record { id = codes "PR-1"; status = ready; form = folder_form } ∷ []) refl

abbrev example_ref : TaskRef
example_ref = record { id = codes "PR-1"; status = ready; form = folder_form }

abbrev reviewed_text : Text
reviewed_text = codes "# PR-1: F\n**ReviewRef:** abc\n"

abbrev reviewed_board : Board
reviewed_board =
    record {
      status = ready;
      id = codes "PR-1";
      slot = record { file_form = absent; folder = some (file reviewed_text) };
    }
    ∷ []

slot_at-put_example :
    slot_at (put (example_board ready) ready (codes "PR-1") empty_slot) ready (codes "PR-1") ≡ (
      if place_eq ready (codes "PR-1") ready (codes "PR-1")
      then empty_slot
      else slot_at (example_board ready) ready (codes "PR-1"))
slot_at-put_example =
    slot_at-put (example_board ready) ready (codes "PR-1") empty_slot ready (codes "PR-1")
