-- ===== src/Examples/Reviews.antt =====
-- A task that failed its review is submitted once more.
use task_board_tools.Strings.Decimal.{atoi, is_digit, value}
use task_board_tools.Metadata.{
  clear_field, set_field, field_index, metadata_start, find_field, metadata_end, count_blank,
  has_field, count_filled, insert_line,
}
use task_board_tools.Sections.{
  append_log_entry, find_task_section, trim_newlines, find_section_where, normalize_heading,
  find_start, line_kind, find_end, fence_marker,
}
use task_board_tools.Move.{
  move_task, move_task_with_guard, write_markdown, move_checks, move_writes, rename_task,
  cleanup_orphan,
}
use task_board_tools.Gates.{
  ensure_review_ref, normalize_review_ref, resolve_move_source, ensure_move_destination_free,
  task_destination_exists,
}
use task_board_tools.Strings.{
  split, equal_fold, trim_space, to_lower, trim_suffix, trim_right, is_space, trim_left, lower,
  after_prefix, trim_prefix, join, cut_at, has_prefix, has_suffix,
}
use task_board_tools.Task.{
  parse_task_file, parse_lines, scan_lines, parse_task_header, drop_last_empty, header_rest,
  first_field, span_digits, extract_field_any, field_name,
}
use task_board_tools.Tags.{has_tag, remove_tag, kept_tags}
use task_board_tools.Base.{[], ◌∷◌, ◌++◌, none, refl, Text, codes, text_eq}
use task_board_tools.Status.{Status, ready, code_review, numeric_id, status_eq}
use task_board_tools.Board.{
  Board, Entry, absent, file, resolve_task_ref, parse_task_ref, discover_task_refs, read_ref,
  discover_from, slot_at, discover_in_status, add_unseen, place_eq, collect_refs, sort_by,
  discover_entry, insert_by, resolve_task_refs_for_id, put, resolve_task_ref_in_status,
  is_task_dir_name, is_task_file, resolve_form,
}
use task_board_tools.Examples.Moves.{
  example_config, example_disk, example_others, finished_elsewhere,
}
use task_board_tools.Review.{review_submit, clear_failed_marker}
use task_board_tools.Review.Submit.{Submitted, review_submit_lem}

abbrev pub file_entry : Status → Text → Entry
file_entry status text = record {
  status = status;
  id = codes "PR-1";
  slot = record { file_form = file text; folder = none };
}

abbrev failed_text : Text
failed_text = codes "# PR-1: F\n**Tags:** review-failed\n**ReviewRef:** a\n"

abbrev submitted_text : Text
submitted_text =
    codes "# PR-1: F\n**ReviewRef:** a\n"
    ++ (codes "\n## Log\n\n- 2026-01-02: Cleared review-failed marker on resubmit\n"
        ++ codes "- 2026-01-02: Submitted to code-review\n\n")

abbrev failed_board : Board
failed_board = file_entry ready failed_text ∷ []

abbrev submitted_board : Board
submitted_board =
    finished_elsewhere
    ∷ finished_elsewhere
    ∷ record {
      status = ready;
      id = codes "PR-1";
      slot = record { file_form = absent; folder = none };
    }
    ∷ file_entry code_review submitted_text
    ∷ []

review_submit_lem_example :
    Submitted example_config example_disk example_others example_others
      (codes "PR-1")
      failed_board
      submitted_board
unfolding review_submit resolve_task_ref parse_task_ref has_tag discover_task_refs read_ref
    parse_task_file split ensure_review_ref discover_from equal_fold slot_at parse_lines scan_lines
    trim_space text_eq normalize_review_ref clear_failed_marker move_task discover_in_status
    add_unseen to_lower place_eq parse_task_header drop_last_empty trim_suffix trim_right is_space
    trim_left remove_tag move_task_with_guard collect_refs sort_by numeric_id lower status_eq
    header_rest after_prefix first_field trim_prefix write_markdown append_log_entry join kept_tags
    resolve_move_source discover_entry insert_by cut_at span_digits extract_field_any field_name
    find_task_section clear_field set_field resolve_task_refs_for_id move_checks move_writes atoi
    is_digit put trim_newlines find_section_where normalize_heading field_index value
    resolve_task_ref_in_status ensure_move_destination_free rename_task is_task_dir_name has_prefix
    is_task_file find_start metadata_start find_field metadata_end resolve_form
    task_destination_exists cleanup_orphan has_suffix line_kind find_end count_blank has_field
    count_filled insert_line fence_marker
review_submit_lem_example =
    review_submit_lem example_config example_disk example_others example_others (codes "PR-1")
      failed_board submitted_board refl
