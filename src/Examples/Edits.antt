-- ===== src/Examples/Edits.antt =====
-- An edit of the metadata and the title of a task.
use task_board_tools.Automation.Tasks.{erase}
use task_board_tools.Metadata.{
  clear_field, set_field, field_index, metadata_start, find_field, metadata_end, count_blank,
  has_field, count_filled, insert_line,
}
use task_board_tools.SectionEdit.{
  upsert_task_section, markdown_section_block, find_markdown_sections, find_first_markdown_heading,
  anchors, should_coalesce, without_sections, sections_from, append_markdown_section,
  insert_markdown_section_before, find_heading, is_markdown_fence, bare, task_headings,
}
use task_board_tools.Task.{parse_task_header, header_rest, span_digits, extract_field_any}
use task_board_tools.Review.Verdict.{
  strip_leading_heading, trim_blank_lines, drop_blank_end, drop_blank, line_feeds,
}
use task_board_tools.Sections.{
  append_log_entry, find_task_section, trim_newlines, find_section_where, normalize_heading,
  find_start, line_kind, find_end, fence_marker,
}
use task_board_tools.Move.{write_markdown, cleanup_orphan}
use task_board_tools.Strings.Decimal.{value, is_digit, atoi}
use task_board_tools.Strings.{
  to_upper, to_lower, upper, lower, trim_space, equal_fold, trim_right, is_space, trim_left, split,
  join, has_prefix, after_prefix, cut_at, trim_suffix, trim_prefix, has_suffix,
}
use task_board_tools.Base.{[], ◌∷◌, some, refl, codes, ◌≡◌, false, text_eq}
use task_board_tools.Board.{
  Board, resolve_task_ref, read_ref, discover_task_refs, slot_at, discover_from, place_eq,
  discover_in_status, add_unseen, put, collect_refs, sort_by, discover_entry, insert_by,
  is_task_dir_name, is_task_file, file, write_failed,
}
use task_board_tools.Status.{backlog, status_eq, numeric_id}
use task_board_tools.Move.{Disk}
use task_board_tools.Edit.Refused.{OnlyBeside, edit_task-OnlyBeside}
use task_board_tools.Examples.Moves.{example_config, example_disk}
use task_board_tools.Examples.Reviews.{file_entry}
use task_board_tools.Edit.{
  EditFlags, collect_changes, enum_change, review_ref_change, text_change, new_title,
}
use task_board_tools.Edit.Command.{
  edit_task, EditInput, BodySources, collect_bodies, edit_locked, body_edit, apply_title,
  edited_text, applied_labels, read_body_edit, replace_task_title, apply_bodies, apply_changes,
  apply_change,
}

abbrev edited_board : Board
edited_board = file_entry backlog (codes "# PR-1: F\n**Priority:** P2\n**Agent:** codex\n") ∷ []

abbrev some_flags : EditFlags
some_flags = record {
  priority = codes "p1";
  type_name = [];
  size = [];
  module_name = [];
  tags = [];
  agent = codes "none";
  agent_status = [];
  groomed_by = [];
  groom_status = [];
  implemented_by = [];
  implement_status = [];
  reviewed_by = [];
  review_status = [];
  review_ref = [];
  title = codes "G";
}

abbrev goal_only : BodySources
goal_only = record {
  goal = codes "g";
  context = [];
  constraints = [];
  acceptance = [];
  user_attention = [];
}

abbrev files : EditInput
files = record { input = λ _. some (codes "done"); redact_text = λ t. t }

-- What is then in the file.
edited_markdown :
    (edit_task example_config example_disk files (codes "PR-1") some_flags goal_only edited_board).0
    ≡ file_entry backlog (
        codes
          "# PR-1: G\n**Priority:** P1\n\n## Goal\n\ndone\n\n## Log\n\n- 2026-01-02: Edited priority=P1, agent=none, title=G, goal\n")
      ∷ []
unfolding edit_task collect_changes new_title collect_bodies edit_locked enum_change to_upper
    to_lower review_ref_change text_change text_eq trim_space body_edit resolve_task_ref read_ref
    apply_title split edited_text applied_labels value upper lower equal_fold trim_right is_space
    trim_left read_body_edit discover_task_refs slot_at replace_task_title write_markdown
    append_log_entry join cleanup_orphan apply_bodies apply_changes strip_leading_heading
    trim_blank_lines discover_from place_eq has_prefix parse_task_header find_task_section
    upsert_task_section apply_change drop_blank_end drop_blank line_feeds discover_in_status
    add_unseen status_eq header_rest after_prefix put trim_newlines find_section_where
    normalize_heading markdown_section_block find_markdown_sections clear_field set_field
    collect_refs sort_by numeric_id span_digits erase find_start find_first_markdown_heading anchors
    should_coalesce without_sections sections_from field_index discover_entry insert_by cut_at
    is_digit line_kind find_end append_markdown_section insert_markdown_section_before find_heading
    is_markdown_fence bare task_headings metadata_start find_field metadata_end atoi trim_suffix
    fence_marker count_blank has_field count_filled insert_line is_task_dir_name is_task_file
    trim_prefix extract_field_any has_suffix
edited_markdown = refl

-- A disk on which a file can be written, but none can be removed, and a task with a file beside its
-- folder.
abbrev stuck_disk : Disk
stuck_disk = record example_disk { remove_ok = false }

abbrev doubled_board : Board
doubled_board =
    record {
      status = backlog;
      id = codes "PR-1";
      slot = record {
        file_form = file (codes "old");
        folder = some (file (codes "# PR-1: F\n**Agent:** codex\n"));
      };
    }
    ∷ []

edit_task-OnlyBeside_example :
    OnlyBeside example_config stuck_disk
      (codes "PR-1")
      doubled_board
      (edit_task example_config stuck_disk files
        (codes "PR-1")
        some_flags
        goal_only
        doubled_board).0
      write_failed
unfolding edit_task collect_changes new_title collect_bodies edit_locked enum_change to_upper
    to_lower review_ref_change text_change text_eq trim_space body_edit resolve_task_ref read_ref
    apply_title split edited_text applied_labels value upper lower equal_fold trim_right is_space
    trim_left read_body_edit discover_task_refs slot_at replace_task_title write_markdown
    append_log_entry join cleanup_orphan apply_bodies apply_changes strip_leading_heading
    trim_blank_lines discover_from place_eq has_prefix parse_task_header find_task_section
    upsert_task_section apply_change drop_blank_end drop_blank line_feeds discover_in_status
    add_unseen status_eq header_rest after_prefix put trim_newlines find_section_where
    normalize_heading markdown_section_block find_markdown_sections clear_field set_field
    collect_refs sort_by numeric_id span_digits erase find_start find_first_markdown_heading anchors
    should_coalesce without_sections sections_from field_index discover_entry insert_by cut_at
    is_digit line_kind find_end append_markdown_section insert_markdown_section_before find_heading
    is_markdown_fence bare task_headings metadata_start find_field metadata_end atoi trim_suffix
    fence_marker count_blank has_field count_filled insert_line is_task_dir_name is_task_file
    trim_prefix extract_field_any has_suffix
edit_task-OnlyBeside_example =
    edit_task-OnlyBeside example_config stuck_disk files (codes "PR-1") some_flags goal_only
      doubled_board
      (edit_task example_config stuck_disk files (codes "PR-1") some_flags goal_only
        doubled_board).0
      write_failed refl
