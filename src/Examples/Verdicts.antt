-- ===== src/Examples/Verdicts.antt =====
-- A review that is passed, and the sections of a task file that it edits.
use task_board_tools.Strings.Decimal.{atoi, is_digit}
use task_board_tools.Task.{
  parse_task_file, parse_lines, scan_lines, parse_task_header, drop_last_empty, header_rest,
  first_field, span_digits, extract_field_any, field_name,
}
use task_board_tools.Automation.Tasks.{erase}
use task_board_tools.Gates.{
  expected_source_guard, resolve_move_source, ensure_move_destination_free, ensure_review_ref,
  task_destination_exists, normalize_review_ref,
}
use task_board_tools.Move.{
  move_task_with_guard, write_markdown, move_checks, move_writes, rename_task, cleanup_orphan,
}
use task_board_tools.Sections.{
  trim_newlines, append_log_entry, find_task_section, find_section_where, normalize_heading,
  find_start, line_kind, find_end, fence_marker,
}
use task_board_tools.Strings.{
  split, has_prefix, trim_space, trim_suffix, trim_right, is_space, trim_left, trim_prefix,
  after_prefix, join, equal_fold, to_lower, lower, cut_at, has_suffix,
}
use task_board_tools.Base.{[], ◌∷◌, some, refl, Text, codes, text_eq, ◌≡◌, length}
use task_board_tools.Status.{code_review, status_eq, numeric_id}
use task_board_tools.Board.{
  Board, resolve_task_ref, read_ref, discover_task_refs, slot_at, resolve_task_refs_for_id,
  discover_from, place_eq, put, resolve_task_ref_in_status, discover_in_status, add_unseen,
  resolve_form, collect_refs, sort_by, parse_task_ref, discover_entry, insert_by, is_task_dir_name,
  is_task_file,
}
use task_board_tools.Examples.Moves.{example_config, example_disk, example_others}
use task_board_tools.Examples.Reviews.{file_entry}
use task_board_tools.Review.Verdict.{
  review_pass, read_review_body, write_pass_metadata, strip_leading_heading, trim_blank_lines,
  drop_blank_end, drop_blank, line_feeds,
}
use task_board_tools.Review.Passed.{Passed, review_pass-Passed}
use task_board_tools.SectionEdit.{
  find_markdown_sections, upsert_task_section, markdown_section_block, find_first_markdown_heading,
  anchors, should_coalesce, without_sections, sections_from, append_markdown_section,
  insert_markdown_section_before, find_heading, is_markdown_fence, bare, task_headings,
}
use task_board_tools.SectionEdit.Ranges.{InOrder, find_markdown_sections-InOrder}
use task_board_tools.SectionEdit.Kept.{Edited, replaced, upsert_task_section-Edited}

abbrev reviewed_board : Board
reviewed_board = file_entry code_review (codes "# PR-1: F\n**ReviewRef:** a\n") ∷ []

abbrev findings : Text
findings = codes "\nfine\n"

review_pass-Passed_example :
    Passed example_config example_disk example_others
      (λ t. t)
      (codes "PR-1")
      (some findings)
      reviewed_board
      (review_pass example_config example_disk example_others
        (λ t. t)
        (codes "PR-1")
        (some findings)
        reviewed_board).0
unfolding review_pass read_review_body write_pass_metadata move_task_with_guard
    expected_source_guard strip_leading_heading trim_blank_lines text_eq trim_space resolve_task_ref
    read_ref write_markdown upsert_task_section resolve_move_source status_eq split join
    drop_blank_end drop_blank line_feeds trim_right is_space trim_left discover_task_refs slot_at
    markdown_section_block find_markdown_sections resolve_task_refs_for_id move_checks move_writes
    discover_from equal_fold place_eq put find_first_markdown_heading anchors should_coalesce
    without_sections sections_from resolve_task_ref_in_status ensure_move_destination_free
    rename_task append_log_entry discover_in_status add_unseen to_lower erase
    append_markdown_section insert_markdown_section_before find_heading is_markdown_fence bare
    task_headings resolve_form ensure_review_ref task_destination_exists cleanup_orphan
    find_task_section collect_refs sort_by numeric_id lower trim_newlines has_prefix trim_suffix
    parse_task_ref normalize_review_ref find_section_where normalize_heading discover_entry
    insert_by cut_at trim_prefix parse_task_file find_start atoi after_prefix parse_lines scan_lines
    line_kind find_end is_task_dir_name is_task_file parse_task_header drop_last_empty fence_marker
    has_suffix header_rest first_field span_digits extract_field_any field_name is_digit
review_pass-Passed_example =
    review_pass-Passed example_config example_disk example_others (λ t. t) (codes "PR-1")
      (some findings) reviewed_board
      (review_pass example_config example_disk example_others (λ t. t) (codes "PR-1")
        (some findings) reviewed_board).0
      refl

-- Two sections of one heading, one of them behind a fence.
abbrev two_contexts : Text
two_contexts = codes "# T\n## Context\na\n```\n## Context\n```\n## Context\nb\n## Log\n"

find_markdown_sections-InOrder_example :
    InOrder 0 (length two_contexts) (find_markdown_sections two_contexts (codes "## Context"))
unfolding task_headings text_eq
find_markdown_sections-InOrder_example =
    find_markdown_sections-InOrder two_contexts (codes "## Context") refl

upsert_task_section-Edited_example :
    Edited two_contexts
      (markdown_section_block (codes "## Context") (codes "c"))
      (replaced (codes "## Context") (find_markdown_sections two_contexts (codes "## Context")))
      (upsert_task_section two_contexts (codes "## Context") (codes "c"))
upsert_task_section-Edited_example =
    upsert_task_section-Edited two_contexts (codes "## Context") (codes "c")

merged :
    upsert_task_section two_contexts (codes "## Context") (codes "c")
    ≡ codes "# T\n## Context\n\nc\n\n## Log\n"
unfolding upsert_task_section markdown_section_block find_markdown_sections
    find_first_markdown_heading anchors should_coalesce without_sections sections_from split
    append_markdown_section insert_markdown_section_before find_heading text_eq is_markdown_fence
    bare task_headings trim_newlines has_prefix trim_space trim_suffix trim_right is_space trim_left
    trim_prefix after_prefix
merged = refl
