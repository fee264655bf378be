-- ===== src/Review/Verdict.antt =====
-- `tb review --pass`, `--fail` and the edits of the review sections, of cli/review.go. Each command has
-- one locked section that writes the task file; pass and fail have a second one, which moves the task.
use task_board_tools.Base.{
  Bool, true, false, ◌&&◌, not, List, [], ◌∷◌, ◌++◌, Option, none, some, Text, codes, text_eq,
  if◌then◌else◌, ◌==◌,
}
use task_board_tools.Strings.{split, join, trim_space}
use task_board_tools.Status.{Status, ready, code_review, done, all_status_dirs, status_eq}
use task_board_tools.Task.{tags}
use task_board_tools.Tags.{add_tag}
use task_board_tools.Sections.{append_log_entry}
use task_board_tools.SectionEdit.{upsert_task_section}
use task_board_tools.Metadata.{set_field, clear_field}
use task_board_tools.Board.{
  Result, ok, err, TaskRef, resolve_task_ref, read_ref, parse_task_ref, wrong_source, no_body,
}
use task_board_tools.Gates.{Config, expected_source_guard}
use task_board_tools.Move.{
  Disk, M, ◌>>=◌, ◌>>◌, pure, check, log_line, write_markdown, move_task, move_task_with_guard,
  cleanup_orphan,
}
use task_board_tools.Ready.{Others, meanwhile}
use task_board_tools.Review.{failed_tag}

-- Line ends of any kind become line feeds; the first argument is whether a carriage return was last.
unfoldable pub line_feeds : Bool → Text → Text
line_feeds after_return [] = []
line_feeds after_return (c ∷ s) =
    let returned = line_feeds true s in
    let rest = line_feeds false s in
    if c == 13 then b'\n' ∷ returned else if c == b'\n' && after_return then rest else c ∷ rest

unfoldable pub drop_blank : List Text → List Text
drop_blank [] = []
drop_blank (line ∷ lines) =
    let rest = drop_blank lines in if text_eq (trim_space line) [] then rest else line ∷ lines

abbrev pub drop_blank_last : Text → List Text → List Text
drop_blank_last line [] = if text_eq (trim_space line) [] then [] else line ∷ []
drop_blank_last line (l ∷ ls) = line ∷ l ∷ ls

unfoldable pub drop_blank_end : List Text → List Text
drop_blank_end [] = []
drop_blank_end (line ∷ lines) = drop_blank_last line (drop_blank_end lines)

unfoldable pub trim_blank_lines : Text → Text
unfolding line_feeds drop_blank drop_blank_end
trim_blank_lines content =
    join (drop_blank_end (drop_blank (split (line_feeds false content) b'\n'))) (codes "\n")

abbrev pub strip_first : Text → Text → List Text → Text
strip_first heading body [] = body
strip_first heading body (line ∷ lines) =
    if text_eq (trim_space line) heading then trim_blank_lines (join lines (codes "\n")) else body

-- `stripLeadingReviewHeading`, for the heading of a label.
unfoldable pub strip_leading_heading : Text → Text → Text
strip_leading_heading body heading = strip_first heading body (split body b'\n')

-- `readReviewBodyInput`; `input` is what the file or the standard input holds, if it can be read.
unfoldable pub read_review_body : Text → Option Text → Result Text
unfolding trim_blank_lines strip_leading_heading
read_review_body heading none = err no_body
read_review_body heading (some input) =
    let body = strip_leading_heading (trim_blank_lines input) heading in
    if text_eq (trim_space body) [] then err no_body else ok body

abbrev pub findings_heading : Text
findings_heading = codes "## Review Findings"

-- The task of a review, which must stand in code-review.
abbrev pub in_review : TaskRef → Result TaskRef
in_review ref = if status_eq ref.status code_review then ok ref else err wrong_source

abbrev pub then_in_review : Result TaskRef → Result TaskRef
then_in_review (err e) = err e
then_in_review (ok ref) = in_review ref

-- `reviewWritePassMetadata`
unfoldable pub write_pass_metadata : Config → Disk → Text → Text → M Bool
write_pass_metadata c d id body = do
  ref ← check (λ b. then_in_review (resolve_task_ref c.prefix b id all_status_dirs))
  content ← check (λ b. read_ref b ref)
  write_markdown d ref.form ref.status ref.id (upsert_task_section content findings_heading body)

abbrev pub pass_message : Status → Text
pass_message _ = codes "Passed code review"

-- `reviewPass`; the result tells whether the task was moved.
unfoldable pub review_pass : Config → Disk → Others → (Text → Text) → Text → Option Text → M Bool
unfolding write_pass_metadata
review_pass c d others redact_text id input = do
  body ← check (λ _. read_review_body findings_heading input)
  write_pass_metadata c d id (redact_text body)
  meanwhile others
  r ←
      move_task_with_guard c d id done (some (expected_source_guard (code_review ∷ [])))
        pass_message
  pure (not r.noop)

-- The lines of a task whose review has failed.
abbrev pub failed_lines : List Text → Text → List Text
failed_lines lines old_tags =
    let new_tags = add_tag old_tags failed_tag in
    clear_field
      (if text_eq new_tags old_tags then lines else set_field lines (codes "Tags") new_tags)
      (codes "AgentStatus")

-- `reviewWriteFailMetadata`
unfoldable pub write_fail_metadata : Config → Disk → Text → Text → M Bool
write_fail_metadata c d id body = do
  ref ← check (λ b. then_in_review (resolve_task_ref c.prefix b id all_status_dirs))
  content ← check (λ b. read_ref b ref)
  t ← check (λ b. parse_task_ref c.prefix b ref)
  write_markdown d ref.form ref.status ref.id (
      upsert_task_section (join (failed_lines (split content b'\n') (t.meta tags)) (codes "\n"))
        findings_heading body)

-- The dash in UTF-8.
abbrev pub fail_message : Text
fail_message =
    codes "Failed code review "
    ++ (226 ∷ 128 ∷ 148 ∷ codes " moved to ready with review-failed marker")

-- `reviewFail`
unfoldable pub review_fail : Config → Disk → Others → (Text → Text) → Text → Option Text → M Bool
unfolding write_fail_metadata
review_fail c d others redact_text id input = do
  body ← check (λ _. read_review_body findings_heading input)
  write_fail_metadata c d id (redact_text body)
  meanwhile others
  r ← move_task c d id ready fail_message
  pure (not r.noop)

-- `reviewWriteSection`, with the heading, its name in the log and the masked body.
unfoldable pub write_section : Config → Disk → Text → Text → Text → Text → M Bool
write_section c d id heading label body = do
  ref ← check (λ b. resolve_task_ref c.prefix b id all_status_dirs)
  content ← check (λ b. read_ref b ref)
  write_markdown d ref.form ref.status ref.id (
      append_log_entry d.redact_line (upsert_task_section content heading body)
        (log_line d (codes "Edited " ++ label)))
  cleanup_orphan d ref.status ref.id
