-- ===== src/Review.antt =====
-- `tb review --submit` of cli/review.go. What it reads before it takes a lock is one step; other
-- processes may write before each of its two locked sections.
pub mod Submit
pub mod Lines
pub mod Body
pub mod Marker
pub mod Verdict
pub mod Passed
use task_board_tools.Base.{
  Bool, true, false, ◌||◌, ◌&&◌, not, List, [], ◌∷◌, ◌++◌, Option, none, some, Text, codes, text_eq,
  if◌then◌else◌,
}
use task_board_tools.Strings.{split, join}
use task_board_tools.Status.{
  Status, backlog, ready, in_progress, code_review, done, archive, all_status_dirs,
}
use task_board_tools.Task.{Task, tags}
use task_board_tools.Tags.{has_tag, remove_tag}
use task_board_tools.Sections.{append_log_entry}
use task_board_tools.Metadata.{set_field, clear_field}
use task_board_tools.Board.{
  Board, Result, ok, err, TaskRef, resolve_task_ref, read_ref, parse_task_ref, wrong_source,
}
use task_board_tools.Gates.{Config, ensure_review_ref}
use task_board_tools.Move.{
  Disk, M, ◌>>=◌, ◌>>◌, pure, check, log_line, write_markdown, move_task, TaskMove,
}
use task_board_tools.Ready.{Others, meanwhile}

abbrev pub failed_tag : Text
failed_tag = codes "review-failed"

abbrev pub is_rework : Status → Bool
is_rework backlog = true
is_rework ready = true
is_rework in_progress = false
is_rework code_review = false
is_rework done = false
is_rework archive = false

-- Whether the task goes on, stands in code-review already, or is refused.
abbrev pub submittable : Status → Bool → Result Bool
submittable in_progress failed = ok true
submittable code_review failed = ok false
submittable ready failed = if failed then ok true else err wrong_source
submittable backlog failed = if failed then ok true else err wrong_source
submittable done failed = err wrong_source
submittable archive failed = err wrong_source

abbrev pub untagged_lines : List Text → Text → List Text
untagged_lines lines new_tags =
    if text_eq new_tags []
    then clear_field lines (codes "Tags")
    else set_field lines (codes "Tags") new_tags

abbrev pub write_untagged : Disk → TaskRef → Text → Text → Text → M Bool
write_untagged d ref content old_tags new_tags =
    if text_eq new_tags old_tags
    then pure true
    else write_markdown d ref.form ref.status ref.id (
        append_log_entry d.redact_line
          (join (untagged_lines (split content b'\n') new_tags) (codes "\n"))
          (log_line d (codes "Cleared review-failed marker on resubmit")))

-- `reviewClearFailedMarker`
unfoldable pub clear_failed_marker : Config → Disk → TaskRef → M Bool
clear_failed_marker c d ref = do
  content ← check (λ b. read_ref b ref)
  t ← check (λ b. parse_task_ref c.prefix b ref)
  write_untagged d ref content (t.meta tags) (remove_tag (t.meta tags) failed_tag)

abbrev pub clear_marker : Config → Disk → TaskRef → Task → M Bool
clear_marker c d ref t =
    if is_rework ref.status && has_tag (t.meta tags) failed_tag
    then clear_failed_marker c d ref
    else pure true

abbrev pub submit_move : Config → Disk → Others → Text → M Bool
submit_move c d later id = do
  meanwhile later
  r ← move_task c d id code_review (codes "Submitted to code-review")
  pure (not r.noop)

abbrev pub submit_from : Config → Disk → Others → Others → Text → TaskRef → Task → Bool → M Bool
submit_from c d others later id ref t false = pure false
submit_from c d others later id ref t true = do
  check (λ b. ensure_review_ref c b ref)
  check (λ b. read_ref b ref)
  meanwhile others
  clear_marker c d ref t
  submit_move c d later id

-- `reviewSubmit`; the result tells whether the task was moved. The warning about a missing target
-- section is left out, the reading of the file for it is not.
unfoldable pub review_submit : Config → Disk → Others → Others → Text → M Bool
review_submit c d others later id = do
  ref ← check (λ b. resolve_task_ref c.prefix b id all_status_dirs)
  t ← check (λ b. parse_task_ref c.prefix b ref)
  go_on ← check (λ _. submittable ref.status (has_tag (t.meta tags) failed_tag))
  submit_from c d others later id ref t go_on
