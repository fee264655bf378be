-- ===== src/Edit/Command.antt =====
-- What `tb edit` reads and writes: cli/edit.go.
use task_board_tools.Base.{
  ℕ, suc, Bool, true, false, ◌&&◌, List, [], ◌∷◌, ◌++◌, Option, none, some, Text, codes, text_eq,
  if◌then◌else◌, ltb, map, filter, length, zero,
}
use task_board_tools.Strings.{trim_space, split, join, has_prefix}
use task_board_tools.Status.{all_status_dirs}
use task_board_tools.Task.{
  parse_task_header, Header, header, malformed, no_header, max_metadata_lines,
}
use task_board_tools.Sections.{append_log_entry}
use task_board_tools.SectionEdit.{upsert_task_section, is_one_of}
use task_board_tools.Metadata.{set_field, clear_field}
use task_board_tools.Board.{
  Result, ok, err, TaskRef, resolve_task_ref, read_ref, no_body, no_changes, no_title_line,
  bad_flag,
}
use task_board_tools.Gates.{Config}
use task_board_tools.Move.{
  Disk, M, ◌>>=◌, ◌>>◌, pure, check, log_line, write_markdown, cleanup_orphan,
}
use task_board_tools.Review.Verdict.{trim_blank_lines, strip_leading_heading}
use task_board_tools.Edit.{EditFlags, EditChange, collect_changes, new_title}

-- `bodyEdit`
pub record BodyEdit : Type 0 where
  pub heading : Text
  pub body : Text
  pub label : Text

-- The sources of the five bodies, empty where none is given, in the order of the flags.
pub record BodySources : Type 0 where
  pub goal : Text
  pub context : Text
  pub constraints : Text
  pub acceptance : Text
  pub user_attention : Text

-- What the command reads and how it masks texts; `input` is what a file or, for `-`, the standard input
-- holds.
pub record EditInput : Type 0 where
  pub input : Text → Option Text
  pub redact_text : Text → Text

-- `readBodyEditInput`, with the heading that belongs to the label.
unfoldable pub read_body_edit : Option Text → Text → Result Text
read_body_edit none heading = err no_body
read_body_edit (some text) heading =
    let body = strip_leading_heading (trim_blank_lines text) heading in
    if text_eq (trim_space body) [] then err no_body else ok body

abbrev pub masked_edit : EditInput → Text → Text → Result Text → Result (List BodyEdit)
masked_edit i heading label (err e) = err e
masked_edit i heading label (ok body) =
    ok (record { heading = heading; body = i.redact_text body; label = label } ∷ [])

unfoldable pub body_edit : EditInput → Text → Text → Text → Result (List BodyEdit)
unfolding read_body_edit
body_edit i source heading label =
    if text_eq source []
    then ok []
    else masked_edit i heading label (read_body_edit (i.input source) heading)

abbrev pub append_edits : Result (List BodyEdit) → Result (List BodyEdit) → Result (List BodyEdit)
append_edits (err e) later = err e
append_edits (ok edits) (err e) = err e
append_edits (ok edits) (ok more) = ok (edits ++ more)

abbrev pub from_stdin : BodySources → List Text
from_stdin s =
    filter (λ t. text_eq t (codes "-"))
      (s.goal ∷ s.context ∷ s.constraints ∷ s.acceptance ∷ s.user_attention ∷ [])

unfoldable pub collect_bodies : EditInput → BodySources → Result (List BodyEdit)
unfolding body_edit
collect_bodies i s =
    if ltb 1 (length (from_stdin s))
    then err bad_flag
    else append_edits (body_edit i s.goal (codes "## Goal") (codes "goal")) (
        append_edits (body_edit i s.context (codes "## Context") (codes "context")) (
          append_edits (body_edit i s.constraints (codes "## Constraints") (codes "constraints")) (
            append_edits
              (body_edit i s.acceptance (codes "## Acceptance Criteria") (codes "acceptance"))
              (body_edit i s.user_attention (codes "## User Attention") (codes "user-attention")))))

-- `replaceTaskTitle`: the lines and the title before; the first `n` lines are searched.
abbrev pub retitle : Text → Text → Header → Result (Text × Text)
retitle new line (header id old) = ok (codes "# " ++ (id ++ (codes ": " ++ new)), old)
retitle new line malformed = err no_title_line
retitle new line no_header = err no_title_line

abbrev pub with_line : List Text → Result (Text × Text) → Result (List Text × Text)
with_line lines (err e) = err e
with_line lines (ok (line, old)) = ok (line ∷ lines, old)

abbrev pub onto_lines : Text → Result (List Text × Text) → Result (List Text × Text)
onto_lines line (err e) = err e
onto_lines line (ok (lines, old)) = ok (line ∷ lines, old)

unfoldable pub replace_task_title : Text → ℕ → List Text → Text → Result (List Text × Text)
replace_task_title prefix zero lines new = err no_title_line
replace_task_title prefix (suc n) [] new = err no_title_line
replace_task_title prefix (suc n) (line ∷ lines) new =
    let rest = replace_task_title prefix n lines new in
    if has_prefix (trim_space line) (codes "# " ++ (prefix ++ codes "-"))
    then with_line lines (retitle new line (parse_task_header prefix line))
    else onto_lines line rest

-- The lines with the new title, and whether it is another.
abbrev pub renamed : List Text → Text → Result (List Text × Text) → Result (List Text × Bool)
renamed lines new (err e) = err e
renamed lines new (ok (changed, old)) =
    if text_eq old new then ok (lines, false) else ok (changed, true)

unfoldable pub apply_title : Text → List Text → Option Text → Result (List Text × Bool)
unfolding replace_task_title
apply_title prefix lines none = ok (lines, false)
apply_title prefix lines (some new) =
    renamed lines new (replace_task_title prefix max_metadata_lines lines new)

abbrev pub clearable : List Text
clearable =
    codes "Agent"
    ∷ codes "AgentStatus"
    ∷ codes "ReviewRef"
    ∷ codes "GroomedBy"
    ∷ codes "GroomStatus"
    ∷ codes "ImplementedBy"
    ∷ codes "ImplementStatus"
    ∷ codes "ReviewedBy"
    ∷ codes "ReviewStatus"
    ∷ []

unfoldable pub apply_change : List Text → EditChange → List Text
apply_change lines c =
    if text_eq c.value (codes "none") && is_one_of clearable c.field
    then clear_field lines c.field
    else set_field lines c.field c.value

unfoldable pub apply_changes : List Text → List EditChange → List Text
unfolding apply_change
apply_changes lines [] = lines
apply_changes lines (c ∷ cs) = apply_changes (apply_change lines c) cs

unfoldable pub apply_bodies : Text → List BodyEdit → Text
apply_bodies content [] = content
apply_bodies content (e ∷ es) = apply_bodies (upsert_task_section content e.heading e.body) es

-- What is reported as changed, in order.
abbrev pub title_label : Option Text → Bool → List Text
title_label none _ = []
title_label (some new) true = (codes "title=" ++ new) ∷ []
title_label (some new) false = []

unfoldable pub applied_labels : List EditChange → Option Text → Bool → List BodyEdit → List Text
applied_labels changes title retitled bodies =
    map (λ (c : EditChange). c.label) changes
    ++ title_label title retitled
    ++ map (λ (e : BodyEdit). e.label) bodies

-- The text of the file, without the log entry.
unfoldable pub edited_text : List Text → List EditChange → List BodyEdit → Text
unfolding apply_changes apply_bodies
edited_text lines changes bodies =
    apply_bodies (join (apply_changes lines changes) (codes "\n")) bodies

-- The end of the command: nothing is written if nothing changes.
abbrev pub write_edit : Disk → TaskRef → Text → List Text → M Bool
write_edit d ref text [] = pure false
write_edit d ref text (label ∷ labels) = do
  write_markdown d ref.form ref.status ref.id (
      append_log_entry d.redact_line text
        (log_line d (codes "Edited " ++ join (label ∷ labels) (codes ", "))))
  cleanup_orphan d ref.status ref.id
  pure true

abbrev pub is_some_title : Option Text → Bool
is_some_title none = false
is_some_title (some _) = true

abbrev pub some_change : List EditChange → List BodyEdit → Option Text → Result Bool
some_change [] [] none = err no_changes
some_change [] [] (some title) = ok true
some_change [] (e ∷ es) title = ok true
some_change (c ∷ cs) bodies title = ok true

-- The part under the lock.
unfoldable pub edit_locked :
    Config → Disk → Text → List EditChange → List BodyEdit → Option Text → M Bool
unfolding apply_title applied_labels edited_text
edit_locked c d id changes bodies title = do
  ref ← check (λ b. resolve_task_ref c.prefix b id all_status_dirs)
  content ← check (λ b. read_ref b ref)
  titled ← check (λ _. apply_title c.prefix (split content b'\n') title)
  write_edit d ref (edited_text titled.0 changes bodies)
      (applied_labels changes title titled.1 bodies)

-- `cmdEdit` on a normalised ID; the result tells whether something was written.
unfoldable pub edit_task : Config → Disk → EditInput → Text → EditFlags → BodySources → M Bool
unfolding collect_changes collect_bodies edit_locked
edit_task c d i id flags sources = do
  changes ← check (λ _. collect_changes d.redact_line flags)
  title ← check (λ _. new_title d.redact_line flags.title)
  bodies ← check (λ _. collect_bodies i sources)
  check (λ _. some_change changes bodies title)
  edit_locked c d id changes bodies title
