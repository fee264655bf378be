-- ===== src/Edit.antt =====
-- `tb edit` of cli/edit.go: the flags and their values, and what they change in a task file.
pub mod Command
pub mod Refused
pub mod Applied
pub mod Renamed
pub mod Given
pub mod Bodies
pub mod Written
pub mod Done
pub mod Values
use task_board_tools.Base.{
  List, [], ◌∷◌, ◌++◌, Option, none, some, Text, codes, text_eq, if◌then◌else◌,
}
use task_board_tools.Strings.{trim_space, to_lower, to_upper, equal_fold}
use task_board_tools.Board.{Result, ok, err, ◌>>=◌, bad_flag}
use task_board_tools.SectionEdit.{is_one_of}

-- The values of the flags as they are given; an empty one is not given.
pub record EditFlags : Type 0 where
  pub priority : Text
  pub type_name : Text
  pub size : Text
  pub module_name : Text
  pub tags : Text
  pub agent : Text
  pub agent_status : Text
  pub groomed_by : Text
  pub groom_status : Text
  pub implemented_by : Text
  pub implement_status : Text
  pub reviewed_by : Text
  pub review_status : Text
  pub review_ref : Text
  pub title : Text

-- `editChange`
pub record EditChange : Type 0 where
  pub field : Text
  pub value : Text
  pub label : Text

abbrev pub valid_priorities : List Text
valid_priorities = codes "P0" ∷ codes "P1" ∷ codes "P2" ∷ codes "P3" ∷ []

abbrev pub valid_types : List Text
valid_types =
    codes "feature" ∷ codes "bug" ∷ codes "tech-debt" ∷ codes "improvement" ∷ codes "spike" ∷ []

abbrev pub valid_sizes : List Text
valid_sizes = codes "S" ∷ codes "M" ∷ codes "L" ∷ codes "XL" ∷ []

abbrev pub valid_agents : List Text
valid_agents = codes "claude" ∷ codes "codex" ∷ []

abbrev pub valid_agent_statuses : List Text
valid_agent_statuses =
    codes "queued"
    ∷ codes "running"
    ∷ codes "success"
    ∷ codes "failed"
    ∷ codes "cancelled"
    ∷ codes "interrupted"
    ∷ codes "lost"
    ∷ codes "needs-user"
    ∷ []

abbrev pub or_none : List Text → List Text
or_none values = codes "none" ∷ values

-- A value of a flag, in the case of its list, as a change of a field; no change if it is not given.
unfoldable pub enum_change :
    List Text → (Text → Text) → Text → Text → Text → Result (List EditChange)
enum_change valid in_case field name raw =
    let v = in_case raw in
    if text_eq raw []
    then ok []
    else if is_one_of valid v
    then ok (record { field = field; value = v; label = name ++ b'=' ∷ v } ∷ [])
    else err bad_flag

-- A free text, masked first.
unfoldable pub text_change : (Text → Text) → Text → Text → Text → List EditChange
text_change redact_line field name raw =
    if text_eq raw []
    then []
    else if text_eq (redact_line raw) []
    then []
    else record { field = field; value = redact_line raw; label = name ++ b'=' ∷ redact_line raw }
      ∷ []

unfoldable pub review_ref_change : (Text → Text) → Text → Result (List EditChange)
review_ref_change redact_line raw =
    let trimmed = trim_space raw in
    let value = if equal_fold trimmed (codes "none") then codes "none" else redact_line trimmed in
    if text_eq raw []
    then ok []
    else if text_eq trimmed []
    then err bad_flag
    else ok (
        record { field = codes "ReviewRef"; value = value; label = codes "reviewref=" ++ value }
        ∷ [])

unfoldable pub new_title : (Text → Text) → Text → Result (Option Text)
new_title redact_line raw =
    if text_eq raw []
    then ok none
    else if text_eq (trim_space raw) []
    then err bad_flag
    else ok (some (redact_line (trim_space raw)))

-- All changes, in the order of the flags; the first invalid value ends the command.
unfoldable pub collect_changes : (Text → Text) → EditFlags → Result (List EditChange)
unfolding enum_change text_change review_ref_change
collect_changes redact_line f = do
  p ← enum_change valid_priorities to_upper (codes "Priority") (codes "priority") f.priority
  t ← enum_change valid_types to_lower (codes "Type") (codes "type") f.type_name
  s ← enum_change valid_sizes to_upper (codes "Size") (codes "size") f.size
  a ← enum_change (or_none valid_agents) to_lower (codes "Agent") (codes "agent") f.agent
  st ←
      enum_change (or_none valid_agent_statuses) to_lower (codes "AgentStatus")
        (codes "agentstatus") f.agent_status
  gb ←
      enum_change (or_none valid_agents) to_lower (codes "GroomedBy") (codes "groomed-by")
        f.groomed_by
  ib ←
      enum_change (or_none valid_agents) to_lower (codes "ImplementedBy") (codes "implemented-by")
        f.implemented_by
  rb ←
      enum_change (or_none valid_agents) to_lower (codes "ReviewedBy") (codes "reviewed-by")
        f.reviewed_by
  gs ←
      enum_change (or_none valid_agent_statuses) to_lower (codes "GroomStatus")
        (codes "groom-status") f.groom_status
  is ←
      enum_change (or_none valid_agent_statuses) to_lower (codes "ImplementStatus")
        (codes "implement-status") f.implement_status
  rs ←
      enum_change (or_none valid_agent_statuses) to_lower (codes "ReviewStatus")
        (codes "review-status") f.review_status
  rr ← review_ref_change redact_line f.review_ref
  ok (
      p
      ++ t
      ++ s
      ++ text_change redact_line (codes "Module") (codes "module") f.module_name
      ++ text_change redact_line (codes "Tags") (codes "tags") f.tags
      ++ a
      ++ st
      ++ gb
      ++ gs
      ++ ib
      ++ is
      ++ rb
      ++ rs
      ++ rr)
