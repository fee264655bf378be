-- ===== src/Triage.antt =====
-- `checkNeedsGrooming` of cli/triage.go: why a task is not ready to be worked on.
pub mod Laws
use task_board_tools.Base.{
  Bool, true, false, ◌||◌, List, [], ◌∷◌, ◌++◌, Option, none, some, Text, codes, text_eq, take,
  drop, ◌-◌,
}
use task_board_tools.Strings.{trim_space, contains}
use task_board_tools.Sections.{TaskSectionRange, find_task_section}
use task_board_tools.Task.{Task, priority, task_module}

pub data GroomingReason : Type 0 where
  no_priority no_module no_goal no_acceptance_criteria auto_created : GroomingReason

abbrev pub is_placeholder : Text → Bool
is_placeholder body =
    text_eq body []
    || (text_eq body (codes "(to be filled)") || text_eq body (codes "- [ ] (to be filled)"))

-- `content[section.bodyStart:section.end]`, trimmed.
abbrev pub placeholder_body : Text → Option TaskSectionRange → Bool
placeholder_body content none = true
placeholder_body content (some r) =
    is_placeholder (trim_space (take (r.stop - r.body_start) (drop r.body_start content)))

unfoldable pub has_placeholder_section : Text → Text → Bool
has_placeholder_section content heading =
    placeholder_body content (find_task_section content heading)

abbrev pub reason_if : Bool → GroomingReason → List GroomingReason
reason_if true r = r ∷ []
reason_if false r = []

unfoldable pub check_needs_grooming : Text → Task → List GroomingReason
check_needs_grooming content t =
    reason_if (text_eq (t.meta priority) []) no_priority
    ++ (reason_if (text_eq (t.meta task_module) []) no_module
        ++ (reason_if (has_placeholder_section content (codes "## Goal")) no_goal
            ++ (reason_if (has_placeholder_section content (codes "## Acceptance Criteria"))
                  no_acceptance_criteria
                ++ reason_if (contains content (codes "Created by `tb scan`")) auto_created)))
