-- ===== src/Triage/Laws.antt =====
-- When a task needs no grooming.
use task_board_tools.Base.{
  false, [], ◌≡◌, ◌≢◌, ◌↔◌, arith, Text, codes, text_eq_iff, Option, none, some, take, drop, ◌-◌,
  refl,
}
use task_board_tools.Task.{Task, priority, task_module}
use task_board_tools.Sections.{TaskSectionRange, find_task_section}
use task_board_tools.Triage.{
  check_needs_grooming, has_placeholder_section, placeholder_body, is_placeholder,
}
use task_board_tools.Strings.{contains, trim_space}

-- The text of a section without its heading.
abbrev pub section_body : Text → TaskSectionRange → Text
section_body content r = take (r.stop - r.body_start) (drop r.body_start content)

-- The text has the section, and its body says more than that it is to be filled.
abbrev pub IsFilled : Text → Text → Type 0
IsFilled content heading =
    (r : TaskSectionRange) × (find_task_section content heading ≡ some r)
    × (trim_space (section_body content r) ≢ [])
    × (trim_space (section_body content r) ≢ codes "(to be filled)")
    × (trim_space (section_body content r) ≢ codes "- [ ] (to be filled)")

-- The texts of a body that is still to be filled.
is_placeholder_iff :
    (body : Text)
    → (is_placeholder body ≡ false)
      ↔ ((body ≢ []) × (body ≢ codes "(to be filled)") × (body ≢ codes "- [ ] (to be filled)"))
is_placeholder_iff body = ground (
  arith,
  text_eq_iff body [],
  text_eq_iff body (codes "(to be filled)"),
  text_eq_iff body (codes "- [ ] (to be filled)"),
)

reasons_iff :
    (content : Text) (t : Task)
    → (check_needs_grooming content t ≡ []) ↔ (
        (t.meta priority ≢ [])
        × (t.meta task_module ≢ [])
        × (has_placeholder_section content (codes "## Goal") ≡ false)
        × (has_placeholder_section content (codes "## Acceptance Criteria") ≡ false)
        × (contains content (codes "Created by `tb scan`") ≡ false))
unfolding check_needs_grooming
reasons_iff content t =
    ground (arith, text_eq_iff (t.meta priority) [], text_eq_iff (t.meta task_module) [])

is_filled :
    (content : Text) (found : Option TaskSectionRange)
    → (placeholder_body content found ≡ false) ↔ (
        (r : TaskSectionRange) × (found ≡ some r)
        × (trim_space (section_body content r) ≢ [])
        × (trim_space (section_body content r) ≢ codes "(to be filled)")
        × (trim_space (section_body content r) ≢ codes "- [ ] (to be filled)"))
is_filled content none = (λ h. absurd (ground arith), λ h. absurd (ground arith))
is_filled content (some r) =
    let body = is_placeholder_iff (trim_space (section_body content r)) in
    (
      λ h. let (full, unfilled, unticked) = body.0 h in (r, refl, full, unfilled, unticked),
      λ h.
          let (r', same, full, unfilled, unticked) = h in
          let at : r ≡ r' = ground arith in body.1 (rw at (full, unfilled, unticked)),
    )

has_placeholder_section-IsFilled :
    (content heading : Text)
    → (has_placeholder_section content heading ≡ false) ↔ IsFilled content heading
unfolding has_placeholder_section
has_placeholder_section-IsFilled content heading =
    is_filled content (find_task_section content heading)

-- A task needs no grooming exactly when it has a priority and a module, when its file has a section for
-- the goal and one for the acceptance criteria whose bodies are neither blank nor the text that is to be
-- filled, and when the mark of a scan occurs nowhere in the file.
pub check_needs_grooming_iff :
    (content : Text) (t : Task)
    → (check_needs_grooming content t ≡ []) ↔ (
        (t.meta priority ≢ [])
        × (t.meta task_module ≢ [])
        × IsFilled content (codes "## Goal")
        × IsFilled content (codes "## Acceptance Criteria")
        × (contains content (codes "Created by `tb scan`") ≡ false))
check_needs_grooming_iff content t =
    let goal = has_placeholder_section-IsFilled content (codes "## Goal") in
    let criteria = has_placeholder_section-IsFilled content (codes "## Acceptance Criteria") in
    let reasons = reasons_iff content t in
    (
      λ h. let (p, m, g, a, scanned) = reasons.0 h in (p, m, goal.0 g, criteria.0 a, scanned),
      λ h. let (p, m, g, a, scanned) = h in reasons.1 (p, m, goal.1 g, criteria.1 a, scanned),
    )
