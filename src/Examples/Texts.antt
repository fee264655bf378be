-- ===== src/Examples/Texts.antt =====
-- Theorems about one text or one list.
use task_board_tools.Strings.{
  split, trim_suffix, has_prefix, trim_prefix, trim_right, after_prefix, trim_space,
}
use task_board_tools.Sections.{
  find_section_where, find_start, line_kind, find_end, fence_marker, normalize_heading,
  TaskSectionRange, append_log_entry, find_task_section,
}
use task_board_tools.Base.{
  false, List, [], ◌∷◌, ◌++◌, some, ◌≡◌, ◌↔◌, refl, Text, codes, text_eq, ℕ, ◌⊎◌, ◌≤◌, All, length,
  arith,
}
use task_board_tools.EpicOrder.{
  Task, Result, eligible_for_epic_order, contains_tag, still_open, scan_siblings, skipped,
  is_closed, wants_user,
}
use task_board_tools.EpicOrder.Laws.{
  eligible_iff, eligible_for_epic_order-Blocker, Blocker, IsFinished,
}
use task_board_tools.Metadata.Laws.{FieldLine, set_field_lem, clear_field_lem}
use task_board_tools.Metadata.Search.{Lacking, metadata_lines}
use task_board_tools.Task.{extract_field_any}
use task_board_tools.Status.{done}
use task_board_tools.Sections.Log.{Logged, append_log_entry_conserves}
use task_board_tools.Metadata.{field_line, clear_field, set_field}
use task_board_tools.Status.Laws.{status_rank-injective}
use task_board_tools.Sections.Bounds.{find_section_bounds}
use task_board_tools.Strings.Parts.{Lacks}

abbrev child : Text → ℕ → Text → Task
child id numeric status = record {
  id = id;
  numeric = numeric;
  parent = codes "PR-1";
  status = status;
  agent_status = [];
  tags = [];
}

abbrev second_child : Task
second_child = child (codes "PR-3") 3 (codes "backlog")

abbrev siblings : List Task
siblings = child (codes "PR-4") 4 (codes "ready") ∷ child (codes "PR-2") 2 (codes "ready") ∷ []

eligible_iff_example : (eligible_for_epic_order second_child siblings ≡ Result.eligible) ↔ (
    (contains_tag [] (codes "epic") ≡ false)
    × ((codes "PR-1" ≡ []) ⊎ All (IsFinished second_child) siblings))
eligible_iff_example = eligible_iff second_child siblings

eligible_for_epic_order-Blocker_example : Blocker second_child siblings (codes "PR-2")
unfolding eligible_for_epic_order contains_tag text_eq scan_siblings skipped is_closed wants_user
eligible_for_epic_order-Blocker_example =
    eligible_for_epic_order-Blocker second_child siblings (codes "PR-2") still_open refl refl

abbrev noted : Text
noted = codes "# PR-1: F\n**Tags:** a\n\n## Log\n- old\n## Rest\n"

append_log_entry_conserves_example :
    Logged noted
      (codes "- new\n")
      (append_log_entry (λ s. s) noted (codes "- new\n"))
      (find_task_section noted (codes "## Log"))
append_log_entry_conserves_example = append_log_entry_conserves (λ s. s) noted (codes "- new\n")

abbrev log_range : TaskSectionRange
log_range = record { start = 23; body_start = 30; stop = 36 }

find_section_bounds_example : (23 ≤ 30) × (30 ≤ 36) × (36 ≤ length noted)
unfolding find_section_where find_start split line_kind find_end text_eq trim_suffix fence_marker
    has_prefix normalize_heading trim_prefix trim_right after_prefix
find_section_bounds_example =
    find_section_bounds noted (λ l. text_eq l (codes "## Log")) log_range refl

epic_letters : Lacks b',' (codes "epic")
epic_letters = (
  (λ e. omega (arith, e)),
  ((λ e. omega (arith, e)), ((λ e. omega (arith, e)), ((λ e. omega (arith, e)), tt))),
)

status_rank-injective_example : done ≡ done
status_rank-injective_example = status_rank-injective done done refl

abbrev meta_lines : List Text
meta_lines =
    codes "# PR-1: F" ∷ codes "**Priority:** P1" ∷ codes "**Branch:** b" ∷ [] ∷ codes "## Goal" ∷ []

set_field_lem_example :
    (extract_field_any (field_line (codes "Priority") (codes "P2")) (codes "Priority")
      ≡ some (trim_space (codes "P2")))
    × (((f : FieldLine meta_lines (codes "Priority")) × (set_field meta_lines
              (codes "Priority")
              (codes "P2")
            ≡ f.before ++ field_line (codes "Priority") (codes "P2") ∷ f.after))
        ⊎ ((before : List Text) × (after : List Text) × (meta_lines ≡ before ++ after)
            × Lacking (codes "Priority") (metadata_lines meta_lines)
            × (set_field meta_lines (codes "Priority") (codes "P2")
                ≡ before ++ field_line (codes "Priority") (codes "P2") ∷ after)))
set_field_lem_example = set_field_lem meta_lines (codes "Priority") (codes "P2")

clear_field_lem_example :
    ((f : FieldLine meta_lines (codes "Priority")) × (clear_field meta_lines (codes "Priority")
        ≡ f.before ++ f.after))
    ⊎ (Lacking (codes "Priority") (metadata_lines meta_lines)
        × (clear_field meta_lines (codes "Priority") ≡ meta_lines))
clear_field_lem_example = clear_field_lem meta_lines (codes "Priority")
