-- ===== src/SectionEdit.antt =====
-- `upsertTaskSection` of cli/edit.go: the text of one section is replaced, or put in its place. The loops
-- over offsets read the lines of the text one by one, so they are recursions on those lines that carry
-- the offset.
pub mod Ranges
pub mod Kept
use task_board_tools.Base.{
  ℕ, ◌+◌, Bool, false, ◌||◌, ◌&&◌, not, List, [], ◌∷◌, ◌++◌, Option, none, some, Text, codes,
  text_eq, if◌then◌else◌, take, drop, length, any,
}
use task_board_tools.Strings.{has_prefix, trim_suffix, trim_space, split}
use task_board_tools.Sections.{trim_newlines}

-- `markdownSectionRange`
pub record SectionRange : Type 0 where
  pub start : ℕ
  pub stop : ℕ

abbrev pub is_one_of : List Text → Text → Bool
is_one_of headings line = any (λ h. text_eq h line) headings

-- `taskMarkdownHeadings`
unfoldable pub task_headings : List Text
task_headings =
    codes "## Goal"
    ∷ codes "## Context"
    ∷ codes "## Constraints"
    ∷ codes "## Subtasks"
    ∷ codes "## Acceptance Criteria"
    ∷ codes "## User Attention"
    ∷ codes "## Review Target"
    ∷ codes "## Reviewer Notes"
    ∷ codes "## Review Findings"
    ∷ codes "## Related Tasks"
    ∷ codes "## Attachments"
    ∷ codes "## Log"
    ∷ []

unfoldable pub is_markdown_fence : Text → Bool
is_markdown_fence line = has_prefix line (codes "```") || has_prefix line (codes "~~~")

-- A line without its line feed, as the loops compare it.
unfoldable pub bare : Text → Text
bare line = trim_space (trim_suffix line (codes "\r"))

-- The offset of the first of some headings outside fences: `findFirstMarkdownHeading`, and
-- `findNextTaskMarkdownHeading`, which starts behind a heading.
unfoldable pub find_heading : List Text → List Text → ℕ → Bool → Option ℕ
find_heading wanted [] offset in_fence = none
find_heading wanted (line ∷ lines) offset in_fence =
    let fenced = find_heading wanted lines (offset + length line + 1) (not in_fence) in
    let rest = find_heading wanted lines (offset + length line + 1) in_fence in
    if is_markdown_fence (bare line)
    then fenced
    else if not in_fence && is_one_of wanted (bare line)
    then some offset
    else rest

abbrev pub or_end : ℕ → Option ℕ → ℕ
or_end len none = len
or_end len (some n) = n

-- The loop of `findMarkdownSections`.
unfoldable pub sections_from : Text → ℕ → List Text → ℕ → Bool → List SectionRange
unfolding find_heading
sections_from heading len [] offset in_fence = []
sections_from heading len (line ∷ lines) offset in_fence =
    let next = offset + length line + 1 in
    let fenced = sections_from heading len lines next (not in_fence) in
    let rest = sections_from heading len lines next in_fence in
    if is_markdown_fence (bare line)
    then fenced
    else if not in_fence && text_eq heading (bare line)
    then record { start = offset; stop = or_end len (find_heading task_headings lines next false) }
      ∷ rest
    else rest

unfoldable pub find_markdown_sections : Text → Text → List SectionRange
unfolding sections_from
find_markdown_sections content heading =
    sections_from heading (length content) (split content b'\n') 0 false

unfoldable pub find_first_markdown_heading : Text → List Text → Option ℕ
unfolding find_heading
find_first_markdown_heading content headings = find_heading headings (split content b'\n') 0 false

unfoldable pub markdown_section_block : Text → Text → Text
markdown_section_block heading body = heading ++ (codes "\n\n" ++ (body ++ codes "\n\n"))

unfoldable pub insert_markdown_section_before : Text → ℕ → Text → Text
insert_markdown_section_before content idx block =
    let before = trim_newlines (take idx content) in
    if text_eq before []
    then block ++ drop idx content
    else before ++ (codes "\n\n" ++ (block ++ drop idx content))

unfoldable pub append_markdown_section : Text → Text → Text
append_markdown_section content block =
    let trimmed = trim_newlines content in
    if text_eq trimmed []
    then trim_newlines block ++ codes "\n"
    else trimmed ++ (codes "\n\n" ++ (trim_newlines block ++ codes "\n"))

-- `content[from:to]`
abbrev pub slice : Text → ℕ → ℕ → Text
slice content from to = drop from (take to content)

-- The loop of `replaceAndRemoveDuplicateSections`, from the cursor on.
unfoldable pub without_sections : Text → ℕ → List SectionRange → Text
without_sections content cursor [] = drop cursor content
without_sections content cursor (r ∷ rs) =
    slice content cursor r.start ++ without_sections content r.stop rs

unfoldable pub should_coalesce : Text → Bool
should_coalesce heading =
    text_eq heading (codes "## Context") || text_eq heading (codes "## Constraints")

-- Before which headings a new section goes, if one of them is there.
unfoldable pub anchors : Text → List Text
anchors heading =
    let log = codes "## Log" ∷ [] in
    let tail = codes "## Related Tasks" ∷ codes "## Attachments" ∷ log in
    let findings = codes "## Review Findings" ∷ tail in
    let notes = codes "## Reviewer Notes" ∷ findings in
    let review = codes "## Review Target" ∷ notes in
    let criteria = codes "## Acceptance Criteria" ∷ codes "## User Attention" ∷ review in
    if text_eq heading (codes "## Goal")
    then codes "## Context"
      ∷ codes "## Constraints"
      ∷ codes "## Acceptance Criteria"
      ∷ codes "## User Attention"
      ∷ tail
    else if text_eq heading (codes "## Context")
    then codes "## Constraints" ∷ criteria
    else if text_eq heading (codes "## Constraints")
    then criteria
    else if text_eq heading (codes "## Acceptance Criteria")
    then codes "## User Attention" ∷ tail
    else if text_eq heading (codes "## User Attention")
    then review
    else if text_eq heading (codes "## Review Target")
    then notes
    else if text_eq heading (codes "## Reviewer Notes")
    then findings
    else if text_eq heading (codes "## Review Findings")
    then tail
    else if text_eq heading (codes "## Attachments")
    then log
    else []

abbrev pub place_new : Text → Text → Option ℕ → Text
place_new content block none = append_markdown_section content block
place_new content block (some idx) = insert_markdown_section_before content idx block

-- What happens to the sections that are there already.
abbrev pub replace_sections : Text → Text → Text → List SectionRange → Text
replace_sections content heading block [] =
    place_new content block (find_first_markdown_heading content (anchors heading))
replace_sections content heading block (r ∷ rs) =
    if should_coalesce heading
    then take r.start content ++ (block ++ without_sections content r.stop rs)
    else take r.start content ++ (block ++ drop r.stop content)

unfoldable pub upsert_task_section : Text → Text → Text → Text
unfolding find_markdown_sections
upsert_task_section content heading body =
    replace_sections content heading (markdown_section_block heading body)
      (find_markdown_sections content heading)
