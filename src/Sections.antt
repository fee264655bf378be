-- ===== src/Sections.antt =====
-- cli/task_sections.go and `appendLogEntry` of cli/move.go: the sections of a task file by their
-- byte offsets. The loop over offsets reads the lines of the text one by one, so it is a recursion on
-- those lines that carries the offset.
pub mod Bounds
pub mod Log
use task_board_tools.Base.{
  ℕ, suc, ◌+◌, Bool, true, false, ◌||◌, ◌&&◌, not, List, [], ◌∷◌, ◌++◌, Option, none, some, Text,
  codes, text_eq, if◌then◌else◌, take, drop, length, ◌==◌,
}
use task_board_tools.Strings.{has_prefix, trim_suffix, trim_right, split}

-- The half-open range of a section, and where its body starts.
pub record TaskSectionRange : Type 0 where
  pub start : ℕ
  pub body_start : ℕ
  pub stop : ℕ

-- `strings.TrimRight(line, " \t")`
unfoldable pub normalize_heading : Text → Text
unfolding trim_right
normalize_heading line = trim_right (λ c. c == b' ' || c == 9) line

unfoldable pub fence_marker : Text → Option Text
unfolding has_prefix
fence_marker line =
    if has_prefix line (codes "```")
    then some (codes "```")
    else if has_prefix line (codes "~~~")
    then some (codes "~~~")
    else none

-- The fence that is open after a line with marker `m`: `inFence` with `fenceMarker`.
abbrev pub next_fence : Option Text → Text → Option Text
next_fence none m = some m
next_fence (some open_) m = if text_eq m open_ then none else some open_

abbrev is_open : Option Text → Bool
is_open none = false
is_open (some _) = true

-- What a line asks of the loop: a new fence state, the start of a section, or nothing.
pub data LineKind : Type 0 where
  marker : Text → LineKind
  heading : Text → LineKind
  other : LineKind

unfoldable pub line_kind : Option Text → Text → LineKind
line_kind fence raw =
    let line = trim_suffix raw (codes "\r") in
    elim (fence_marker line) [
      | some m ↦ marker m
      | none ↦
          if not (is_open fence) && has_prefix line (codes "## ")
          then heading (normalize_heading line)
          else other
    ]

-- Where the next line starts; behind the last line, the end of the text.
abbrev pub next_offset : ℕ → ℕ → Text → List Text → ℕ
next_offset len offset line [] = len
next_offset len offset line (_ ∷ _) = offset + length line + 1

-- The loop once a section has been found: it ends at the next heading.
unfoldable pub find_end : ℕ → List Text → ℕ → Option Text → ℕ
find_end len [] offset fence = len
find_end len (line ∷ lines) offset fence =
    let next = next_offset len offset line lines in
    let marked = λ (m : Text). find_end len lines next (next_fence fence m) in
    let rest = find_end len lines next fence in
    elim (line_kind fence line) [ marker m ↦ marked m | heading _ ↦ offset | other ↦ rest ]

-- The loop before that.
unfoldable pub find_start :
    (Text → Bool) → ℕ → List Text → ℕ → Option Text → Option TaskSectionRange
find_start matches len [] offset fence = none
find_start matches len (line ∷ lines) offset fence =
    let next = next_offset len offset line lines in
    let marked = λ (m : Text). find_start matches len lines next (next_fence fence m) in
    let rest = find_start matches len lines next fence in
    elim (line_kind fence line) [
      | marker m ↦ marked m
      | heading h ↦
          if matches h
          then some
              (record { start = offset; body_start = next; stop = find_end len lines next fence })
          else rest
      | other ↦ rest
    ]

-- The loop over `offset < len(content)` does not visit the empty line behind a last line feed, nor
-- does that line count as a heading.
unfoldable pub find_section_where : Text → (Text → Bool) → Option TaskSectionRange
find_section_where content matches =
    find_start matches (length content) (split content b'\n') 0 none

unfoldable pub find_task_section : Text → Text → Option TaskSectionRange
find_task_section content wanted =
    find_section_where content (λ line. text_eq line (normalize_heading wanted))

abbrev member : List Text → Text → Bool
member [] line = false
member (h ∷ hs) line = text_eq line (normalize_heading h) || member hs line

pub find_first_task_section : Text → List Text → Option TaskSectionRange
find_first_task_section content headings = find_section_where content (member headings)

-- `strings.TrimRight(s, "\n")`
unfoldable pub trim_newlines : Text → Text
unfolding trim_right
trim_newlines = trim_right (λ c. c == b'\n')

abbrev pub log_at : Text → Text → Option TaskSectionRange → Text
log_at content entry none = content ++ (codes "\n## Log\n\n" ++ entry)
log_at content entry (some r) =
    trim_newlines (take r.stop content)
    ++ (codes "\n" ++ (entry ++ (codes "\n" ++ drop r.stop content)))

-- `appendLogEntry`, with the masking of credentials as an argument.
unfoldable pub append_log_entry : (Text → Text) → Text → Text → Text
append_log_entry redact_line content entry =
    log_at content (redact_line entry) (find_task_section content (codes "## Log"))
