-- ===== src/Metadata.antt =====
-- The metadata lines of a task file as `tb edit` writes them: cli/edit.go. A file is given by its
-- lines, `strings.Split(content, "\n")`; a slice of them is a `take` or a `drop`.
pub mod Search
pub mod Laws
use task_board_tools.Base.{
  ℕ, zero, suc, ◌+◌, ◌-◌, Bool, true, false, ◌||◌, List, [], ◌∷◌, ◌++◌, Option, none, some, Text,
  codes, text_eq, if◌then◌else◌, ltb, take, drop, length, is_some,
}
use task_board_tools.Strings.{has_prefix, trim_prefix, trim_space}
use task_board_tools.Task.{extract_field_any, max_metadata_lines}

-- `limit`
abbrev pub metadata_limit : List Text → ℕ
metadata_limit lines =
    if ltb max_metadata_lines (length lines) then max_metadata_lines else length lines

abbrev starts_with_title : List Text → Bool
starts_with_title [] = false
starts_with_title (line ∷ _) = has_prefix (trim_space line) (codes "# ")

-- How many of the next `n` lines are blank, from the first on.
unfoldable pub count_blank : ℕ → List Text → ℕ
count_blank zero lines = 0
count_blank (suc n) [] = 0
count_blank (suc n) (line ∷ lines) =
    let rest = count_blank n lines in if text_eq (trim_space line) [] then suc rest else 0

-- How many of the next `n` lines come before a blank line or a heading.
unfoldable pub count_filled : ℕ → List Text → ℕ
count_filled zero lines = 0
count_filled (suc n) [] = 0
count_filled (suc n) (line ∷ lines) =
    let rest = count_filled n lines in
    if text_eq (trim_space line) [] || has_prefix (trim_space line) (codes "## ")
    then 0
    else suc rest

abbrev title_lines : List Text → ℕ
title_lines lines = if starts_with_title lines then 1 else 0

unfoldable pub metadata_start : List Text → ℕ
metadata_start lines =
    let start = title_lines lines in
    start + count_blank (metadata_limit lines - start) (drop start lines)

unfoldable pub metadata_end : List Text → ℕ
metadata_end lines =
    let start = metadata_start lines in
    start + count_filled (metadata_limit lines - start) (drop start lines)

-- Whether a line holds the field.
unfoldable pub has_field : Text → Text → Bool
has_field field line = is_some (extract_field_any (trim_prefix line (codes "- ")) field)

-- The first of the next `n` lines that holds the field.
unfoldable pub find_field : Text → ℕ → List Text → Option ℕ
find_field field zero lines = none
find_field field (suc n) [] = none
find_field field (suc n) (line ∷ lines) =
    let rest = find_field field n lines in
    if has_field field line then some 0 else elim rest [ none ↦ none | some i ↦ some (suc i) ]

-- Its index among all lines.
unfoldable pub field_index : List Text → Text → Option ℕ
field_index lines field =
    let start = metadata_start lines in
    elim (find_field field (metadata_end lines - start) (drop start lines)) [
      | none ↦ none
      | some i ↦ some (start + i)
    ]

abbrev pub remove_line : List Text → ℕ → List Text
remove_line lines i = take i lines ++ drop (suc i) lines

abbrev pub replace_line : List Text → ℕ → Text → List Text
replace_line lines i line = take i lines ++ line ∷ drop (suc i) lines

unfoldable pub insert_line : List Text → ℕ → Text → List Text
insert_line lines i line = take i lines ++ line ∷ drop i lines

abbrev pub clear_at : List Text → Option ℕ → List Text
clear_at lines none = lines
clear_at lines (some i) = remove_line lines i

unfoldable pub clear_field : List Text → Text → List Text
clear_field lines field = clear_at lines (field_index lines field)

abbrev pub field_line : Text → Text → Text
field_line field value = codes "**" ++ (field ++ (codes ":** " ++ value))

-- Before the branch line, or else behind the last metadata line.
abbrev pub insert_before : List Text → Text → Option ℕ → List Text
insert_before lines line none = insert_line lines (metadata_end lines) line
insert_before lines line (some i) = insert_line lines i line

abbrev pub set_at : List Text → Text → Option ℕ → List Text
set_at lines line none = insert_before lines line (field_index lines (codes "Branch"))
set_at lines line (some i) = replace_line lines i line

unfoldable pub set_field : List Text → Text → Text → List Text
set_field lines field value = set_at lines (field_line field value) (field_index lines field)
