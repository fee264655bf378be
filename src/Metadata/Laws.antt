-- ===== src/Metadata/Laws.antt =====
-- What setting and clearing a field do to the lines of a file.
use task_board_tools.Base.{
  true, List, ◌∷◌, ◌++◌, some, ◌≡◌, ◌⊎◌, inl, inr, refl, Text, codes, take, drop, Option-cases, sym,
  take-append_drop, append_assoc, ap, Option, ◌∙◌,
}
use task_board_tools.Strings.{trim_space, trim_left, is_space, after_prefix}
use task_board_tools.Task.{extract_field_any, or_else, value_of}
use task_board_tools.Metadata.{
  metadata_start, metadata_end, has_field, field_index, clear_field, set_field, field_line,
  insert_line,
}
use task_board_tools.Strings.Prefix.{after_prefix-append}
use task_board_tools.Metadata.Search.{Lacking, metadata_lines, field_index-none, field_index-Found}

-- One line of the file, the first metadata line with the field.
pub record FieldLine (lines : List Text) (field : Text) : Type 0 where
  pub before : List Text
  pub line : Text
  pub after : List Text
  pub whole : lines ≡ before ++ line ∷ after
  pub holds : has_field field line ≡ true
  pub first : Lacking field (drop (metadata_start lines) before)

-- Clearing a field drops the first metadata line that holds it and no other line; where no metadata line
-- holds it, the file stays as it is.
pub clear_field_lem :
    (lines : List Text) (field : Text)
    → ((f : FieldLine lines field) × (clear_field lines field ≡ f.before ++ f.after))
      ⊎ (Lacking field (metadata_lines lines) × (clear_field lines field ≡ lines))
unfolding clear_field
clear_field_lem lines field = elim (Option-cases (field_index lines field)) [
  | inl q ↦ inr (field_index-none lines field q, rw q)
  | inr (i, q) ↦
      let f = field_index-Found lines field i q in
      inl (
        record {
          before = f.before;
          line = f.line;
          after = f.after;
          whole = f.whole;
          holds = f.holds;
          first = f.first;
        },
        rw (q, f.taken, f.dropped),
      )
]

pub trim_space-blank : (value : Text) → trim_space (b' ' ∷ value) ≡ trim_space value
unfolding trim_space trim_left is_space
trim_space-blank value = refl

field_line_shape :
    (field value : Text)
    → field_line field value ≡ (codes "**" ++ (field ++ codes ":**")) ++ b' ' ∷ value
field_line_shape field value = simp (append_assoc)

read_behind :
    (prefix value : Text) (other : Option Text)
    → or_else (value_of (after_prefix (prefix ++ b' ' ∷ value) prefix)) other
      ≡ some (trim_space value)
read_behind prefix value other =
    rw (after_prefix-append prefix (b' ' ∷ value)) (ap some (trim_space-blank value))

field_line_read :
    (field value : Text)
    → extract_field_any (field_line field value) field ≡ some (trim_space value)
unfolding extract_field_any
field_line_read field value =
    ap (λ l. extract_field_any l field) (field_line_shape field value)
    ∙ read_behind (codes "**" ++ (field ++ codes ":**")) value (
        value_of (
          after_prefix ((codes "**" ++ (field ++ codes ":**")) ++ b' ' ∷ value)
            (codes "**" ++ (field ++ codes "**:"))))

-- Setting a field replaces the first metadata line that holds it by `**Field:** value`; where no
-- metadata line holds it, that line is put in, and every line of the file stays. The new line reads back
-- as the value, trimmed.
pub set_field_lem :
    (lines : List Text) (field value : Text)
    → (extract_field_any (field_line field value) field ≡ some (trim_space value))
      × (((f : FieldLine lines field) × (set_field lines field value
              ≡ f.before ++ field_line field value ∷ f.after))
          ⊎ ((before : List Text) × (after : List Text) × (lines ≡ before ++ after)
              × Lacking field (metadata_lines lines)
              × (set_field lines field value ≡ before ++ field_line field value ∷ after)))
unfolding set_field insert_line
set_field_lem lines field value = (
  field_line_read field value,
  elim (Option-cases (field_index lines field)) [
    | inr (i, q) ↦
        let f = field_index-Found lines field i q in
        inl (
          record {
            before = f.before;
            line = f.line;
            after = f.after;
            whole = f.whole;
            holds = f.holds;
            first = f.first;
          },
          rw (q, f.taken, f.dropped),
        )
    | inl q ↦ elim (Option-cases (field_index lines (codes "Branch"))) [
      | inl k ↦ inr (
        take (metadata_end lines) lines,
        drop (metadata_end lines) lines,
        sym (take-append_drop (metadata_end lines) lines),
        field_index-none lines field q,
        rw (q, k),
      )
      | inr (i, k) ↦ inr (
        take i lines,
        drop i lines,
        sym (take-append_drop i lines),
        field_index-none lines field q,
        rw (q, k),
      )
    ]
  ],
)
