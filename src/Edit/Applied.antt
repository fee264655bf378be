-- ===== src/Edit/Applied.antt =====
-- What an edit does to the text of a task file: the title, the metadata lines and the sections.
use task_board_tools.Base.{
  true, ◌&&◌, ◌||◌, List, [], ◌∷◌, ◌++◌, Text, codes, text_eq, text_eq_iff, text_eq_sound, ◌≡◌, ◌⊎◌,
  inl, inr, refl, arith, Bool-cases,
}
use task_board_tools.Strings.{join}
use task_board_tools.Metadata.Laws.{FieldLine, clear_field_lem, set_field_lem}
use task_board_tools.Metadata.Search.{Lacking, metadata_lines}
use task_board_tools.SectionEdit.{
  is_one_of, upsert_task_section, find_markdown_sections, markdown_section_block,
}
use task_board_tools.SectionEdit.Kept.{Edited, replaced, upsert_task_section-Edited}
use task_board_tools.Edit.{EditChange}
use task_board_tools.Edit.Values.{agent_fields, status_fields}
use task_board_tools.Edit.Command.{
  BodyEdit, apply_change, apply_changes, apply_bodies, clearable, edited_text,
}

-- A change whose value is `none` takes the line of the field away, if it is one of these fields.
abbrev pub Clears : EditChange → Type 0
Clears c =
    (c.value ≡ codes "none")
    × ((is_one_of agent_fields c.field
          || (is_one_of status_fields c.field || text_eq (codes "ReviewRef") c.field))
        ≡ true)

-- The first metadata line of the field is gone, or there is none.
abbrev pub Gone : List Text → Text → List Text → Type 0
Gone lines field lines' =
    ((f : FieldLine lines field) × (lines' ≡ f.before ++ f.after))
    ⊎ (Lacking field (metadata_lines lines) × (lines' ≡ lines))

-- The first metadata line of the field is this line now, or it is put in where there is none.
abbrev pub Stands : List Text → Text → Text → List Text → Type 0
Stands lines field line lines' =
    ((f : FieldLine lines field) × (lines' ≡ f.before ++ line ∷ f.after))
    ⊎ ((before : List Text) × (after : List Text) × (lines ≡ before ++ after)
        × Lacking field (metadata_lines lines)
        × (lines' ≡ before ++ line ∷ after))

abbrev pub Changed : List Text → EditChange → List Text → Type 0
Changed lines c lines' =
    (Clears c × Gone lines c.field lines')
    ⊎ ((Clears c → ⊥)
        × Stands lines c.field (codes "**" ++ (c.field ++ (codes ":** " ++ c.value))) lines')

-- All changes, one after the other.
abbrev pub AllChanged : List Text → List EditChange → List Text → Type 0
AllChanged lines [] lines' = lines' ≡ lines
AllChanged lines (c ∷ cs) lines' =
    (between : List Text) × Changed lines c between × AllChanged between cs lines'

-- All section edits, one after the other.
abbrev pub AllPlaced : Text → List BodyEdit → Text → Type 0
AllPlaced content [] content' = content' ≡ content
AllPlaced content (e ∷ es) content' =
    (between : Text) × Edited content (markdown_section_block e.heading e.body)
      (replaced e.heading (find_markdown_sections content e.heading)) between
    × AllPlaced between es content'

clearable_fields :
    (field : Text)
    → is_one_of clearable field ≡ (
        is_one_of agent_fields field
        || (is_one_of status_fields field || text_eq (codes "ReviewRef") field))
clearable_fields field = ground arith

apply_change-Changed : (lines : List Text) (c : EditChange) → Changed lines c (apply_change lines c)
unfolding apply_change
apply_change-Changed lines c =
    let fields = clearable_fields c.field in
    elim (Bool-cases (text_eq c.value (codes "none") && is_one_of clearable c.field)) [
      | inl e ↦ rw e (
          inl (
            (text_eq_sound c.value (codes "none") (ground arith), ground arith),
            clear_field_lem lines c.field,
          ))
      | inr e ↦
          let kept : Clears c → ⊥ = λ h.
            let (none_, field) = h in
            let same : text_eq c.value (codes "none") ≡ true =
              (text_eq_iff c.value (codes "none")).1 none_ in
            absurd (ground arith) in
          rw e (inr (kept, (set_field_lem lines c.field c.value).1))
    ]

apply_changes-AllChanged :
    (lines : List Text) (cs : List EditChange) → AllChanged lines cs (apply_changes lines cs)
unfolding apply_changes
apply_changes-AllChanged lines [] = refl
apply_changes-AllChanged lines (c ∷ cs) = (
  apply_change lines c,
  apply_change-Changed lines c,
  apply_changes-AllChanged (apply_change lines c) cs,
)

apply_bodies-AllPlaced :
    (content : Text) (es : List BodyEdit) → AllPlaced content es (apply_bodies content es)
unfolding apply_bodies
apply_bodies-AllPlaced content [] = refl
apply_bodies-AllPlaced content (e ∷ es) = (
  upsert_task_section content e.heading e.body,
  upsert_task_section-Edited content e.heading e.body,
  apply_bodies-AllPlaced (upsert_task_section content e.heading e.body) es,
)

-- The text after the changes, in order, and then the sections, in order.
pub edited_text-lines :
    (lines : List Text) (changes : List EditChange) (bodies : List BodyEdit)
    → (lines' : List Text) × AllChanged lines changes lines'
      × AllPlaced (join lines' (codes "\n")) bodies (edited_text lines changes bodies)
unfolding edited_text
edited_text-lines lines changes bodies = (
  apply_changes lines changes,
  apply_changes-AllChanged lines changes,
  apply_bodies-AllPlaced (join (apply_changes lines changes) (codes "\n")) bodies,
)
