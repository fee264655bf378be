-- ===== src/SectionEdit/Kept.antt =====
-- What a section edit keeps of a task file.
use task_board_tools.Sections.Log.{visible, visible-append, visible-trim_newlines}
use task_board_tools.Base.{
  if◌then◌else◌, append-nil, ℕ, ◌++◌, List, [], ◌∷◌, Option, none, some, Text, ◌≡◌, refl, sym,
  Bool-cases, inl, inr, text_eq, take, drop, ◌∙◌, ap, take-append_drop, text_eq_sound, codes,
}
use task_board_tools.SectionEdit.{
  SectionRange, slice, insert_markdown_section_before, trim_newlines, should_coalesce,
  append_markdown_section, upsert_task_section, markdown_section_block, find_markdown_sections,
  place_new, replace_sections, find_first_markdown_heading, anchors, without_sections,
}
use task_board_tools.Sections.{trim_newlines}

-- What stands outside the sections, from the cursor on: the text between them and behind the last.
abbrev pub outside : Text → ℕ → List SectionRange → Text
outside content cursor [] = drop cursor content
outside content cursor (r ∷ rs) = slice content cursor r.start ++ outside content r.stop rs

-- The text of the sections that an edit replaces: all of a heading whose sections become one, else the
-- first.
abbrev pub replaced : Text → List SectionRange → List SectionRange
replaced heading [] = []
replaced heading (r ∷ rs) = if should_coalesce heading then r ∷ rs else r ∷ []

-- A new text is the old one around the replaced sections, with the block in one place between: nothing
-- but line feeds is changed outside.
pub record Edited (content block : Text) (rs : List SectionRange) (result : Text) : Type 0 where
  pub before : Text
  pub after : Text
  pub whole : outside content 0 rs ≡ before ++ after
  pub placed : visible result ≡ visible before ++ (visible block ++ visible after)

outside-without_sections :
    (content : Text) (cursor : ℕ) (rs : List SectionRange)
    → outside content cursor rs ≡ without_sections content cursor rs
unfolding without_sections
outside-without_sections content cursor [] = refl
outside-without_sections content cursor (r ∷ rs) =
    ap (λ t. slice content cursor r.start ++ t) (outside-without_sections content r.stop rs)

inserted :
    (content block : Text) (idx : ℕ)
    → Edited content block [] (insert_markdown_section_before content idx block)
unfolding insert_markdown_section_before visible
inserted content block idx =
    let same : visible (trim_newlines (take idx content)) ≡ visible (take idx content) =
      visible-trim_newlines (take idx content) in
    record {
      before = take idx content;
      after = drop idx content;
      whole = sym (take-append_drop idx content);
      placed = elim (Bool-cases (text_eq (trim_newlines (take idx content)) [])) [
        | inl e ↦
            let blank = text_eq_sound _ [] e in
            let none_before : visible (take idx content) ≡ [] = rw blank at (sym same) in
            rw (e, none_before, visible-append) refl
        | inr e ↦
            rw (e, visible-append, same, visible-append)
              (rw (visible-append block (drop idx content)) refl)
      ];
    }

appended : (content block : Text) → Edited content block [] (append_markdown_section content block)
unfolding append_markdown_section visible
appended content block =
    let same = visible-trim_newlines content in
    let end : visible (trim_newlines block ++ codes "\n") ≡ visible block =
      visible-append (trim_newlines block) (codes "\n")
      ∙ (append-nil (visible (trim_newlines block)) ∙ visible-trim_newlines block) in
    record {
      before = content;
      after = [];
      whole = sym (append-nil content);
      placed = elim (Bool-cases (text_eq (trim_newlines content) [])) [
        | inl e ↦
            let blank = text_eq_sound _ [] e in
            let none_before : visible content ≡ [] = rw blank at (sym same) in
            rw (e, none_before, append-nil {0} (visible block)) end
        | inr e ↦
            rw (e, append-nil {0} (visible block))
              (visible-append (trim_newlines content)
                  (codes "\n\n" ++ (trim_newlines block ++ codes "\n"))
                ∙ rw same (ap (λ t. visible content ++ t) end))
      ];
    }

around :
    (content block after : Text) (n : ℕ) (rs : List SectionRange)
    → outside content 0 rs ≡ take n content ++ after
    → Edited content block rs (take n content ++ (block ++ after))
around content block after n rs e = record {
  before = take n content;
  after = after;
  whole = e;
  placed =
      visible-append (take n content) (block ++ after)
      ∙ ap (λ t. visible (take n content) ++ t) (visible-append block after);
}

-- A section edit keeps everything outside the sections that it replaces, in its order and up to line
-- feeds, and puts the new section, with its heading and body, in one place there. It replaces the first
-- section of the heading, or all of them for the two headings whose sections are merged, or nothing if
-- there is none.
pub upsert_task_section-Edited :
    (content heading body : Text)
    → Edited content
        (markdown_section_block heading body)
        (replaced heading (find_markdown_sections content heading))
        (upsert_task_section content heading body)
unfolding upsert_task_section
upsert_task_section-Edited content heading body = found (find_markdown_sections content heading)
  where
    block : Text
    block = markdown_section_block heading body

    placed_new : (at : Option ℕ) → Edited content block [] (place_new content block at)
    placed_new none = appended content block
    placed_new (some idx) = inserted content block idx

    found :
        (rs : List SectionRange)
        → Edited content block (replaced heading rs) (replace_sections content heading block rs)
    found [] = placed_new (find_first_markdown_heading content (anchors heading))
    found (r ∷ rs) = elim (Bool-cases (should_coalesce heading)) [
      | inl e ↦ rw e (
          around content block (without_sections content r.stop rs) r.start (r ∷ rs)
            (ap (λ t. take r.start content ++ t) (outside-without_sections content r.stop rs)))
      | inr e ↦ rw e (around content block (drop r.stop content) r.start (r ∷ []) refl)
    ]
