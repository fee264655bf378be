-- ===== src/SectionEdit/Ranges.antt =====
-- Where the sections of one heading lie: in order, apart from one another, and within the text.
use task_board_tools.Base.{
  ◌++◌, ℕ, suc, ◌+◌, ◌≤◌, ◌<◌, Bool, true, false, ◌&&◌, not, List, [], ◌∷◌, some, Text, ◌≡◌, refl,
  arith, Bool-cases, inl, inr, text_eq, length, Option-cases, text_eq_sound, ◌≢◌, codes, ◌∙◌,
  length-append,
}
use task_board_tools.Strings.{split, join}
use task_board_tools.SectionEdit.{
  SectionRange, task_headings, is_one_of, find_heading, sections_from, or_end, is_markdown_fence,
  bare, find_markdown_sections,
}
use task_board_tools.Strings.Parts.{split-ne-nil, join-split}

-- Sections that start at `low` or later, each behind the end of the one before, up to `len`.
abbrev pub InOrder : ℕ → ℕ → List SectionRange → Type 0
InOrder low len [] = Unit
InOrder low len (r ∷ rs) =
    (low ≤ r.start) × (r.start ≤ r.stop) × (r.stop ≤ len) × InOrder r.stop len rs

-- The length that the lines cover, with a line feed behind each.
abbrev covers : List Text → ℕ
covers [] = 0
covers (line ∷ lines) = length line + 1 + covers lines

InOrder-lower :
    (low low' len : ℕ) (rs : List SectionRange)
    → low' ≤ low
    → InOrder low len rs
    → InOrder low' len rs
InOrder-lower low low' len [] h o = tt
InOrder-lower low low' len (r ∷ rs) h (a, b, c, o) = (omega (arith, h, a), b, c, o)

-- A heading that is found lies among the lines.
find_heading_bounds :
    (wanted lines : List Text) (offset : ℕ) (fence : Bool) (n : ℕ)
    → find_heading wanted lines offset fence ≡ some n
    → (offset ≤ n) × (n < offset + covers lines)
unfolding find_heading
find_heading_bounds wanted [] offset fence n h = absurd (ground arith)
find_heading_bounds wanted (line ∷ lines) offset fence n h =
    let fenced = find_heading_bounds wanted lines (offset + length line + 1) (not fence) n in
    let rest = find_heading_bounds wanted lines (offset + length line + 1) fence n in
    ground (arith, fenced, rest)

-- The end of a section that starts with a line is behind its start and in the text.
section_end :
    (wanted lines : List Text) (offset width len : ℕ) (fence : Bool)
    → offset + width + 1 + covers lines ≡ suc len
    → (offset ≤ or_end len (find_heading wanted lines (offset + width + 1) fence))
      × (or_end len (find_heading wanted lines (offset + width + 1) fence) ≤ len)
section_end wanted lines offset width len fence e =
    elim (Option-cases (find_heading wanted lines (offset + width + 1) fence)) [
      | inl q ↦ rw q (omega (arith, e), omega arith)
      | inr (n, q) ↦
          let b = find_heading_bounds wanted lines (offset + width + 1) fence n q in
          rw q (omega (arith, e, b.0), omega (arith, e, b.1))
    ]

module _ (heading : Text) (known : is_one_of task_headings heading ≡ true) (len : ℕ) where
  not_known : (line : Text) → is_one_of task_headings line ≡ false → text_eq heading line ≡ false
  not_known line h = elim (Bool-cases (text_eq heading line)) [
    | inr e ↦ e
    | inl e ↦
        let same = text_eq_sound heading line e in absurd (let k = rw same at known in ground arith)
  ]

  -- The sections of the lines start at the first known heading or later.
  sections_from-InOrder :
      (lines : List Text) (offset : ℕ) (fence : Bool)
      → offset + covers lines ≡ suc len
      → InOrder
          (or_end len (find_heading task_headings lines offset fence))
          len
          (sections_from heading len lines offset fence)
  unfolding sections_from find_heading
  sections_from-InOrder [] offset fence e = tt
  sections_from-InOrder (line ∷ lines) offset fence e =
      let next = offset + length line + 1 in
      let sum : next + covers lines ≡ suc len = omega (arith, e) in
      elim (Bool-cases (is_markdown_fence (bare line))) [
        | inl f ↦ rw f (sections_from-InOrder lines next (not fence) sum)
        | inr f ↦ elim (Bool-cases (not fence && is_one_of task_headings (bare line))) [
          | inr q ↦
              let off : (not fence && text_eq heading (bare line)) ≡ false =
                ground (arith, not_known (bare line)) in
              rw (f, q, off) (sections_from-InOrder lines next fence sum)
          | inl q ↦
              let outside : fence ≡ false = ground arith in
              let known_line : is_one_of task_headings (bare line) ≡ true = ground arith in
              let inside = section_end task_headings lines offset (length line) len false sum in
              let rest = sections_from-InOrder lines next false sum in
              elim (Bool-cases (text_eq heading (bare line))) [
                | inl h ↦ rw (f, outside, known_line, h) (omega arith, inside.0, inside.1, rest)
                | inr h ↦
                    rw (f, outside, known_line, h) (InOrder-lower _ offset len _ inside.0 rest)
              ]
        ]
      ]

covers-join :
    (lines : List Text) → lines ≢ [] → covers lines ≡ suc (length (join lines (codes "\n")))
unfolding join
covers-join [] h = absurd (h refl)
covers-join (p ∷ []) h = omega arith
covers-join (p ∷ q ∷ ps) h = omega (
  arith,
  covers-join (q ∷ ps) (λ e. cc),
  length-append p (codes "\n" ++ join (q ∷ ps) (codes "\n")),
)

covers-split : (content : Text) → covers (split content b'\n') ≡ suc (length content)
covers-split content =
    covers-join (split content b'\n') (split-ne-nil content b'\n')
    ∙ rw (join-split content b'\n') refl

-- The sections of a known heading are in order and apart from one another, from the first to the last,
-- and all within the text, so that the slices between them are cut at rising offsets.
pub find_markdown_sections-InOrder :
    (content heading : Text)
    → is_one_of task_headings heading ≡ true
    → InOrder 0 (length content) (find_markdown_sections content heading)
unfolding find_markdown_sections
find_markdown_sections-InOrder content heading known =
    InOrder-lower _ 0 (length content) _ (omega arith) (
      sections_from-InOrder heading known (length content) (split content b'\n') 0 false
        (omega (arith, covers-split content)))
