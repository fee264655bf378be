-- ===== src/Sections/Bounds.antt =====
-- The ranges that the section search returns.
use task_board_tools.Base.{
  ℕ, suc, ◌+◌, ◌≤◌, Bool, List, [], ◌∷◌, Option, none, some, ◌≡◌, refl, arith, Text, length, inl,
  inr, ◌⊎◌, ◌≢◌,
}
use task_board_tools.Strings.Parts.{split-ne-nil}
use task_board_tools.Strings.{split, onto_first}
use task_board_tools.Sections.{
  TaskSectionRange, find_end, find_start, find_section_where, next_offset, line_kind, marker,
  heading, other, next_fence, LineKind,
}

-- The bytes that lines take, with a line feed between any two.
abbrev pub width : List Text → ℕ
width [] = 0
width (line ∷ []) = length line
width (line ∷ q ∷ lines) = length line + 1 + width (q ∷ lines)

next_bounds :
    (len offset : ℕ) (line : Text) (lines : List Text)
    → offset + width (line ∷ lines) ≡ len
    → (next_offset len offset line lines + width lines ≡ len)
      × (offset ≤ next_offset len offset line lines)
next_bounds len offset line [] h = omega arith
next_bounds len offset line (q ∷ lines) h = omega arith

pub LineKind-cases :
    (k : LineKind) → ((m : Text) × (k ≡ marker m)) ⊎ (((h : Text) × (k ≡ heading h)) ⊎ (k ≡ other))
LineKind-cases (marker m) = inl (m, refl)
LineKind-cases (heading h) = inr (inl (h, refl))
LineKind-cases other = inr (inr refl)

find_end_bounds :
    (len : ℕ) (lines : List Text) (offset : ℕ) (fence : Option Text)
    → offset + width lines ≡ len
    → (offset ≤ find_end len lines offset fence) × (find_end len lines offset fence ≤ len)
unfolding find_end
find_end_bounds len [] offset fence h = omega arith
find_end_bounds len (line ∷ lines) offset fence h =
    let (exact, grows) = next_bounds len offset line lines h in
    let next = next_offset len offset line lines in
    elim (LineKind-cases (line_kind fence line)) [
      | inl (m, k) ↦
          rw (k, find_end)
            (omega (arith, find_end_bounds len lines next (next_fence fence m) exact))
      | inr (inl (m, k)) ↦ rw (k, find_end) (omega arith)
      | inr (inr k) ↦ rw (k, find_end) (omega (arith, find_end_bounds len lines next fence exact))
    ]

-- A range inside the text whose body starts behind its heading.
pub record InText (len offset : ℕ) (r : TaskSectionRange) : Type 0 where
  pub starts : offset ≤ r.start
  pub body : r.start ≤ r.body_start
  pub ends : r.body_start ≤ r.stop
  pub fits : r.stop ≤ len

find_start_bounds :
    (matches : Text → Bool) (len : ℕ) (lines : List Text) (offset : ℕ) (fence : Option Text)
    (r : TaskSectionRange)
    → offset + width lines ≡ len
    → find_start matches len lines offset fence ≡ some r
    → InText len offset r
unfolding find_start
find_start_bounds matches len [] offset fence r h e = cc
find_start_bounds matches len (line ∷ lines) offset fence r h e =
    let (exact, grows) = next_bounds len offset line lines h in
    let next = next_offset len offset line lines in
    elim (LineKind-cases (line_kind fence line)) [
      | inl (m, k) ↦
          ground (arith, find_start_bounds matches len lines next (next_fence fence m) r exact)
      | inr (inl (m, k)) ↦ ground (
        arith,
        find_start_bounds matches len lines next fence r exact,
        find_end_bounds len lines next fence exact,
      )
      | inr (inr k) ↦ ground (arith, find_start_bounds matches len lines next fence r exact)
    ]

onto_first-width : (c : ℕ) (ps : List Text) → ps ≢ [] → width (onto_first c ps) ≡ suc (width ps)
onto_first-width c [] h = absurd (h refl)
onto_first-width c (p ∷ []) h = refl
onto_first-width c (p ∷ q ∷ ps) h = omega arith

nil-width : (ps : List Text) → ps ≢ [] → width ([] ∷ ps) ≡ suc (width ps)
nil-width [] h = absurd (h refl)
nil-width (p ∷ ps) h = omega arith

split-width : (s : Text) (sep : ℕ) → width (split s sep) ≡ length s
unfolding split
split-width [] sep = refl
split-width (c ∷ s) sep = ground (
  arith,
  onto_first-width c (split s sep) (split-ne-nil s sep),
  nil-width (split s sep) (split-ne-nil s sep),
  split-width s sep,
)

-- A section that is found lies inside the text: it starts no later than its body, the body starts no
-- later than the end, and the end is at most the length. So no slice of the program is out of range.
pub find_section_bounds :
    (content : Text) (matches : Text → Bool) (r : TaskSectionRange)
    → find_section_where content matches ≡ some r
    → (r.start ≤ r.body_start) × (r.body_start ≤ r.stop) × (r.stop ≤ length content)
unfolding find_section_where
find_section_bounds content matches r h =
    let b =
      find_start_bounds matches (length content) (split content b'\n') 0 none r
        (omega (arith, split-width content b'\n')) h in
    (b.body, b.ends, b.fits)
