-- ===== src/Review/Lines.antt =====
-- Lines without the blank ones at their ends, and texts without carriage returns: what `trimBlankLines` of
-- cli/edit.go does to the lines of a text.
use mathlib.Core.Path.{subst}
use task_board_tools.Base.{
  ℕ, Bool, true, false, ◌&&◌, List, [], ◌∷◌, ◌++◌, All, All-append, Text, text_eq, text_eq_sound,
  ◌≡◌, ◌≢◌, inl, inr, refl, ap, ◌∙◌, arith, Bool-cases, ◌==◌,
}
use task_board_tools.Strings.{split, join, trim_space, onto_first}
use task_board_tools.Strings.Parts.{Lacks}
use task_board_tools.Review.Verdict.{line_feeds, drop_blank, drop_blank_last, drop_blank_end}

abbrev pub IsBlank : Text → Type 0
IsBlank line = trim_space line ≡ []

-- Lines of which blank ones in front and behind are gone.
abbrev pub Trimmed : List Text → List Text → Type 0
Trimmed lines left =
    (before : List Text) × (after : List Text) × (lines ≡ before ++ (left ++ after))
    × All IsBlank before
    × All IsBlank after

drop_blank-split :
    (lines : List Text)
    → (before : List Text) × (lines ≡ before ++ drop_blank lines) × All IsBlank before
unfolding drop_blank
drop_blank-split [] = ([], refl, tt)
drop_blank-split (line ∷ lines) = elim (Bool-cases (text_eq (trim_space line) [])) [
  | inl e ↦
      let (before, whole, blank) = drop_blank-split lines in
      rw e
        (line ∷ before, ap (λ ls. line ∷ ls) whole, (text_eq_sound (trim_space line) [] e, blank))
  | inr e ↦ rw e ([], refl, tt)
]

drop_blank_last-split :
    (line : Text) (left after : List Text)
    → All IsBlank after
    → (rest : List Text) × (line ∷ (left ++ after) ≡ drop_blank_last line left ++ rest)
      × All IsBlank rest
drop_blank_last-split line [] after blank = elim (Bool-cases (text_eq (trim_space line) [])) [
  | inl e ↦ rw e (line ∷ after, refl, (text_eq_sound (trim_space line) [] e, blank))
  | inr e ↦ rw e (after, refl, blank)
]
drop_blank_last-split line (l ∷ ls) after blank = (after, refl, blank)

drop_blank_end-split :
    (lines : List Text)
    → (after : List Text) × (lines ≡ drop_blank_end lines ++ after) × All IsBlank after
unfolding drop_blank_end
drop_blank_end-split [] = ([], refl, tt)
drop_blank_end-split (line ∷ lines) =
    let (after, whole, blank) = drop_blank_end-split lines in
    let (rest, same, blanks) = drop_blank_last-split line (drop_blank_end lines) after blank in
    (rest, ap (λ ls. line ∷ ls) whole ∙ same, blanks)

abbrev pub kept_lines : List Text → List Text
kept_lines lines = drop_blank_end (drop_blank lines)

pub kept_lines-Trimmed : (lines : List Text) → Trimmed lines (kept_lines lines)
kept_lines-Trimmed lines =
    let (before, whole, blank) = drop_blank-split lines in
    let (after, same, blanks) = drop_blank_end-split (drop_blank lines) in
    (before, after, whole ∙ ap (λ ls. before ++ ls) same, blank, blanks)

-- A carriage return is never left, and a text without one stays.
pub line_feeds-Lacks : (returned : Bool) (s : Text) → Lacks 13 (line_feeds returned s)
unfolding line_feeds
line_feeds-Lacks returned [] = tt
line_feeds-Lacks returned (c ∷ s) = elim (Bool-cases (c == 13)) [
  | inl e ↦ rw e ((λ z. absurd (ground arith)), line_feeds-Lacks true s)
  | inr e ↦ elim (Bool-cases (c == b'\n' && returned)) [
    | inl f ↦ rw (e, f) (line_feeds-Lacks false s)
    | inr f ↦ rw (e, f) ((λ z. absurd (ground arith)), line_feeds-Lacks false s)
  ]
]

pub line_feeds-same : (s : Text) → Lacks 13 s → line_feeds false s ≡ s
unfolding line_feeds
line_feeds-same [] h = refl
line_feeds-same (c ∷ s) (h, hs) =
    let e : (c == 13) ≡ false = ground arith in rw (e, line_feeds-same s hs) (ground arith)

onto_first-Lacks :
    (b c : ℕ) (ps : List Text) → c ≢ b → All (Lacks b) ps → All (Lacks b) (onto_first c ps)
onto_first-Lacks b c [] h hs = ((h, tt), tt)
onto_first-Lacks b c (p ∷ ps) h (hp, hs) = ((h, hp), hs)

pub split-parts : (b sep : ℕ) (s : Text) → Lacks b s → All (Lacks b) (split s sep)
unfolding split
split-parts b sep [] h = (tt, tt)
split-parts b sep (c ∷ s) (h, hs) = elim (Bool-cases (c == sep)) [
  | inl e ↦ rw e (tt, split-parts b sep s hs)
  | inr e ↦ rw e (onto_first-Lacks b c (split s sep) h (split-parts b sep s hs))
]

append-Lacks : (b : ℕ) (s t : Text) → Lacks b s → Lacks b t → Lacks b (s ++ t)
append-Lacks b s t = All-append (λ c. c ≢ b) s t

pub join-Lacks :
    (b : ℕ) (ps : List Text) (sep : Text) → Lacks b sep → All (Lacks b) ps → Lacks b (join ps sep)
unfolding join
join-Lacks b [] sep h hs = tt
join-Lacks b (p ∷ []) sep h (hp, _) = hp
join-Lacks b (p ∷ q ∷ ps) sep h (hp, hs) =
    append-Lacks b p (sep ++ join (q ∷ ps) sep) hp
      (append-Lacks b sep (join (q ∷ ps) sep) h (join-Lacks b (q ∷ ps) sep h hs))

All-behind {ℓ κ} : {A : Type ℓ} (P : A → Type κ) (xs ys : List A) → All P (xs ++ ys) → All P ys
All-behind P [] ys h = h
All-behind P (x ∷ xs) ys (_, h) = All-behind P xs ys h

All-before {ℓ κ} : {A : Type ℓ} (P : A → Type κ) (xs ys : List A) → All P (xs ++ ys) → All P xs
All-before P [] ys h = tt
All-before P (x ∷ xs) ys (p, h) = (p, All-before P xs ys h)

-- What holds of all lines holds of those that are left.
pub All-kept : (P : Text → Type 0) (lines : List Text) → All P lines → All P (kept_lines lines)
All-kept P lines h =
    let (before, after, whole, _, _) = kept_lines-Trimmed lines in
    let k : All P (before ++ (kept_lines lines ++ after)) = subst (All P) whole h in
    All-before P (kept_lines lines) after (All-behind P before (kept_lines lines ++ after) k)
