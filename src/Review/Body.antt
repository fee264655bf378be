-- ===== src/Review/Body.antt =====
-- What is left of the lines of a text that a command reads for a section: `trimBlankLines` and
-- `stripLeadingReviewHeading`.
use mathlib.Core.Path.{subst}
use task_board_tools.Base.{
  if_any, false, List, [], ◌∷◌, ◌++◌, All, All-append, Text, codes, text_eq, text_eq_sound, ◌≡◌,
  ◌≢◌, ◌⊎◌, inl, inr, refl, ap, ◌∙◌, sym, arith, Bool-cases, append_assoc, Option, some,
  text_eq_iff,
}
use task_board_tools.Strings.{split, join, trim_space, trim_left, trim_right}
use task_board_tools.Strings.Parts.{Lacks, split-join, split-Lacks}
use task_board_tools.Review.Verdict.{
  line_feeds, drop_blank, drop_blank_end, trim_blank_lines, strip_first, strip_leading_heading,
}
use task_board_tools.Review.Lines.{
  IsBlank, kept_lines, kept_lines-Trimmed, line_feeds-Lacks, line_feeds-same, split-parts,
  join-Lacks, All-kept,
}

-- Blank lines, with one line of the heading among them at most.
abbrev pub IsFront : Text → List Text → Type 0
IsFront heading before =
    All IsBlank before
    ⊎ ((above : List Text) × (line : Text) × (below : List Text) × (before ≡ above ++ line ∷ below)
        × All IsBlank above
        × (trim_space line ≡ heading)
        × All IsBlank below)

-- The body is made of all lines of the text but blank ones at the end and, in front, blank ones and the
-- heading.
abbrev pub Left : Text → Text → Text → Type 0
Left heading raw body =
    (before : List Text) × (left : List Text) × (after : List Text) × (split (line_feeds false raw)
        b'\n'
      ≡ before ++ (left ++ after))
    × IsFront heading before
    × All IsBlank after
    × (body ≡ join left (codes "\n"))

-- A text of lines without line ends has these lines.
trim_blank_lines-join :
    (line : Text) (lines : List Text)
    → All (Lacks b'\n') (line ∷ lines)
    → All (Lacks 13) (line ∷ lines)
    → trim_blank_lines (join (line ∷ lines) (codes "\n"))
      ≡ join (kept_lines (line ∷ lines)) (codes "\n")
unfolding trim_blank_lines
trim_blank_lines-join line lines feeds returns =
    let newline : Lacks 13 (codes "\n") = ((λ z. cc), tt) in
    let plain =
      line_feeds-same (join (line ∷ lines) (codes "\n"))
        (join-Lacks 13 (line ∷ lines) (codes "\n") newline returns) in
    ap (λ t. join (kept_lines (split t b'\n')) (codes "\n")) plain
    ∙ ap (λ ls. join (kept_lines ls) (codes "\n")) (split-join (line ∷ lines) b'\n' (λ z. cc) feeds)

-- What is left of nothing is blank.
empty_body :
    (heading : Text) → trim_space (strip_leading_heading (join [] (codes "\n")) heading) ≡ []
unfolding strip_leading_heading trim_blank_lines line_feeds split join drop_blank drop_blank_end
    text_eq trim_space trim_left trim_right
empty_body heading = if_any (λ t. trim_space t ≡ []) (text_eq [] heading) (λ _. refl) (λ _. refl)

nothing_left : trim_space (trim_blank_lines (join [] (codes "\n"))) ≡ []
unfolding trim_blank_lines line_feeds split join drop_blank drop_blank_end text_eq trim_space
    trim_left trim_right
nothing_left = refl

regroup :
    (before : List Text) (line : Text) (b k a after : List Text)
    → before ++ (line ∷ (b ++ (k ++ a)) ++ after) ≡ (before ++ line ∷ b) ++ (k ++ (a ++ after))
regroup before line b k a after = simp (append_assoc)

-- Behind a line of the heading.
behind_heading :
    (heading raw line : Text) (lines before after : List Text)
    → split (line_feeds false raw) b'\n' ≡ before ++ (line ∷ lines ++ after)
    → All IsBlank before
    → All IsBlank after
    → trim_space line ≡ heading
    → All (Lacks b'\n') lines
    → All (Lacks 13) lines
    → trim_space (trim_blank_lines (join lines (codes "\n"))) ≢ []
    → Left heading raw (trim_blank_lines (join lines (codes "\n")))
behind_heading heading raw line [] before after whole above below at feeds returns full =
    absurd (full nothing_left)
behind_heading heading raw line (n ∷ ns) before after whole above below at feeds returns full =
    let (b, a, inner, blank, blanks) = kept_lines-Trimmed (n ∷ ns) in
    (
      before ++ line ∷ b,
      kept_lines (n ∷ ns),
      a ++ after,
      whole
          ∙ (ap (λ ls. before ++ (line ∷ ls ++ after)) inner
              ∙ regroup before line b (kept_lines (n ∷ ns)) a after),
      inr (before, line, b, refl, above, at, blank),
      All-append IsBlank a after blanks below,
      trim_blank_lines-join n ns feeds returns,
    )

front_line :
    (heading raw line : Text) (lines before after : List Text)
    → split (line_feeds false raw) b'\n' ≡ before ++ (line ∷ lines ++ after)
    → All IsBlank before
    → All IsBlank after
    → All (Lacks b'\n') (line ∷ lines)
    → All (Lacks 13) (line ∷ lines)
    → trim_space (strip_first heading (join (line ∷ lines) (codes "\n")) (line ∷ lines)) ≢ []
    → Left heading raw (strip_first heading (join (line ∷ lines) (codes "\n")) (line ∷ lines))
front_line heading raw line lines before after whole above below feeds returns full =
    elim (Bool-cases (text_eq (trim_space line) heading)) [
      | inr e ↦ rw e (before, line ∷ lines, after, whole, inl above, below, refl)
      | inl e ↦ rw e (
          behind_heading heading raw line lines before after whole above below
            (text_eq_sound (trim_space line) heading e) feeds.1 returns.1 (rw e at full))
    ]

-- The lines that are left first, of which the heading may go.
stripped :
    (heading raw : Text) (left before after : List Text)
    → split (line_feeds false raw) b'\n' ≡ before ++ (left ++ after)
    → All IsBlank before
    → All IsBlank after
    → All (Lacks b'\n') left
    → All (Lacks 13) left
    → trim_space (strip_leading_heading (join left (codes "\n")) heading) ≢ []
    → Left heading raw (strip_leading_heading (join left (codes "\n")) heading)
unfolding strip_leading_heading
stripped heading raw [] before after whole above below feeds returns full =
    absurd (full (empty_body heading))
stripped heading raw (line ∷ lines) before after whole above below feeds returns full =
    let body = join (line ∷ lines) (codes "\n") in
    let first = split-join (line ∷ lines) b'\n' (λ z. cc) feeds in
    let at_line : strip_first heading body (split body b'\n')
        ≡ strip_first heading body (line ∷ lines) =
      ap (strip_first heading body) first in
    subst (Left heading raw) (sym at_line) (
      front_line heading raw line lines before after whole above below feeds returns
        (λ z. full (ap trim_space at_line ∙ z)))

pub strip_leading_heading-Left :
    (heading raw : Text)
    → trim_space (strip_leading_heading (trim_blank_lines raw) heading) ≢ []
    → Left heading raw (strip_leading_heading (trim_blank_lines raw) heading)
unfolding trim_blank_lines
strip_leading_heading-Left heading raw full =
    let lines = split (line_feeds false raw) b'\n' in
    let (before, after, whole, above, below) = kept_lines-Trimmed lines in
    stripped heading raw (kept_lines lines) before after whole above below
      (All-kept (Lacks b'\n') lines (split-Lacks (line_feeds false raw) b'\n'))
      (All-kept (Lacks 13) lines
        (split-parts 13 b'\n' (line_feeds false raw) (line_feeds-Lacks false raw)))
      full

-- What a command takes from its input for a section.
abbrev pub Given : Text → Option Text → Text → Type 0
Given heading input body =
    (raw : Text) × (input ≡ some raw) × Left heading raw body × (trim_space body ≢ [])

pub stripped-Given :
    (heading raw body : Text)
    → text_eq (trim_space (strip_leading_heading (trim_blank_lines raw) heading)) [] ≡ false
    → strip_leading_heading (trim_blank_lines raw) heading ≡ body
    → Given heading (some raw) body
stripped-Given heading raw body full same =
    let found = strip_leading_heading (trim_blank_lines raw) heading in
    let some_text : trim_space found ≢ [] =
      λ z. absurd (ground (arith, text_eq_iff (trim_space found) [])) in
    (
      raw,
      refl,
      subst (Left heading raw) same (strip_leading_heading-Left heading raw some_text),
      subst (λ t. trim_space t ≢ []) same some_text,
    )
