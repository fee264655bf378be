-- ===== src/Edit/Renamed.antt =====
-- What `--title` does to the lines of a task file: `replaceTaskTitle` of cli/edit.go.
use task_board_tools.Base.{
  ℕ, zero, suc, Bool, true, false, List, [], ◌∷◌, ◌++◌, Option, none, some, All, Text, codes,
  text_eq, text_eq_iff, text_eq_sound, ◌≡◌, ◌≢◌, ◌⊎◌, inl, inr, refl, ap, arith, Bool-cases, ◌<◌,
  length, ◌∙◌, sym,
}
use task_board_tools.Strings.{trim_space, has_prefix}
use task_board_tools.Task.{
  parse_task_header, Header, header, malformed, no_header, max_metadata_lines,
}
use task_board_tools.Board.{Result, ok, err}
use task_board_tools.Edit.Command.{
  apply_title, replace_task_title, retitle, with_line, onto_lines, renamed,
}

-- A line that looks like the title line of a task.
abbrev pub looks_like_title : Text → Text → Bool
looks_like_title prefix line = has_prefix (trim_space line) (codes "# " ++ (prefix ++ codes "-"))

-- The title line among the first `n`: the first one that looks so, and its parts.
pub record TitleLine (prefix : Text) (n : ℕ) (lines : List Text) : Type 0 where
  pub before : List Text
  pub line : Text
  pub after : List Text
  pub id : Text
  pub old : Text
  pub whole : lines ≡ before ++ line ∷ after
  pub early : length before < n
  pub first : All (λ l. looks_like_title prefix l ≡ false) before
  pub is_title : looks_like_title prefix line ≡ true
  pub parses : parse_task_header prefix line ≡ header id old

-- The lines with the title, and whether it is a new one.
abbrev pub Renamed : Text → List Text → Option Text → List Text → Bool → Type 0
Renamed prefix lines none lines' retitled = (lines' ≡ lines) × (retitled ≡ false)
Renamed prefix lines (some new) lines' retitled =
    (t : TitleLine prefix max_metadata_lines lines) × (((t.old ≡ new)
        × (lines' ≡ lines)
        × (retitled ≡ false))
      ⊎ ((t.old ≢ new)
          × (lines' ≡ t.before ++ (codes "# " ++ (t.id ++ (codes ": " ++ new))) ∷ t.after)
          × (retitled ≡ true)))

Replaced : Text → ℕ → List Text → Text → List Text → Text → Type 0
Replaced prefix n lines new lines' old =
    (t : TitleLine prefix n lines) × (t.old ≡ old)
    × (lines' ≡ t.before ++ (codes "# " ++ (t.id ++ (codes ": " ++ new))) ∷ t.after)

-- The line itself, and a line in front.
at_title :
    (prefix : Text) (n : ℕ) (line : Text) (lines : List Text) (new : Text) (lines' : List Text)
    (old : Text) (h : Header)
    → looks_like_title prefix line ≡ true
    → parse_task_header prefix line ≡ h
    → with_line lines (retitle new line h) ≡ ok (lines', old)
    → Replaced prefix (suc n) (line ∷ lines) new lines' old
unfolding Replaced
at_title prefix n line lines new lines' old (header id was) looks parses h = (
  record {
    before = [];
    line = line;
    after = lines;
    id = id;
    old = was;
    whole = refl;
    early = ground arith;
    first = tt;
    is_title = looks;
    parses = parses;
  },
  ground arith,
  ground arith,
)
at_title prefix n line lines new lines' old malformed looks parses h = absurd (ground arith)
at_title prefix n line lines new lines' old no_header looks parses h = absurd (ground arith)

behind :
    (prefix : Text) (n : ℕ) (line : Text) (lines : List Text) (new : Text) (lines' : List Text)
    (old : Text) (r : Result (List Text × Text))
    → looks_like_title prefix line ≡ false
    → ((ls : List Text) (o : Text) → r ≡ ok (ls, o) → Replaced prefix n lines new ls o)
    → onto_lines line r ≡ ok (lines', old)
    → Replaced prefix (suc n) (line ∷ lines) new lines' old
unfolding Replaced
behind prefix n line lines new lines' old (err e) looks rest h = absurd (ground arith)
behind prefix n line lines new lines' old (ok (ls, o)) looks rest h =
    let (t, same, then_) = rest ls o refl in
    let olds : o ≡ old = ground arith in
    let news : line ∷ ls ≡ lines' = ground arith in
    (
      record {
        before = line ∷ t.before;
        line = t.line;
        after = t.after;
        id = t.id;
        old = t.old;
        whole = ap (λ xs. line ∷ xs) t.whole;
        early = let e = t.early in ground arith;
        first = (looks, t.first);
        is_title = t.is_title;
        parses = t.parses;
      },
      same ∙ olds,
      sym news ∙ ap (λ xs. line ∷ xs) then_,
    )

replace_task_title-Replaced :
    (prefix : Text) (n : ℕ) (lines : List Text) (new : Text) (lines' : List Text) (old : Text)
    → replace_task_title prefix n lines new ≡ ok (lines', old)
    → Replaced prefix n lines new lines' old
unfolding replace_task_title
replace_task_title-Replaced prefix zero lines new lines' old h = absurd (ground arith)
replace_task_title-Replaced prefix (suc n) [] new lines' old h = absurd (ground arith)
replace_task_title-Replaced prefix (suc n) (line ∷ lines) new lines' old h =
    elim (Bool-cases (looks_like_title prefix line)) [
      | inl e ↦
          at_title prefix n line lines new lines' old (parse_task_header prefix line) e refl
            (rw e at h)
      | inr e ↦
          behind prefix n line lines new lines' old (replace_task_title prefix n lines new) e
            (λ ls o k. replace_task_title-Replaced prefix n lines new ls o k) (rw e at h)
    ]

renamed-Renamed :
    (prefix : Text) (lines : List Text) (new : Text) (lines' : List Text) (retitled : Bool)
    (r : Result (List Text × Text))
    → replace_task_title prefix max_metadata_lines lines new ≡ r
    → renamed lines new r ≡ ok (lines', retitled)
    → Renamed prefix lines (some new) lines' retitled
unfolding Replaced
renamed-Renamed prefix lines new lines' retitled (err e) k h = absurd (ground arith)
renamed-Renamed prefix lines new lines' retitled (ok (changed, old)) k h =
    let (t, same, then_) =
      replace_task_title-Replaced prefix max_metadata_lines lines new changed old k in
    elim (Bool-cases (text_eq old new)) [
      | inl e ↦
          let q = rw e at h in
          let whole : lines' ≡ lines = ground arith in
          let flag : retitled ≡ false = ground arith in
          (t, inl (same ∙ text_eq_sound old new e, whole, flag))
      | inr e ↦
          let q = rw e at h in
          let whole : lines' ≡ changed = ground arith in
          let flag : retitled ≡ true = ground arith in
          let differs : old ≢ new = λ z. absurd (ground (arith, text_eq_iff old new)) in
          (t, inr ((λ z. differs (sym same ∙ z)), whole ∙ then_, flag))
    ]

pub apply_title-Renamed :
    (prefix : Text) (lines : List Text) (title : Option Text) (lines' : List Text) (retitled : Bool)
    → apply_title prefix lines title ≡ ok (lines', retitled)
    → Renamed prefix lines title lines' retitled
unfolding apply_title
apply_title-Renamed prefix lines none lines' retitled h = (ground arith, ground arith)
apply_title-Renamed prefix lines (some new) lines' retitled h =
    renamed-Renamed prefix lines new lines' retitled
      (replace_task_title prefix max_metadata_lines lines new) refl h
