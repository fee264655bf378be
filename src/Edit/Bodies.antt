-- ===== src/Edit/Bodies.antt =====
-- Which sections `tb edit` writes: `readBodyEditInput` of cli/edit.go for each of its five sources.
use task_board_tools.Base.{
  List, [], ◌∷◌, ◌++◌, Option, none, some, Text, codes, text_eq, text_eq_iff, text_eq_sound, ◌≡◌,
  ◌≢◌, ◌⊎◌, inl, inr, refl, arith, Bool-cases, ltb, length, ◌∙◌, ap,
}
use task_board_tools.Strings.{trim_space}
use task_board_tools.Board.{Result, ok, err}
use task_board_tools.Review.Verdict.{trim_blank_lines, strip_leading_heading}
use task_board_tools.Review.Body.{Given, stripped-Given}
use task_board_tools.Edit.Command.{
  BodyEdit, BodySources, EditInput, read_body_edit, masked_edit, body_edit, append_edits,
  collect_bodies, from_stdin,
}

-- A source that is not given writes no section; one that is given writes what it holds, masked.
abbrev pub Part : EditInput → Text → Text → Text → List BodyEdit → Type 0
Part i source heading label part =
    ((source ≡ []) × (part ≡ []))
    ⊎ ((source ≢ [])
        × ((body : Text) × Given heading (i.input source) body
            × (part ≡ record { heading = heading; body = i.redact_text body; label = label } ∷ [])))

-- The sections of all sources, in order.
pub record BodiesGiven (i : EditInput) (s : BodySources) (bodies : List BodyEdit) : Type 0 where
  pub goal : List BodyEdit
  pub context : List BodyEdit
  pub constraints : List BodyEdit
  pub acceptance : List BodyEdit
  pub attention : List BodyEdit
  pub of_goal : Part i s.goal (codes "## Goal") (codes "goal") goal
  pub of_context : Part i s.context (codes "## Context") (codes "context") context
  pub of_constraints :
      Part i s.constraints (codes "## Constraints") (codes "constraints") constraints
  pub of_acceptance :
      Part i s.acceptance (codes "## Acceptance Criteria") (codes "acceptance") acceptance
  pub of_attention :
      Part i s.user_attention (codes "## User Attention") (codes "user-attention") attention
  pub whole : bodies ≡ goal ++ (context ++ (constraints ++ (acceptance ++ attention)))

read_body_edit-Given :
    (input : Option Text) (heading body : Text)
    → read_body_edit input heading ≡ ok body
    → Given heading input body
unfolding read_body_edit
read_body_edit-Given none heading body h = absurd (ground arith)
read_body_edit-Given (some raw) heading body h =
    let found = strip_leading_heading (trim_blank_lines raw) heading in
    elim (Bool-cases (text_eq (trim_space found) [])) [
      | inl e ↦ let k = rw e at h in absurd (ground arith)
      | inr e ↦
          let same : found ≡ body = let k = rw e at h in ground arith in
          stripped-Given heading raw body e same
    ]

masked_edit_lem :
    (i : EditInput) (heading label : Text) (r : Result Text) (part : List BodyEdit)
    → masked_edit i heading label r ≡ ok part
    → (body : Text) × (r ≡ ok body)
      × (part ≡ record { heading = heading; body = i.redact_text body; label = label } ∷ [])
masked_edit_lem i heading label (err e) part h = absurd (ground arith)
masked_edit_lem i heading label (ok body) part h = (body, refl, ground arith)

body_edit-Part :
    (i : EditInput) (source heading label : Text) (part : List BodyEdit)
    → body_edit i source heading label ≡ ok part
    → Part i source heading label part
unfolding body_edit
body_edit-Part i source heading label part h = elim (Bool-cases (text_eq source [])) [
  | inl e ↦
      let k = rw e at h in
      let empty : part ≡ [] = ground arith in inl (text_eq_sound source [] e, empty)
  | inr e ↦
      let k = rw e at h in
      let (body, reads, same) =
        masked_edit_lem i heading label (read_body_edit (i.input source) heading) part k in
      inr (
        (λ z. absurd (ground (arith, text_eq_iff source []))),
        (body, read_body_edit-Given (i.input source) heading body reads, same),
      )
]

append_edits_lem :
    (r s : Result (List BodyEdit)) (all : List BodyEdit)
    → append_edits r s ≡ ok all
    → (edits : List BodyEdit) × (more : List BodyEdit) × (r ≡ ok edits)
      × (s ≡ ok more)
      × (all ≡ edits ++ more)
append_edits_lem (err e) s all h = absurd (ground arith)
append_edits_lem (ok edits) (err e) all h = absurd (ground arith)
append_edits_lem (ok edits) (ok more) all h = (edits, more, refl, refl, ground arith)

pub collect_bodies-BodiesGiven :
    (i : EditInput) (s : BodySources) (bodies : List BodyEdit)
    → collect_bodies i s ≡ ok bodies
    → BodiesGiven i s bodies
unfolding collect_bodies
collect_bodies-BodiesGiven i s bodies h = elim (Bool-cases (ltb 1 (length (from_stdin s)))) [
  | inl e ↦ let k = rw e at h in absurd (ground arith)
  | inr e ↦
      let k = rw e at h in
      let (goal, more, g, h₁, w) =
        append_edits_lem (body_edit i s.goal (codes "## Goal") (codes "goal")) _ bodies k in
      let (context, more₁, c, h₂, w₁) =
        append_edits_lem (body_edit i s.context (codes "## Context") (codes "context")) _ more h₁ in
      let (constraints, more₂, n, h₃, w₂) =
        append_edits_lem (body_edit i s.constraints (codes "## Constraints") (codes "constraints"))
          _ more₁ h₂ in
      let (acceptance, attention, a, h₄, w₃) =
        append_edits_lem
          (body_edit i s.acceptance (codes "## Acceptance Criteria") (codes "acceptance")) _ more₂
          h₃ in
      record {
        goal = goal;
        context = context;
        constraints = constraints;
        acceptance = acceptance;
        attention = attention;
        of_goal = body_edit-Part i s.goal (codes "## Goal") (codes "goal") goal g;
        of_context = body_edit-Part i s.context (codes "## Context") (codes "context") context c;
        of_constraints =
            body_edit-Part i s.constraints (codes "## Constraints") (codes "constraints")
              constraints n;
        of_acceptance =
            body_edit-Part i s.acceptance (codes "## Acceptance Criteria") (codes "acceptance")
              acceptance a;
        of_attention =
            body_edit-Part i s.user_attention (codes "## User Attention") (codes "user-attention")
              attention h₄;
        whole =
            w
            ∙ ap (λ xs. goal ++ xs)
                (w₁ ∙ ap (λ xs. context ++ xs) (w₂ ∙ ap (λ xs. constraints ++ xs) w₃));
      }
]
