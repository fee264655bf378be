-- ===== src/Move/Errors.antt =====
-- A move that fails.
use task_board_tools.Base.{
  Option, ◌≡◌, ◌⊎◌, inl, inr, refl, arith, Text, ◌≢◌, sym, ◌∙◌, ap, true, false, Bool,
}
use task_board_tools.Status.{Status}
use task_board_tools.Board.{
  Board, Error, Result, ok, err, TaskRef, read_ref, node_of, slot_at, Form, file, folder_form,
  file_form,
}
use task_board_tools.Gates.{Config, MoveGuard, resolve_move_source}
use task_board_tools.Move.{
  Disk, M, ◌>>=◌, move_checks, cleanup_orphan, rename_task, write_markdown, move_writes,
  move_task_with_guard, before_rename, check, append_log_entry, log_line, move_from,
}
use task_board_tools.Gates.Source.{OnlyAt, resolve_move_source-OnlyAt}
use task_board_tools.Move.Success.{Checked, writes_renamed, before_rename_lem, move_checks_ok}
use task_board_tools.Sections.{append_log_entry}
use task_board_tools.Move.Frame.{rename_task_lem}

-- A failed bind: the first part failed, or the second did on what the first left.
pub bind_err :
    {A B : Type 0} (m : M A) (f : A → M B) (b b' : Board) (e : Error)
    → (m >>= f) b ≡ (b', err e)
    → (m b ≡ (b', err e)) ⊎ ((b₁ : Board) × (a : A) × (m b ≡ (b₁, ok a)) × (f a b₁ ≡ (b', err e)))
bind_err {A} {B} m f b b' e h = split_result (m b) refl h
  where
    split_result :
        (p : Board × Result A)
        → m b ≡ p
        → (elim p.1 [ ok a ↦ f a p.0 | err x ↦ (p.0, err x) ]) ≡ (b', err e)
        → (m b ≡ (b', err e))
          ⊎ ((b₁ : Board) × (a : A) × (m b ≡ (b₁, ok a)) × (f a b₁ ≡ (b', err e)))
    split_result (b₁, ok a) q k = inr (b₁, a, q, k)
    split_result (b₁, err x) q k = inl (ground arith)

-- The checks write nothing, whatever they find.
move_checks_reads :
    (c : Config) (d : Disk) (id : Text) (target : Status) (guard : Option MoveGuard) (src : TaskRef)
    (b : Board)
    → (move_checks c d id target guard src b).0 ≡ b
unfolding move_checks
move_checks_reads c d id target guard src b = ground arith

read_ref-file :
    (b : Board) (src : TaskRef) (content : Text)
    → read_ref b src ≡ ok content
    → node_of src.form (slot_at b src.status src.id) ≡ file content
unfolding read_ref
read_ref-file b src content h = ground arith

-- The text is still where it was, or it has arrived unchanged.
abbrev pub Kept : Board → Text → TaskRef → Status → Text → Type 0
Kept b id src target content =
    (node_of src.form (slot_at b src.status id) ≡ file content)
    ⊎ (node_of src.form (slot_at b target id) ≡ file content)

before_rename_err :
    (d : Disk) (form : Form) (s : Status) (id : Text) (b b' : Board) (e : Error)
    → before_rename d form s id b ≡ (b', err e)
    → b' ≡ b
unfolding cleanup_orphan
before_rename_err d folder_form s id b b' e h = ground arith
before_rename_err d file_form s id b b' e h = ground arith

rename_task_err :
    (d : Disk) (form : Form) (src target : Status) (id : Text) (b b' : Board) (e : Error)
    → rename_task d form src target id b ≡ (b', err e)
    → b' ≡ b
unfolding rename_task
rename_task_err d folder_form src target id b b' e h = ground arith
rename_task_err d file_form src target id b b' e h = ground arith

writes_renamed_err :
    (d : Disk) (id : Text) (target : Status) (message : Status → Text) (src : TaskRef)
    (content : Text) (x : Bool) (b b' : Board) (e : Error)
    → writes_renamed d id target message src content x b ≡ (b', err e)
    → b' ≡ b
unfolding write_markdown
writes_renamed_err d id target message src content x b b' e h = ground arith

move_writes_err :
    (d : Disk) (id : Text) (target : Status) (message : Status → Text) (src : TaskRef)
    (content : Text) (b b' : Board) (e : Error)
    → OnlyAt b id src
    → src.status ≢ target
    → read_ref b src ≡ ok content
    → move_writes d id target message src content b ≡ (b', err e)
    → Kept b' id src target content
unfolding move_writes
move_writes_err d id target message src content b b' e only ne read h =
    let there : node_of src.form (slot_at b src.status id) ≡ file content =
      rw (← only.found.named) (read_ref-file b src content read) in
    let text = append_log_entry d.redact_line content (log_line d (message src.status)) in
    elim (bind_err (before_rename d src.form src.status id)
      (λ _.
        rename_task d src.form src.status target id
        >>= writes_renamed d id target message src content)
      b b' e h) [
        | inl q ↦ inl (rw (before_rename_err d src.form src.status id b b' e q) there)
        | inr (b₁, x₁, q₁, h₁) ↦
            let still : node_of src.form (slot_at b₁ src.status id) ≡ file content =
              (before_rename_lem d src.form src.status id b b₁ x₁ only.found.present q₁).0
              ∙ there in
            elim (bind_err (rename_task d src.form src.status target id)
              (writes_renamed d id target message src content) b₁ b' e h₁) [
                | inl q ↦ inl (rw (rename_task_err d src.form src.status target id b₁ b' e q) still)
                | inr (b₂, x₂, q₂, h₂) ↦
                    let arrived =
                      (rename_task_lem d src.form src.status target id b₁ b₂ x₂ ne q₂).arrived
                      ∙ still in
                    let same = writes_renamed_err d id target message src content x₂ b₂ b' e h₂ in
                    inr (rw same arrived)
              ]
      ]

-- A move that fails loses no text. Either nothing was written, or the task stood in one column only and
-- its text is still whole, in the old column or in the new one. A refusal by a check is of the first
-- kind, and so is every failure before the first write.
pub move_error_keeps :
    (c : Config) (d : Disk) (id : Text) (target : Status) (guard : Option MoveGuard)
    (message : Status → Text) (b b' : Board) (e : Error)
    → move_task_with_guard c d id target guard message b ≡ (b', err e)
    → (b' ≡ b)
      ⊎ ((src : TaskRef) × (content : Text) × OnlyAt b id src
          × Checked c d id target guard src b content
          × Kept b' id src target content)
unfolding move_task_with_guard
move_error_keeps c d id target guard message b b' e h =
    elim (bind_err (check (λ b. resolve_move_source b id target))
      (move_from c d id target guard message) b b' e h) [
        | inl q ↦ inl (ground arith)
        | inr (b₁, (src, true), q, k) ↦ absurd (ground arith)
        | inr (b₁, (src, false), q, k) ↦
            let same : b₁ ≡ b = ground arith in
            let source : resolve_move_source b id target ≡ ok (src, false) = ground arith in
            let (only, ne) = resolve_move_source-OnlyAt b id target src source in
            elim (bind_err (move_checks c d id target guard src)
              (move_writes d id target message src) b₁ b' e k) [
                | inl p ↦
                    inl (
                      sym (ap (λ r. r.0) p) ∙ (move_checks_reads c d id target guard src b₁ ∙ same))
                | inr (b₂, content, p, w) ↦
                    let (same', checked) = move_checks_ok c d id target guard src b₁ b₂ content p in
                    let here = same' ∙ same in
                    inr (
                      src,
                      content,
                      only,
                      (rw same at checked),
                      move_writes_err d id target message src content b b' e only ne
                          (rw same at checked.read) (rw here at w),
                    )
              ]
      ]
