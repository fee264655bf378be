-- ===== src/Edit/Refused.antt =====
-- A `tb edit` that fails.
use task_board_tools.Base.{true, List, [], ◌∷◌, Option, Text, ◌≡◌, refl, arith, sym, ◌⊎◌, inl, inr}
use task_board_tools.Strings.{split}
use task_board_tools.Status.{all_status_dirs}
use task_board_tools.Board.{
  Board, Result, ok, err, Error, TaskRef, resolve_task_ref, read_ref, slot_at,
}
use task_board_tools.Gates.{Config}
use task_board_tools.Move.{
  Disk, M, ◌>>=◌, ◌>>◌, pure, check, write_markdown, cleanup_orphan, place_text,
}
use task_board_tools.Move.Frame.{Wrote, write_markdown_lem}
use task_board_tools.Move.Errors.{bind_err}
use task_board_tools.Edit.{EditFlags, EditChange, collect_changes, new_title}
use task_board_tools.Edit.Command.{
  edit_task, edit_locked, BodyEdit, BodySources, EditInput, collect_bodies, apply_title,
  edited_text, applied_labels, some_change, write_edit,
}
use task_board_tools.Edit.Written.{final_text}
use task_board_tools.Edit.Done.{after_read, after_title, after_bodies}

-- A failed check of the board: it leaves the board alone, and so does all after it that does.
check_err :
    {A B : Type 0} (P : Type 0) (f : Board → Result A) (k : A → M B) (b b' : Board) (e : Error)
    → (check f >>= k) b ≡ (b', err e)
    → (b' ≡ b → P)
    → ((a : A) → f b ≡ ok a → k a b ≡ (b', err e) → P)
    → P
check_err {A} P f k b b' e h stop go = split_result (f b) refl h
  where
    split_result :
        (p : Result A) → f b ≡ p → (elim p [ ok a ↦ k a b | err x ↦ (b, err x) ]) ≡ (b', err e) → P
    split_result (ok a) q r = go a q r
    split_result (err x) q r = stop (ground arith)

-- Nothing was written, or the markdown was written and only the file beside its folder stayed.
abbrev pub OnlyBeside : Config → Disk → Text → Board → Board → Error → Type 0
OnlyBeside c d id b b' e =
    (b' ≡ b)
    ⊎ ((ref : TaskRef) × (text : Text) × (resolve_task_ref c.prefix b id all_status_dirs ≡ ok ref)
        × Wrote b b' ref.status ref.id (place_text ref.form text (slot_at b ref.status ref.id))
        × (cleanup_orphan d ref.status ref.id b' ≡ (b', err e)))

cleanup_orphan_err :
    (d : Disk) (ref : TaskRef) (b b' : Board) (e : Error)
    → cleanup_orphan d ref.status ref.id b ≡ (b', err e)
    → b' ≡ b
unfolding cleanup_orphan
cleanup_orphan_err d ref b b' e h = ground arith

write_markdown_err :
    (d : Disk) (ref : TaskRef) (text : Text) (b b' : Board) (e : Error)
    → write_markdown d ref.form ref.status ref.id text b ≡ (b', err e)
    → b' ≡ b
unfolding write_markdown
write_markdown_err d ref text b b' e h = ground arith

write_edit_err :
    (c : Config) (d : Disk) (id : Text) (ref : TaskRef) (text : Text) (labels : List Text)
    (b b' : Board) (e : Error)
    → resolve_task_ref c.prefix b id all_status_dirs ≡ ok ref
    → write_edit d ref text labels b ≡ (b', err e)
    → OnlyBeside c d id b b' e
write_edit_err c d id ref text [] b b' e found h = absurd (ground arith)
write_edit_err c d id ref text (l ∷ ls) b b' e found h =
    elim (bind_err (write_markdown d ref.form ref.status ref.id (final_text d text (l ∷ ls)))
      (λ _. cleanup_orphan d ref.status ref.id >> pure true) b b' e h) [
        | inl stopped ↦ inl (write_markdown_err d ref (final_text d text (l ∷ ls)) b b' e stopped)
        | inr (b₁, x, wrote, h₁) ↦
            elim (bind_err (cleanup_orphan d ref.status ref.id) (λ _. pure true) b₁ b' e h₁) [
              | inl failed ↦
                  let same : b₁ ≡ b' = sym (cleanup_orphan_err d ref b₁ b' e failed) in
                  let k = rw same at wrote in
                  let kept = rw same at failed in
                  inr (
                    ref,
                    final_text d text (l ∷ ls),
                    found,
                    write_markdown_lem d ref.form ref.status ref.id (final_text d text (l ∷ ls)) b
                        b' x k,
                    kept,
                  )
              | inr (b₂, y, cleaned, h₂) ↦ absurd (ground arith)
            ]
      ]

edit_locked_err :
    (c : Config) (d : Disk) (id : Text) (changes : List EditChange) (bodies : List BodyEdit)
    (title : Option Text) (b b' : Board) (e : Error)
    → edit_locked c d id changes bodies title b ≡ (b', err e)
    → OnlyBeside c d id b b' e
unfolding edit_locked
edit_locked_err c d id changes bodies title b b' e h =
    let P = OnlyBeside c d id b b' e in
    check_err P (λ b. resolve_task_ref c.prefix b id all_status_dirs)
      (λ ref. check (λ b. read_ref b ref) >>= after_read c d changes bodies title ref) b b' e h inl
      (λ ref found h₁.
        check_err P (λ b. read_ref b ref) (after_read c d changes bodies title ref) b b' e h₁ inl
          (λ content _ h₂.
            check_err P (λ _. apply_title c.prefix (split content b'\n') title)
              (λ titled.
                write_edit d ref (edited_text titled.0 changes bodies)
                  (applied_labels changes title titled.1 bodies))
              b b' e h₂ inl
              (λ titled _ h₃.
                write_edit_err c d id ref (edited_text titled.0 changes bodies)
                  (applied_labels changes title titled.1 bodies) b b' e found h₃)))

-- An edit that fails leaves the board as it was, except that it may have written the text of the task
-- that it resolved, if then only the removal of the file beside its folder failed.
pub edit_task-OnlyBeside :
    (c : Config) (d : Disk) (i : EditInput) (id : Text) (flags : EditFlags) (sources : BodySources)
    (b b' : Board) (e : Error)
    → edit_task c d i id flags sources b ≡ (b', err e)
    → OnlyBeside c d id b b' e
unfolding edit_task
edit_task-OnlyBeside c d i id flags sources b b' e h =
    let P = OnlyBeside c d id b b' e in
    check_err P (λ _. collect_changes d.redact_line flags)
      (λ changes.
        check (λ _. new_title d.redact_line flags.title) >>= after_title c d i id sources changes)
      b b' e h inl
      (λ changes _ h₁.
        check_err P (λ _. new_title d.redact_line flags.title)
          (after_title c d i id sources changes) b b' e h₁ inl
          (λ title _ h₂.
            check_err P (λ _. collect_bodies i sources) (after_bodies c d id changes title) b b' e
              h₂ inl
              (λ bodies _ h₃.
                check_err P (λ _. some_change changes bodies title)
                  (λ _. edit_locked c d id changes bodies title) b b' e h₃ inl
                  (λ _ _ h₄. edit_locked_err c d id changes bodies title b b' e h₄))))
