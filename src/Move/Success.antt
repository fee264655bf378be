-- ===== src/Move/Success.antt =====
-- A move that succeeds.
use task_board_tools.Base.{
  Bool, false, Option, none, some, ◌≡◌, ◌≢◌, arith, Text, ◌∙◌, sym, Bool-cases, inl, inr, refl,
  true, ap,
}
use task_board_tools.Status.{Status, status_eq}
use task_board_tools.Board.{
  Board, ok, TaskRef, file, slot_at, resolve_form, node_of, place_eq, read_ref, mkdir_failed, Form,
  Slot, absent, folder_form, file_form,
}
use task_board_tools.Gates.{Config, MoveGuard, ensure_move_destination_free, resolve_move_source}
use task_board_tools.Move.{
  Disk, M, ◌>>=◌, check, attempt, pure, move_checks, run_guard, review_gate, TaskMove, move_writes,
  before_rename, write_markdown, place_text, append_log_entry, log_line, rename_task, status_eq,
  move_from, move_task_with_guard,
}
use task_board_tools.Move.Frame.{
  check_ok, attempt_ok, bind_ok, Renamed, rename_task_lem, cleanup_orphan_lem, Wrote,
  write_markdown_lem,
}
use task_board_tools.Gates.Source.{OnlyAt, resolve_move_source-OnlyAt}
use task_board_tools.Board.Forms.{
  other_node, resolve_form-none, resolve_form-some, resolve_form_file, resolve_form_absent,
}
use task_board_tools.Board.Slots.{SameBut, place_eq_status}
use task_board_tools.Status.Laws.{status_eq_iff}

-- The task stands in the target column with the new content, and in no other; every place but its
-- old and its new one is as it was.
pub record MovedTo (b b' : Board) (id : Text) (src : TaskRef) (target : Status) (content : Text)
    : Type 0 where
  pub arrived : resolve_form (slot_at b' target id) ≡ ok (some src.form)
  pub written : node_of src.form (slot_at b' target id) ≡ file content
  pub alone : (s : Status) → s ≢ target → resolve_form (slot_at b' s id) ≡ ok none
  pub frame :
      (t : Status) (j : Text)
      → place_eq src.status id t j ≡ false
      → place_eq target id t j ≡ false
      → slot_at b' t j ≡ slot_at b t j

-- What the checks of a successful move have found.
pub record Checked (c : Config) (d : Disk) (id : Text) (target : Status) (guard : Option MoveGuard)
    (src : TaskRef) (b : Board) (content : Text) : Type 0 where
  pub reviewed : (x : Bool) × (review_gate c src target b ≡ ok x)
  pub guarded : (x : Bool) × (run_guard guard id src.status target b ≡ ok x)
  pub free : (x : Bool) × (ensure_move_destination_free b target id ≡ ok x)
  pub read : read_ref b src ≡ ok content

-- The checks that are left after each.
abbrev checks_free : TaskRef → Bool → M Text
checks_free src _ = check (λ b. read_ref b src)

abbrev checks_made : Text → Status → TaskRef → Bool → M Text
checks_made id target src _ =
    check (λ b. ensure_move_destination_free b target id) >>= checks_free src

abbrev checks_guarded : Config → Disk → Text → Status → TaskRef → Bool → M Text
checks_guarded c d id target src _ = attempt d.mkdir_ok mkdir_failed >>= checks_made id target src

abbrev checks_reviewed : Config → Disk → Text → Status → Option MoveGuard → TaskRef → Bool → M Text
checks_reviewed c d id target guard src _ =
    check (run_guard guard id src.status target) >>= checks_guarded c d id target src

pub move_checks_ok :
    (c : Config) (d : Disk) (id : Text) (target : Status) (guard : Option MoveGuard) (src : TaskRef)
    (b b' : Board) (content : Text)
    → move_checks c d id target guard src b ≡ (b', ok content)
    → (b' ≡ b) × Checked c d id target guard src b content
unfolding move_checks
move_checks_ok c d id target guard src b b' content h =
    let (x, reviewed, h₁) =
      check_ok (review_gate c src target) (checks_reviewed c d id target guard src) b b' content
        h in
    let (y, guarded, h₂) =
      check_ok (run_guard guard id src.status target) (checks_guarded c d id target src) b b'
        content h₁ in
    let (made, h₃) =
      attempt_ok d.mkdir_ok mkdir_failed (checks_made id target src) b b' content h₂ in
    let (z, free, h₄) =
      check_ok (λ b. ensure_move_destination_free b target id) (checks_free src) b b' content h₃ in
    (
      ground arith,
      record {
        reviewed = (x, reviewed);
        guarded = (y, guarded);
        free = (z, free);
        read = ground arith;
      },
    )

-- The slots before the rename: the folder task has lost its orphan, and nothing else has changed.
pub before_rename_lem :
    (d : Disk) (form : Form) (s : Status) (id : Text) (b b' : Board) (r : Bool)
    → resolve_form (slot_at b s id) ≡ ok (some form)
    → before_rename d form s id b ≡ (b', ok r)
    → (node_of form (slot_at b' s id) ≡ node_of form (slot_at b s id))
      × (other_node form (slot_at b' s id) ≡ absent)
      × SameBut b b' s id
before_rename_lem d folder_form s id b b' r here h =
    let ((t, e), _) = resolve_form-some folder_form (slot_at b s id) here in
    let (new, frame) = cleanup_orphan_lem d s id b b' r h (λ q. ground arith) in
    (rw new, rw new, frame)
before_rename_lem d file_form s id b b' r here h =
    let (_, lone) = resolve_form-some file_form (slot_at b s id) here in
    let e : b' ≡ b = ground arith in (rw e, rw e (lone refl), λ t j _. rw e)

place_text_lem :
    (form : Form) (content : Text) (x : Slot)
    → (node_of form (place_text form content x) ≡ file content)
      × (other_node form (place_text form content x) ≡ other_node form x)
place_text_lem folder_form content x = (refl, refl)
place_text_lem file_form content x = (refl, refl)

other-absent : (form : Form) (x : Slot) → resolve_form x ≡ ok none → other_node form x ≡ absent
other-absent folder_form x h = (resolve_form-none x h).1
other-absent file_form x h = (resolve_form-none x h).0

-- The facts about the three writes make up the move.
finish :
    (id : Text) (target : Status) (src : TaskRef) (text : Text) (b b₁ b₂ b₃ : Board)
    → OnlyAt b id src
    → src.status ≢ target
    → other_node src.form (slot_at b₁ src.status id) ≡ absent
    → SameBut b b₁ src.status id
    → Renamed src.form src.status target id b₁ b₂
    → Wrote b₂ b₃ target id (place_text src.form text (slot_at b₂ target id))
    → MovedTo b b₃ id src target text
finish id target src text b b₁ b₂ b₃ only ne gone frame₁ moved (placed, frame₃) =
    let at_target : slot_at b₁ target id ≡ slot_at b target id =
      frame₁ target id (place_eq_status src.status id target ne) in
    let no_other : other_node src.form (slot_at b₂ target id) ≡ absent =
      moved.target_rest
      ∙ rw at_target
          (other-absent src.form (slot_at b target id) (only.alone target (λ e. ne (sym e)))) in
    let (new_text, rest) = place_text_lem src.form text (slot_at b₂ target id) in
    let written : node_of src.form (slot_at b₃ target id) ≡ file text = rw placed new_text in
    let same_src : slot_at b₃ src.status id ≡ slot_at b₂ src.status id =
      frame₃ src.status id (place_eq_status target id src.status (λ e. ne (sym e))) in
    record {
      arrived =
          resolve_form_file src.form (slot_at b₃ target id) text written
            (rw placed (rest ∙ no_other));
      written = written;
      alone = λ s away. elim (Bool-cases (status_eq s src.status)) [
        | inl e ↦
            rw ((status_eq_iff s src.status).0 e, same_src)
              (resolve_form_absent src.form (slot_at b₂ src.status id) moved.left
                (moved.src_rest ∙ gone))
        | inr e ↦
            let apart : s ≢ src.status = λ q. absurd (ground (arith, status_eq_iff s src.status)) in
            let off_src = place_eq_status src.status id s (λ q. apart (sym q)) in
            let off_target = place_eq_status target id s (λ q. away (sym q)) in
            rw (frame₃ s id off_target, moved.frame s id off_src off_target, frame₁ s id off_src)
              (only.alone s apart)
      ];
      frame = λ t j p q. frame₃ t j q ∙ (moved.frame t j p q ∙ frame₁ t j p);
    }

abbrev pub writes_renamed :
    Disk → Text → Status → (Status → Text) → TaskRef → Text → Bool → M TaskMove
writes_renamed d id target message src content _ =
    write_markdown d src.form target id
      (append_log_entry d.redact_line content (log_line d (message src.status)))
    >>= λ _. pure (record { src_status = src.status; noop = false })

pub move_writes_ok :
    (d : Disk) (id : Text) (target : Status) (message : Status → Text) (src : TaskRef)
    (content : Text) (b b' : Board) (r : TaskMove)
    → OnlyAt b id src
    → src.status ≢ target
    → move_writes d id target message src content b ≡ (b', ok r)
    → MovedTo b b' id src target
        (append_log_entry d.redact_line content (log_line d (message src.status)))
      × (r ≡ record { src_status = src.status; noop = false })
unfolding move_writes
move_writes_ok d id target message src content b b' r only ne h =
    let text = append_log_entry d.redact_line content (log_line d (message src.status)) in
    let (b₁, x₁, e₁, h₁) =
      bind_ok (before_rename d src.form src.status id)
        (λ _.
          rename_task d src.form src.status target id
          >>= writes_renamed d id target message src content)
        b b' r h in
    let (b₂, x₂, e₂, h₂) =
      bind_ok (rename_task d src.form src.status target id)
        (writes_renamed d id target message src content) b₁ b' r h₁ in
    let (b₃, x₃, e₃, h₃) =
      bind_ok (write_markdown d src.form target id text)
        (λ _. pure (record { src_status = src.status; noop = false })) b₂ b' r h₂ in
    let (kept, gone, frame₁) =
      before_rename_lem d src.form src.status id b b₁ x₁ only.found.present e₁ in
    let moved = rename_task_lem d src.form src.status target id b₁ b₂ x₂ ne e₂ in
    let (placed, frame₃) = write_markdown_lem d src.form target id text b₂ b₃ x₃ e₃ in
    let same : b' ≡ b₃ = ground arith in
    let p = finish id target src text b b₁ b₂ b₃ only ne gone frame₁ moved (placed, frame₃) in
    (rw same p, ground arith)

move_from_ok :
    (c : Config) (d : Disk) (id : Text) (target : Status) (guard : Option MoveGuard)
    (message : Status → Text) (src : TaskRef) (there : Bool) (b b' : Board) (r : TaskMove)
    → r.noop ≡ false
    → move_from c d id target guard message (src, there) b ≡ (b', ok r)
    → (there ≡ false)
      × ((content : Text) × Checked c d id target guard src b content
          × (move_writes d id target message src content b ≡ (b', ok r)))
move_from_ok c d id target guard message src true b b' r moved h = absurd (ground arith)
move_from_ok c d id target guard message src false b b' r moved h =
    let (b₁, content, e, k) =
      bind_ok (move_checks c d id target guard src) (move_writes d id target message src) b b' r
        h in
    let (same, checked) = move_checks_ok c d id target guard src b b₁ content e in
    (refl, (content, checked, rw same at k))

-- What a successful move that is no no-op has found and done.
pub record MoveDone (c : Config) (d : Disk) (id : Text) (target : Status) (guard : Option MoveGuard)
    (message : Status → Text) (b b' : Board) (r : TaskMove) : Type 0 where
  pub src : TaskRef
  pub content : Text
  pub only : OnlyAt b id src
  pub elsewhere : src.status ≢ target
  pub checked : Checked c d id target guard src b content
  pub moved :
      MovedTo b b' id src target
        (append_log_entry d.redact_line content (log_line d (message src.status)))
  pub reported : r ≡ record { src_status = src.status; noop = false }

-- A move that reports success, and not that the task was there already, has moved the task: before, it
-- stood in one column only, another than the target; all checks passed on that board, the guard and the
-- review gate among them; now it stands in the target, in the same form, with its old text and the log
-- entry, and in no other column; and every place of every other task is as it was.
pub move_task_done :
    (c : Config) (d : Disk) (id : Text) (target : Status) (guard : Option MoveGuard)
    (message : Status → Text) (b b' : Board) (r : TaskMove)
    → r.noop ≡ false
    → move_task_with_guard c d id target guard message b ≡ (b', ok r)
    → MoveDone c d id target guard message b b' r
unfolding move_task_with_guard
move_task_done c d id target guard message b b' r moved h =
    let ((src, there), e, k) =
      check_ok (λ b. resolve_move_source b id target) (move_from c d id target guard message) b b' r
        h in
    let (away, (content, checked, w)) =
      move_from_ok c d id target guard message src there b b' r moved k in
    let source : resolve_move_source b id target ≡ ok (src, false) =
      e ∙ ap (λ (x : Bool). ok (src, x)) away in
    let (only, ne) = resolve_move_source-OnlyAt b id target src source in
    let (done, reported) = move_writes_ok d id target message src content b b' r only ne w in
    record {
      src = src;
      content = content;
      only = only;
      elsewhere = ne;
      checked = checked;
      moved = done;
      reported = reported;
    }
