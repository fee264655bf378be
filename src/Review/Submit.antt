-- ===== src/Review/Submit.antt =====
-- What a submission has found and done.
use task_board_tools.Base.{
  Bool, true, false, [], ◌≡◌, ◌≢◌, ◌⊎◌, inl, inr, none, arith, Text, codes, Bool-cases, refl, not,
  ◌∙◌, ap,
}
use task_board_tools.Board.{Board, ok, TaskRef, parse_task_ref, resolve_task_ref, read_ref}
use task_board_tools.Move.Success.{MoveDone, move_task_done}
use task_board_tools.Review.{
  review_submit, submit_from, submittable, submit_move, Status, Config, in_progress, Disk, has_tag,
  ready, Task, failed_tag, Others, backlog, all_status_dirs, tags, clear_marker,
}
use task_board_tools.Gates.{Config, ensure_review_ref, normalize_review_ref}
use task_board_tools.Status.{
  Status, in_progress, ready, backlog, all_status_dirs, code_review, done, archive, status_eq,
}
use task_board_tools.Tags.{has_tag}
use task_board_tools.Move.{◌>>=◌, Disk, move_task, M, TaskMove, check, move_task_with_guard, pure}
use task_board_tools.Ready.{Others, meanwhile}
use task_board_tools.Task.{Task, tags, review_ref}
use task_board_tools.Move.Frame.{check_ok, bind_ok}
use task_board_tools.Review.Marker.{MarkerCleared, clear_marker-MarkerCleared}
use task_board_tools.Gates.Review.{review_gate_lem}

abbrev pub submit_message : Status → Text
submit_message _ = codes "Submitted to code-review"

-- The columns that a task may be submitted from.
abbrev pub MaySubmit : Status → Text → Type 0
MaySubmit s task_tags =
    (s ≡ in_progress) ⊎ (((s ≡ ready) ⊎ (s ≡ backlog)) × (has_tag task_tags failed_tag ≡ true))

-- What the first look has found, what the first locked section has written on the board that it found,
-- `others b`, and what the second has moved on the board that it found in turn, `later between`.
pub record Submitted (c : Config) (d : Disk) (others later : Others) (id : Text) (b b' : Board)
    : Type 0 where
  pub ref : TaskRef
  pub task : Task
  pub resolved : resolve_task_ref c.prefix b id all_status_dirs ≡ ok ref
  pub parses : parse_task_ref c.prefix b ref ≡ ok task
  pub allowed : MaySubmit ref.status (task.meta tags)
  pub between : Board
  pub unmarked : MarkerCleared c d ref task (others b) between
  pub result : TaskMove
  pub moved : MoveDone c d id code_review none submit_message (later between) b' result
  pub reviewed :
      (t : Task) × (parse_task_ref c.prefix (later between) moved.src ≡ ok t)
      × (normalize_review_ref (t.meta review_ref) ≢ [])

submittable-MaySubmit :
    (s : Status) (task_tags : Text)
    → submittable s (has_tag task_tags failed_tag) ≡ ok true
    → MaySubmit s task_tags
submittable-MaySubmit in_progress task_tags h = inl refl
submittable-MaySubmit code_review task_tags h = absurd (ground arith)
submittable-MaySubmit ready task_tags h = inr (inl refl, ground arith)
submittable-MaySubmit backlog task_tags h = inr (inr refl, ground arith)
submittable-MaySubmit done task_tags h = absurd (ground arith)
submittable-MaySubmit archive task_tags h = absurd (ground arith)

module _ (c : Config) (d : Disk) (others later : Others) (id : Text) where
  -- The end of the command, on the board that the second lock finds.
  submit_move_done :
      (b b' : Board)
      → submit_move c d later id b ≡ (b', ok true)
      → (r : TaskMove) × MoveDone c d id code_review none submit_message (later b) b' r
  unfolding move_task
  submit_move_done b b' h =
      let (b₁, r, e, k) =
        bind_ok (move_task_with_guard c d id code_review none submit_message)
          (λ r. pure (not r.noop)) (later b) b' true h in
      let same : b₁ ≡ b' = ground arith in
      let went : r.noop ≡ false = ground arith in
      (
        r,
        move_task_done c d id code_review none submit_message (later b) b' r went
            (e ∙ ap (λ x. (x, ok r)) same),
      )

  after_marker : TaskRef → Task → Bool → M Bool
  after_marker ref t _ = submit_move c d later id

  after_reading : TaskRef → Task → Text → M Bool
  after_reading ref t _ = meanwhile others >>= λ _. clear_marker c d ref t >>= after_marker ref t

  after_gate : TaskRef → Task → Bool → M Bool
  after_gate ref t _ = check (λ b. read_ref b ref) >>= after_reading ref t

  submit_from_done :
      (ref : TaskRef) (t : Task) (b b' : Board)
      → submit_from c d others later id ref t true b ≡ (b', ok true)
      → (b₁ : Board) × (r : TaskMove) × MarkerCleared c d ref t (others b) b₁
        × MoveDone c d id code_review none submit_message (later b₁) b' r
  unfolding after_marker after_reading after_gate
  submit_from_done ref t b b' h =
      let (_, _, h₁) = check_ok (λ b. ensure_review_ref c b ref) (after_gate ref t) b b' true h in
      let (_, _, h₂) = check_ok (λ b. read_ref b ref) (after_reading ref t) b b' true h₁ in
      let (b₁, x, cleared, h₃) =
        bind_ok (clear_marker c d ref t) (after_marker ref t) (others b) b' true h₂ in
      let (r, did) = submit_move_done b₁ b' h₃ in
      (b₁, r, clear_marker-MarkerCleared c d ref t (others b) b₁ x cleared, did)

-- A submission that reports a move found the task in `in-progress`, or in `ready` or `backlog` with the
-- tag of a failed review. On the board of its first locked section, whatever other processes had done,
-- it took that tag, in any case and no other one, out of the file that it found there, or left the board
-- alone if the task was in progress. On the board that its second locked section found after that and
-- after what other processes did once more, the task had a review reference that is no placeholder, and
-- there the move was done.
pub review_submit_lem :
    (c : Config) (d : Disk) (others later : Others) (id : Text) (b b' : Board)
    → review_submit c d others later id b ≡ (b', ok true)
    → Submitted c d others later id b b'
unfolding review_submit status_eq
review_submit_lem c d others later id b b' h =
    let (ref, resolved, h₁) =
      check_ok (λ b. resolve_task_ref c.prefix b id all_status_dirs)
        (λ ref. check (λ b. parse_task_ref c.prefix b ref) >>= λ t.
          check (λ _. submittable ref.status (has_tag (t.meta tags) failed_tag))
          >>= submit_from c d others later id ref t)
        b b' true h in
    let (t, parses, h₂) =
      check_ok (λ b. parse_task_ref c.prefix b ref)
        (λ t.
          check (λ _. submittable ref.status (has_tag (t.meta tags) failed_tag))
          >>= submit_from c d others later id ref t)
        b b' true h₁ in
    let (x, go_on, h₃) =
      check_ok (λ _. submittable ref.status (has_tag (t.meta tags) failed_tag))
        (submit_from c d others later id ref t) b b' true h₂ in
    elim (Bool-cases x) [
      | inr e ↦ let stopped = rw e at h₃ in absurd (ground arith)
      | inl e ↦
          let (b₁, r, unmarked, did) =
            submit_from_done c d others later id ref t b b' (rw e at h₃) in
          let (y, gate) = did.checked.reviewed in
          record {
            ref = ref;
            task = t;
            resolved = resolved;
            parses = parses;
            allowed = submittable-MaySubmit ref.status (t.meta tags) (go_on ∙ ap ok e);
            between = b₁;
            unmarked = unmarked;
            result = r;
            moved = did;
            reviewed = review_gate_lem c (later b₁) did.src y gate;
          }
    ]
