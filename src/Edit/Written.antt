-- ===== src/Edit/Written.antt =====
-- What an edit writes at its end, and what it reports.
use task_board_tools.Base.{
  map, if◌then◌else◌, ◌⊎◌, Bool, true, false, List, [], ◌∷◌, ◌++◌, Option, Text, codes, ◌≡◌, ◌≢◌,
  refl, arith, sym, some, inl, none, inr,
}
use task_board_tools.Strings.{join}
use task_board_tools.Sections.{append_log_entry}
use task_board_tools.Board.{
  folder_markdown, absent, Node, file, directory, unreadable, Board, ok, TaskRef, slot_at,
}
use task_board_tools.Move.{
  clear_file, Disk, ◌>>◌, pure, log_line, write_markdown, cleanup_orphan, place_text,
}
use task_board_tools.Move.Frame.{cleanup_orphan_lem, bind_ok, write_markdown_lem, Wrote}
use task_board_tools.Edit.{EditChange}
use task_board_tools.Edit.Command.{title_label, BodyEdit, applied_labels, write_edit}

-- The text that an edit leaves in the file, its log entry included.
abbrev pub final_text : Disk → Text → List Text → Text
final_text d text labels =
    append_log_entry d.redact_line text (log_line d (codes "Edited " ++ join labels (codes ", ")))

-- What the log entry names: the changes by their flags and values, the title if it is a new one, and the
-- sections.
abbrev pub title_told : Option Text → Bool → List Text
title_told none retitled = []
title_told (some new) retitled = if retitled then (codes "title=" ++ new) ∷ [] else []

abbrev pub labels_told : List EditChange → Option Text → Bool → List BodyEdit → List Text
labels_told changes title retitled bodies =
    map (λ (c : EditChange). c.label) changes
    ++ title_told title retitled
    ++ map (λ (e : BodyEdit). e.label) bodies

-- A folder with a markdown stands alone afterwards; a task without one is left as it is.
abbrev pub Alone : TaskRef → Board → Board → Type 0
Alone ref b b' =
    ((folder_markdown (slot_at b ref.status ref.id).folder ≡ absent) × (b' ≡ b))
    ⊎ ((folder_markdown (slot_at b ref.status ref.id).folder ≢ absent)
        × Wrote b b' ref.status ref.id (clear_file (slot_at b ref.status ref.id)))

-- Nothing was to be changed and nothing was written, or the text went into the place of the task, and
-- the file that stood beside its folder went.
abbrev pub WroteEdit : Disk → TaskRef → Text → List Text → Board → Board → Bool → Type 0
WroteEdit d ref text labels b b' false = (labels ≡ []) × (b' ≡ b)
WroteEdit d ref text labels b b' true =
    (labels ≢ [])
    × ((b₁ : Board) × Wrote b b₁ ref.status ref.id
          (place_text ref.form (final_text d text labels) (slot_at b ref.status ref.id))
        × Alone ref b₁ b')

no_folder :
    (d : Disk) (ref : TaskRef) (b b' : Board) (x : Bool)
    → folder_markdown (slot_at b ref.status ref.id).folder ≡ absent
    → cleanup_orphan d ref.status ref.id b ≡ (b', ok x)
    → b' ≡ b
unfolding cleanup_orphan
no_folder d ref b b' x none_ h = let k = rw none_ at h in ground arith

alone_or_not : (n : Node) → (n ≡ absent) ⊎ (n ≢ absent)
alone_or_not absent = inl refl
alone_or_not (file t) = inr (λ z. cc)
alone_or_not directory = inr (λ z. cc)
alone_or_not unreadable = inr (λ z. cc)

cleanup_orphan-Alone :
    (d : Disk) (ref : TaskRef) (b b' : Board) (x : Bool)
    → cleanup_orphan d ref.status ref.id b ≡ (b', ok x)
    → Alone ref b b'
cleanup_orphan-Alone d ref b b' x h =
    elim (alone_or_not (folder_markdown (slot_at b ref.status ref.id).folder)) [
      | inl none_ ↦ inl (none_, no_folder d ref b b' x none_ h)
      | inr present ↦ inr (present, cleanup_orphan_lem d ref.status ref.id b b' x h present)
    ]

pub write_edit_lem :
    (d : Disk) (ref : TaskRef) (text : Text) (labels : List Text) (b b' : Board) (wrote : Bool)
    → write_edit d ref text labels b ≡ (b', ok wrote)
    → WroteEdit d ref text labels b b' wrote
write_edit_lem d ref text [] b b' true h = absurd (ground arith)
write_edit_lem d ref text [] b b' false h = (refl, ground arith)
write_edit_lem d ref text (l ∷ ls) b b' wrote h =
    let (b₁, x, w, h₁) =
      bind_ok (write_markdown d ref.form ref.status ref.id (final_text d text (l ∷ ls)))
        (λ _. cleanup_orphan d ref.status ref.id >> pure true) b b' wrote h in
    let (b₂, y, cleaned, h₂) =
      bind_ok (cleanup_orphan d ref.status ref.id) (λ _. pure true) b₁ b' wrote h₁ in
    let same : b₂ ≡ b' = ground arith in
    let reported : wrote ≡ true = ground arith in
    rw reported (
      λ z. absurd (ground arith),
      (
        b₁,
        write_markdown_lem d ref.form ref.status ref.id (final_text d text (l ∷ ls)) b b₁ x w,
        cleanup_orphan-Alone d ref b₁ b' y (rw (sym same) cleaned),
      ),
    )

title_told_lem :
    (title : Option Text) (retitled : Bool) → title_label title retitled ≡ title_told title retitled
title_told_lem none retitled = refl
title_told_lem (some new) true = refl
title_told_lem (some new) false = refl

pub labels_told_lem :
    (changes : List EditChange) (title : Option Text) (retitled : Bool) (bodies : List BodyEdit)
    → applied_labels changes title retitled bodies ≡ labels_told changes title retitled bodies
unfolding applied_labels
labels_told_lem changes title retitled bodies = rw (title_told_lem title retitled) refl
