-- ===== src/Move/Frame.antt =====
-- What each write of a move does to each place of the board.
use task_board_tools.Base.{Bool, false, ◌≡◌, ◌≢◌, refl, sym, ◌∙◌, arith, Text, inl, inr, ◌⊎◌, true}
use task_board_tools.Status.{Status}
use task_board_tools.Board.{
  Board, Result, ok, err, Form, folder_form, file_form, absent, Slot, slot_at, put, folder_markdown,
  place_eq, node_of, Error,
}
use task_board_tools.Board.Forms.{other_node}
use task_board_tools.Board.Slots.{slot_at-put_same, slot_at-put_other, place_eq_status, SameBut}
use task_board_tools.Move.{
  Disk, M, ◌>>=◌, check, attempt, cleanup_orphan, rename_task, write_markdown, clear_file,
  clear_folder, set_folder, set_file, place_text,
}

-- Inversion of a successful bind.
pub bind_ok :
    {A B : Type 0} (m : M A) (f : A → M B) (b b' : Board) (r : B)
    → (m >>= f) b ≡ (b', ok r)
    → (b₁ : Board) × (a : A) × (m b ≡ (b₁, ok a)) × (f a b₁ ≡ (b', ok r))
bind_ok {A} {B} m f b b' r h = split_result (m b) refl h
  where
    split_result :
        (p : Board × Result A)
        → m b ≡ p
        → (elim p.1 [ ok a ↦ f a p.0 | err e ↦ (p.0, err e) ]) ≡ (b', ok r)
        → (b₁ : Board) × (a : A) × (m b ≡ (b₁, ok a)) × (f a b₁ ≡ (b', ok r))
    split_result (b₁, ok a) e k = (b₁, a, e, k)
    split_result (b₁, err x) e k = absurd (ground arith)

-- So for a check of the board, which leaves it alone, and for an attempt.
pub check_ok :
    {A B : Type 0} (f : Board → Result A) (k : A → M B) (b b' : Board) (r : B)
    → (check f >>= k) b ≡ (b', ok r)
    → (a : A) × (f b ≡ ok a) × (k a b ≡ (b', ok r))
check_ok {A} f k b b' r h = split_result (f b) refl h
  where
    split_result :
        (p : Result A)
        → f b ≡ p
        → (elim p [ ok a ↦ k a b | err e ↦ (b, err e) ]) ≡ (b', ok r)
        → (a : A) × (f b ≡ ok a) × (k a b ≡ (b', ok r))
    split_result (ok a) e q = (a, e, q)
    split_result (err x) e q = absurd (ground arith)

pub attempt_ok :
    {B : Type 0} (done : Bool) (e : Error) (k : Bool → M B) (b b' : Board) (r : B)
    → (attempt done e >>= k) b ≡ (b', ok r)
    → (done ≡ true) × (k true b ≡ (b', ok r))
attempt_ok true e k b b' r h = (refl, h)
attempt_ok false e k b b' r h = absurd (ground arith)

-- One place has a new slot, and all others are as they were.
abbrev pub Wrote : Board → Board → Status → Text → Slot → Type 0
Wrote b b' s id x = (slot_at b' s id ≡ x) × SameBut b b' s id

pub put-Wrote : (b : Board) (s : Status) (id : Text) (x : Slot) → Wrote b (put b s id x) s id x
put-Wrote b s id x = (slot_at-put_same b s id x, slot_at-put_other b s id x)

-- A successful write of the markdown.
pub write_markdown_lem :
    (d : Disk) (form : Form) (s : Status) (id content : Text) (b b' : Board) (r : Bool)
    → write_markdown d form s id content b ≡ (b', ok r)
    → Wrote b b' s id (place_text form content (slot_at b s id))
unfolding write_markdown
write_markdown_lem d form s id content b b' r h =
    let e : b' ≡ put b s id (place_text form content (slot_at b s id)) = ground arith in
    rw e (put-Wrote b s id (place_text form content (slot_at b s id)))

-- The removal of the file beside a folder: nothing happened, or the file is gone.
cleaned :
    (d : Disk) (s : Status) (id : Text) (b b' : Board) (r : Bool)
    → cleanup_orphan d s id b ≡ (b', ok r)
    → (folder_markdown (slot_at b s id).folder ≢ absent)
    → ((b' ≡ b) × ((slot_at b s id).file_form ≡ absent))
      ⊎ (b' ≡ put b s id (clear_file (slot_at b s id)))
unfolding cleanup_orphan
cleaned d s id b b' r h present = ground arith

-- A successful removal of an orphan beside a folder task leaves the folder alone in its place.
pub cleanup_orphan_lem :
    (d : Disk) (s : Status) (id : Text) (b b' : Board) (r : Bool)
    → cleanup_orphan d s id b ≡ (b', ok r)
    → (folder_markdown (slot_at b s id).folder ≢ absent)
    → Wrote b b' s id (clear_file (slot_at b s id))
cleanup_orphan_lem d s id b b' r h present = elim (cleaned d s id b b' r h present) [
  | inl (same, gone) ↦ rw same (ground arith, λ t j _. refl)
  | inr e ↦ rw e (put-Wrote b s id (clear_file (slot_at b s id)))
]

-- A place that is written twice, and one that is written between.
two_writes :
    (b b' : Board) (src target : Status) (id : Text) (x y : Slot)
    → src ≢ target
    → b' ≡ put (put b target id x) src id y
    → (slot_at b' target id ≡ x)
      × (slot_at b' src id ≡ y)
      × ((t : Status) (j : Text)
          → place_eq src id t j ≡ false
          → place_eq target id t j ≡ false
          → slot_at b' t j ≡ slot_at b t j)
two_writes b b' src target id x y ne e = rw e (
  slot_at-put_other (put b target id x) src id y target id (place_eq_status src id target ne)
      ∙ slot_at-put_same b target id x,
  slot_at-put_same (put b target id x) src id y,
  λ t j p q.
      slot_at-put_other (put b target id x) src id y t j p ∙ slot_at-put_other b target id x t j q,
)

-- A successful rename moves the folder or the file, and touches no other place.
pub record Renamed (form : Form) (src target : Status) (id : Text) (b b' : Board) : Type 0 where
  pub arrived : node_of form (slot_at b' target id) ≡ node_of form (slot_at b src id)
  pub target_rest : other_node form (slot_at b' target id) ≡ other_node form (slot_at b target id)
  pub left : node_of form (slot_at b' src id) ≡ absent
  pub src_rest : other_node form (slot_at b' src id) ≡ other_node form (slot_at b src id)
  pub frame :
      (t : Status) (j : Text)
      → place_eq src id t j ≡ false
      → place_eq target id t j ≡ false
      → slot_at b' t j ≡ slot_at b t j

pub rename_task_lem :
    (d : Disk) (form : Form) (src target : Status) (id : Text) (b b' : Board) (r : Bool)
    → src ≢ target
    → rename_task d form src target id b ≡ (b', ok r)
    → Renamed form src target id b b'
unfolding rename_task
rename_task_lem d folder_form src target id b b' r ne h =
    let moved = set_folder (slot_at b src id).folder (slot_at b target id) in
    let e : b'
        ≡ put (put b target id moved) src id
            (clear_folder (slot_at (put b target id moved) src id)) =
      ground arith in
    let kept =
      slot_at-put_other b target id moved src id
        (place_eq_status target id src (λ q. ne (sym q))) in
    let (at_target, at_src, frame) =
      two_writes b b' src target id moved (clear_folder (slot_at (put b target id moved) src id)) ne
        e in
    record {
      arrived = rw at_target;
      target_rest = rw at_target;
      left = rw at_src;
      src_rest = rw (at_src, kept);
      frame = frame;
    }
rename_task_lem d file_form src target id b b' r ne h =
    let moved = set_file (slot_at b src id).file_form (slot_at b target id) in
    let e : b'
        ≡ put (put b target id moved) src id (clear_file (slot_at (put b target id moved) src id)) =
      ground arith in
    let kept =
      slot_at-put_other b target id moved src id
        (place_eq_status target id src (λ q. ne (sym q))) in
    let (at_target, at_src, frame) =
      two_writes b b' src target id moved (clear_file (slot_at (put b target id moved) src id)) ne
        e in
    record {
      arrived = rw at_target;
      target_rest = rw at_target;
      left = rw at_src;
      src_rest = rw (at_src, kept);
      frame = frame;
    }
