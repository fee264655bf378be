-- ===== src/Board/Slots.antt =====
-- Reading and writing places of the board.
use task_board_tools.Base.{
  true, [], ◌∷◌, ◌≡◌, ◌↔◌, refl, arith, Text, text_eq_iff, if◌then◌else◌, Bool-cases, inl, inr,
  false, ◌≢◌,
}
use task_board_tools.Status.{Status}
use task_board_tools.Status.Laws.{status_eq_iff}
use task_board_tools.Board.{Board, Slot, slot_at, put, place_eq}

pub place_eq_iff :
    (s : Status) (i : Text) (t : Status) (j : Text)
    → (place_eq s i t j ≡ true) ↔ ((s ≡ t) × (i ≡ j))
unfolding place_eq
place_eq_iff s i t j = ground (arith, status_eq_iff s t, text_eq_iff i j)

pub place_eq_refl : (s : Status) (i : Text) → place_eq s i s i ≡ true
place_eq_refl s i = (place_eq_iff s i s i).1 (refl, refl)

place_eq-swap :
    (s : Status) (i : Text) (t : Status) (j : Text) (u : Status) (k : Text)
    → place_eq s i t j ≡ true
    → place_eq s i u k ≡ place_eq t j u k
place_eq-swap s i t j u k h = let (p, q) = (place_eq_iff s i t j).0 h in rw (p, q)

place_eq_sym :
    (s : Status) (i : Text) (t : Status) (j : Text)
    → place_eq s i t j ≡ true
    → place_eq t j s i ≡ true
place_eq_sym s i t j h = let (p, q) = (place_eq_iff s i t j).0 h in rw (p, q) (place_eq_refl t j)

pub slot_at-put :
    (b : Board) (s : Status) (i : Text) (x : Slot) (t : Status) (j : Text)
    → slot_at (put b s i x) t j ≡ (if place_eq s i t j then x else slot_at b t j)
unfolding slot_at put
slot_at-put [] s i x t j = refl
slot_at-put (e ∷ b) s i x t j = elim (Bool-cases (place_eq e.status e.id s i)) [
  | inl h ↦ rw (h, place_eq-swap e.status e.id s i t j h) (ground arith)
  | inr h ↦ rw (h) (
      ground (
        arith,
        slot_at-put b s i x t j,
        place_eq-swap e.status e.id t j s i,
        place_eq_sym t j s i,
        place_eq_sym s i t j,
      ))
]

pub slot_at-put_same :
    (b : Board) (s : Status) (i : Text) (x : Slot) → slot_at (put b s i x) s i ≡ x
slot_at-put_same b s i x = rw (slot_at-put b s i x s i, place_eq_refl s i)

pub slot_at-put_other :
    (b : Board) (s : Status) (i : Text) (x : Slot) (t : Status) (j : Text)
    → place_eq s i t j ≡ false
    → slot_at (put b s i x) t j ≡ slot_at b t j
slot_at-put_other b s i x t j h = rw (slot_at-put b s i x t j, h)

pub place_eq_status : (s : Status) (i : Text) (t : Status) → s ≢ t → place_eq s i t i ≡ false
place_eq_status s i t ne = ground (arith, place_eq_iff s i t i)

-- All places but one are as they were.
abbrev pub SameBut : Board → Board → Status → Text → Type 0
SameBut b b' s i =
    (t : Status) (j : Text) → place_eq s i t j ≡ false → slot_at b' t j ≡ slot_at b t j
