-- ===== src/Strings/Trim.antt =====
-- `TrimSpace` and its halves.
use task_board_tools.Base.{
  ℕ, Bool, true, false, [], ◌∷◌, ◌≡◌, refl, arith, Text, Bool-cases, inl, inr, ◌≢◌,
}
use task_board_tools.Strings.{trim_left, trim_right, trim_last, trim_space, is_space}
use task_board_tools.Strings.Parts.{Lacks}

-- Nothing, or a first byte that is not cut.
abbrev pub StartsKept : (ℕ → Bool) → Text → Type 0
StartsKept cut [] = Unit
StartsKept cut (c ∷ s) = cut c ≡ false

module _ (cut : ℕ → Bool) where
  trim_left-StartsKept : (s : Text) → StartsKept cut (trim_left cut s)
  unfolding trim_left
  trim_left-StartsKept [] = tt
  trim_left-StartsKept (c ∷ s) = elim (Bool-cases (cut c)) [
    | inl e ↦ rw e (trim_left-StartsKept s)
    | inr e ↦ rw e e
  ]

  trim_left_of_StartsKept : (s : Text) → StartsKept cut s → trim_left cut s ≡ s
  unfolding trim_left
  trim_left_of_StartsKept [] h = refl
  trim_left_of_StartsKept (c ∷ s) h = rw h

  trim_last-StartsKept : (c : ℕ) (r : Text) → cut c ≡ false → StartsKept cut (trim_last (cut c) c r)
  trim_last-StartsKept c [] h = rw h h
  trim_last-StartsKept c (d ∷ r) h = ground arith

  trim_right-StartsKept : (s : Text) → StartsKept cut s → StartsKept cut (trim_right cut s)
  unfolding trim_right
  trim_right-StartsKept [] h = tt
  trim_right-StartsKept (c ∷ s) h = trim_last-StartsKept c (trim_right cut s) h

  trim_right-trim_last :
      (c : ℕ) (r : Text)
      → trim_right cut r ≡ r
      → trim_right cut (trim_last (cut c) c r) ≡ trim_last (cut c) c r
  unfolding trim_right
  trim_right-trim_last c [] h = elim (Bool-cases (cut c)) [ inl e ↦ rw e | inr e ↦ rw e (rw e) ]
  trim_right-trim_last c (d ∷ r) h = rw h

  trim_right-trim_right : (s : Text) → trim_right cut (trim_right cut s) ≡ trim_right cut s
  unfolding trim_right
  trim_right-trim_right [] = refl
  trim_right-trim_right (c ∷ s) =
      trim_right-trim_last c (trim_right cut s) (trim_right-trim_right s)

-- Trimming twice is trimming once.
pub trim_space-trim_space : (s : Text) → trim_space (trim_space s) ≡ trim_space s
unfolding trim_space
trim_space-trim_space s =
    let kept =
      trim_right-StartsKept is_space (trim_left is_space s) (trim_left-StartsKept is_space s) in
    rw (trim_left_of_StartsKept is_space (trim_right is_space (trim_left is_space s)) kept)
      (trim_right-trim_right is_space (trim_left is_space s))

module _ (b : ℕ) (cut : ℕ → Bool) where
  trim_left-Lacks : (s : Text) → Lacks b s → Lacks b (trim_left cut s)
  unfolding trim_left
  trim_left-Lacks [] h = tt
  trim_left-Lacks (c ∷ s) (h, hs) = elim (Bool-cases (cut c)) [
    | inl e ↦ rw e (trim_left-Lacks s hs)
    | inr e ↦ rw e (h, hs)
  ]

  trim_last-Lacks :
      (cut_it : Bool) (c : ℕ) (r : Text) → c ≢ b → Lacks b r → Lacks b (trim_last cut_it c r)
  trim_last-Lacks true c [] h hs = tt
  trim_last-Lacks false c [] h hs = (h, tt)
  trim_last-Lacks true c (d ∷ r) h hs = (h, hs)
  trim_last-Lacks false c (d ∷ r) h hs = (h, hs)

  trim_right-Lacks : (s : Text) → Lacks b s → Lacks b (trim_right cut s)
  unfolding trim_right
  trim_right-Lacks [] h = tt
  trim_right-Lacks (c ∷ s) (h, hs) =
      trim_last-Lacks (cut c) c (trim_right cut s) h (trim_right-Lacks s hs)

pub trim_space-Lacks : (b : ℕ) (s : Text) → Lacks b s → Lacks b (trim_space s)
unfolding trim_space
trim_space-Lacks b s h =
    trim_right-Lacks b is_space (trim_left is_space s) (trim_left-Lacks b is_space s h)
