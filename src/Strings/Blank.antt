-- ===== src/Strings/Blank.antt =====
-- Texts that trimming leaves empty.
use task_board_tools.Base.{
  ℕ, Bool, true, false, List, [], ◌∷◌, ◌++◌, ◌≡◌, ◌≢◌, refl, All, Bool-cases, inl, inr, Text,
}
use task_board_tools.Strings.{trim_left, trim_right, trim_space, is_space, join, trim_last}

abbrev AllCut : (ℕ → Bool) → Text → Type 0
AllCut cut = All (λ c. cut c ≡ true)

trim_last-ne-nil : (b : Bool) (c d : ℕ) (r : Text) → trim_last b c (d ∷ r) ≢ []
trim_last-ne-nil true c d r h = cc
trim_last-ne-nil false c d r h = cc

last_cut : (b : Bool) (c : ℕ) (r : Text) → trim_last b c r ≡ [] → (b ≡ true) × (r ≡ [])
last_cut true c [] h = (refl, refl)
last_cut false c [] h = absurd cc
last_cut b c (d ∷ r) h = absurd (trim_last-ne-nil b c d r h)

trim_right-AllCut : (cut : ℕ → Bool) (s : Text) → trim_right cut s ≡ [] → AllCut cut s
unfolding trim_right
trim_right-AllCut cut [] h = tt
trim_right-AllCut cut (c ∷ s) h =
    let (e, q) = last_cut (cut c) c (trim_right cut s) h in (e, trim_right-AllCut cut s q)

trim_left-AllCut : (cut : ℕ → Bool) (s : Text) → AllCut cut (trim_left cut s) → AllCut cut s
unfolding trim_left
trim_left-AllCut cut [] h = tt
trim_left-AllCut cut (c ∷ s) h = elim (Bool-cases (cut c)) [
  | inl e ↦ (e, trim_left-AllCut cut s (rw e at h))
  | inr e ↦ rw e at h
]

AllCut-nil : (cut : ℕ → Bool) (s : Text) → AllCut cut s → trim_left cut s ≡ []
unfolding trim_left
AllCut-nil cut [] h = refl
AllCut-nil cut (c ∷ s) (e, h) = rw e (AllCut-nil cut s h)

AllCut-before : (cut : ℕ → Bool) (s t : Text) → AllCut cut (s ++ t) → AllCut cut s
AllCut-before cut [] t h = tt
AllCut-before cut (c ∷ s) t (e, h) = (e, AllCut-before cut s t h)

-- What is blank together with a text behind it is blank alone.
pub trim_space_before : (s t : Text) → trim_space (s ++ t) ≡ [] → trim_space s ≡ []
unfolding trim_space
trim_space_before s t h =
    let blank = AllCut-before is_space s t (
      trim_left-AllCut is_space (s ++ t)
        (trim_right-AllCut is_space (trim_left is_space (s ++ t)) h)) in
    rw (AllCut-nil is_space s blank) (unfold trim_right in refl)

pub trim_space-join :
    (p : Text) (ps : List Text) (sep : Text)
    → trim_space (join (p ∷ ps) sep) ≡ []
    → trim_space p ≡ []
unfolding join
trim_space-join p [] sep h = h
trim_space-join p (q ∷ ps) sep h = trim_space_before p (sep ++ join (q ∷ ps) sep) h
