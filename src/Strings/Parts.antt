-- ===== src/Strings/Parts.antt =====
-- `Split` and `Join` undo one another.
use task_board_tools.Base.{
  ◌==◌, any, ℕ, List, [], ◌∷◌, ◌++◌, ◌≡◌, ◌≢◌, refl, ap, ◌∙◌, arith, Text, ◌==◌, eqb→eq, eqb_refl,
  All, Bool-cases, inl, inr, false,
}
use task_board_tools.Strings.{split, join, onto_first}

abbrev pub Lacks : ℕ → Text → Type 0
Lacks b = All (λ c. c ≢ b)

pub split-ne-nil : (s : Text) (sep : ℕ) → split s sep ≢ []
unfolding split
split-ne-nil [] sep h = cc
split-ne-nil (c ∷ s) sep h = ground (arith, split-ne-nil s sep)

join-onto_first :
    (c : ℕ) (ps : List Text) (sep : Text) → join (onto_first c ps) sep ≡ c ∷ join ps sep
unfolding join
join-onto_first c [] sep = refl
join-onto_first c (p ∷ []) sep = refl
join-onto_first c (p ∷ q ∷ ps) sep = refl

join-nil-cons : (ps : List Text) (sep : Text) → ps ≢ [] → join ([] ∷ ps) sep ≡ sep ++ join ps sep
unfolding join
join-nil-cons [] sep h = absurd (h refl)
join-nil-cons (p ∷ ps) sep h = refl

-- Joining the parts of a split gives the text back.
pub join-split : (s : Text) (sep : ℕ) → join (split s sep) (sep ∷ []) ≡ s
unfolding split
join-split [] sep = unfold join in refl
join-split (c ∷ s) sep = elim (Bool-cases (c == sep)) [
  | inl e ↦
      rw (e, join-nil-cons (split s sep) (sep ∷ []) (split-ne-nil s sep), join-split s sep)
        (rw (eqb→eq c sep e))
  | inr e ↦ rw (e, join-onto_first, join-split s sep)
]

pub split_lacking : (p : Text) (sep : ℕ) → Lacks sep p → split p sep ≡ p ∷ []
unfolding split
split_lacking [] sep h = refl
split_lacking (c ∷ p) sep (h, hs) = ground (arith, split_lacking p sep hs)

pub split_part : (p s : Text) (sep : ℕ) → Lacks sep p → split (p ++ sep ∷ s) sep ≡ p ∷ split s sep
unfolding split
split_part [] s sep h = rw eqb_refl
split_part (c ∷ p) s sep (h, hs) = ground (arith, split_part p s sep hs)

-- Splitting a join gives the parts back, if there is one and none holds the separator.
pub split-join :
    (ps : List Text) (sep : ℕ) → ps ≢ [] → All (Lacks sep) ps → split (join ps (sep ∷ [])) sep ≡ ps
unfolding join
split-join [] sep h _ = absurd (h refl)
split-join (p ∷ []) sep _ (hp, _) = split_lacking p sep hp
split-join (p ∷ q ∷ ps) sep _ (hp, hs) =
    split_part p (join (q ∷ ps) (sep ∷ [])) sep hp
    ∙ ap (λ t. p ∷ t) (split-join (q ∷ ps) sep (λ e. cc) hs)

onto_first-Lacks :
    (c sep : ℕ) (ps : List Text) → c ≢ sep → All (Lacks sep) ps → All (Lacks sep) (onto_first c ps)
onto_first-Lacks c sep [] h hs = ((h, tt), tt)
onto_first-Lacks c sep (p ∷ ps) h (hp, hs) = ((h, hp), hs)

-- No part of a split holds the separator.
pub split-Lacks : (s : Text) (sep : ℕ) → All (Lacks sep) (split s sep)
unfolding split
split-Lacks [] sep = (tt, tt)
split-Lacks (c ∷ s) sep = elim (Bool-cases (c == sep)) [
  | inl e ↦ rw e (tt, split-Lacks s sep)
  | inr e ↦ rw e (onto_first-Lacks c sep (split s sep) (ground arith) (split-Lacks s sep))
]

onto_first-append :
    (c : ℕ) (ps : List Text) (q : Text)
    → ps ≢ []
    → onto_first c (ps ++ q ∷ []) ≡ onto_first c ps ++ q ∷ []
onto_first-append c [] q h = absurd (h refl)
onto_first-append c (p ∷ ps) q h = refl

-- What stands behind one more separator is one more part.
pub split_behind :
    (s t : Text) (sep : ℕ) → Lacks sep t → split (s ++ sep ∷ t) sep ≡ split s sep ++ t ∷ []
unfolding split
split_behind [] t sep h = rw eqb_refl (rw (split_lacking t sep h))
split_behind (c ∷ s) t sep h = elim (Bool-cases (c == sep)) [
  | inl e ↦ rw (e, split_behind s t sep h)
  | inr e ↦
      rw (e, split_behind s t sep h) (onto_first-append c (split s sep) t (split-ne-nil s sep))
]

-- A byte that no test finds is lacking.
pub any-Lacks : (b : ℕ) (s : Text) → any (λ c. c == b) s ≡ false → Lacks b s
any-Lacks b [] h = tt
any-Lacks b (c ∷ s) h = (λ e. absurd (ground (arith, e)), any-Lacks b s (ground arith))
