-- ===== src/Board/Sorting.antt =====
-- What sorting by a test does: `sort.Slice` and `sort.SliceStable`.
use task_board_tools.Base.{
  Bool, true, false, ◌&&◌, not, List, [], ◌∷◌, ◌≡◌, refl, arith, Bool-cases, All, inl, inr, filter,
  ◌∙◌, length, suc, ap,
}
use task_board_tools.Board.{insert_by, sort_by}

-- `less` is a strict weak order, as far as sorting needs it.
pub record IsWeak {ℓ} {A : Type ℓ} (less : A → A → Bool) : Type ℓ where
  pub asym : (x y : A) → less x y ≡ true → less y x ≡ false
  pub neg_trans : (x y z : A) → less x y ≡ false → less y z ≡ false → less x z ≡ false

All-insert_by {ℓ κ} :
    {A : Type ℓ} (P : A → Type κ) (less : A → A → Bool) (x : A) (xs : List A)
    → P x
    → All P xs
    → All P (insert_by less x xs)
unfolding insert_by
All-insert_by P less x [] p h = (p, tt)
All-insert_by P less x (y ∷ ys) p (q, h) = elim (Bool-cases (less y x)) [
  | inl e ↦ rw e (q, All-insert_by P less x ys p h)
  | inr e ↦ rw e (p, (q, h))
]

pub All-sort_by {ℓ κ} :
    {A : Type ℓ} (P : A → Type κ) (less : A → A → Bool) (xs : List A)
    → All P xs
    → All P (sort_by less xs)
unfolding sort_by
All-sort_by P less [] h = tt
All-sort_by P less (x ∷ xs) (p, h) =
    All-insert_by P less x (sort_by less xs) p (All-sort_by P less xs h)

length-insert_by {ℓ} :
    {A : Type ℓ} (less : A → A → Bool) (x : A) (xs : List A)
    → length (insert_by less x xs) ≡ suc (length xs)
unfolding insert_by
length-insert_by less x [] = refl
length-insert_by less x (y ∷ ys) = elim (Bool-cases (less y x)) [
  | inl e ↦ rw e (ap suc (length-insert_by less x ys))
  | inr e ↦ rw e refl
]

pub length-sort_by {ℓ} :
    {A : Type ℓ} (less : A → A → Bool) (xs : List A) → length (sort_by less xs) ≡ length xs
unfolding sort_by
length-sort_by less [] = refl
length-sort_by less (x ∷ xs) =
    length-insert_by less x (sort_by less xs) ∙ ap suc (length-sort_by less xs)

module _ {ℓ} {A : Type ℓ} (less : A → A → Bool) where
  -- No element comes before one that stands earlier.
  abbrev pub IsSorted : List A → Type 0
  IsSorted [] = Unit
  IsSorted (x ∷ xs) = All (λ y. less y x ≡ false) xs × IsSorted xs

  -- Neither comes before the other.
  abbrev pub tied : A → A → Bool
  tied x y = not (less x y) && not (less y x)

module _ {ℓ} {A : Type ℓ} (less : A → A → Bool) (w : IsWeak less) where
  pub irrefl : (x : A) → less x x ≡ false
  irrefl x = elim (Bool-cases (less x x)) [ inl e ↦ w.asym x x e | inr e ↦ e ]

  All-below :
      (x y : A) (zs : List A)
      → less y x ≡ false
      → All (λ z. less z y ≡ false) zs
      → All (λ z. less z x ≡ false) zs
  All-below x y [] e h = tt
  All-below x y (z ∷ zs) e (p, h) = (w.neg_trans z y x p e, All-below x y zs e h)

  insert_by-IsSorted :
      (x : A) (xs : List A) → IsSorted less xs → IsSorted less (insert_by less x xs)
  unfolding insert_by
  insert_by-IsSorted x [] h = (tt, tt)
  insert_by-IsSorted x (y ∷ ys) (low, h) = elim (Bool-cases (less y x)) [
    | inl e ↦ rw e (
      All-insert_by (λ z. less z y ≡ false) less x ys (w.asym y x e) low,
      insert_by-IsSorted x ys h,
    )
    | inr e ↦ rw e ((e, All-below x y ys e low), (low, h))
  ]

  pub sort_by-IsSorted : (xs : List A) → IsSorted less (sort_by less xs)
  unfolding sort_by
  sort_by-IsSorted [] = tt
  sort_by-IsSorted (x ∷ xs) = insert_by-IsSorted x (sort_by less xs) (sort_by-IsSorted xs)

  -- An element that comes before `x` is not tied with what `x` is tied with.
  not_tied : (z x y : A) → less y x ≡ true → tied less z x ≡ true → tied less z y ≡ false
  not_tied z x y e t = elim (Bool-cases (tied less z y)) [
    | inr f ↦ f
    | inl f ↦
        let up : less y x ≡ false = w.neg_trans y z x (ground arith) (ground arith) in
        absurd (ground arith)
  ]

  insert_by_stable :
      (z x : A) (xs : List A)
      → filter (tied less z) (insert_by less x xs) ≡ filter (tied less z) (x ∷ xs)
  unfolding insert_by
  insert_by_stable z x [] = refl
  insert_by_stable z x (y ∷ ys) = elim (Bool-cases (less y x)) [
    | inr e ↦ rw e refl
    | inl e ↦ elim (Bool-cases (tied less z x)) [
      | inl t ↦ rw (e, insert_by_stable z x ys, t, not_tied z x y e t) refl
      | inr t ↦ rw (e, insert_by_stable z x ys, t) refl
    ]
  ]

  -- Elements that are tied keep their order, and none is lost or made.
  pub sort_by_stable :
      (z : A) (xs : List A) → filter (tied less z) (sort_by less xs) ≡ filter (tied less z) xs
  unfolding sort_by
  sort_by_stable z [] = refl
  sort_by_stable z (x ∷ xs) =
      insert_by_stable z x (sort_by less xs) ∙ (rw (sort_by_stable z xs) refl)
