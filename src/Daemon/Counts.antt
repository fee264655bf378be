-- ===== src/Daemon/Counts.antt =====
-- How often an ID occurs in the sets and among the goroutines.
use task_board_tools.Base.{
  ℕ, ◌+◌, ◌≤◌, true, false, List, [], ◌∷◌, ◌++◌, ◌≡◌, refl, arith, Text, text_eq, text_eq_iff,
  if◌then◌else◌, length, Bool-cases, inl, inr, suc, text_eq_sound, text_eq_refl,
}
use task_board_tools.Daemon.{QueuedTask, is_in, delete}

abbrev pub weight : Text → Text → ℕ
weight x y = if text_eq x y then 1 else 0

unfoldable pub count : Text → List Text → ℕ
count x [] = 0
count x (y ∷ ys) = weight x y + count x ys

unfoldable pub tally : Text → List QueuedTask → ℕ
tally x [] = 0
tally x (q ∷ qs) = weight x q.id + tally x qs

pub tally-append :
    (x : Text) (ps qs : List QueuedTask) → tally x (ps ++ qs) ≡ tally x ps + tally x qs
unfolding tally
tally-append x [] qs = omega arith
tally-append x (p ∷ ps) qs = omega (arith, tally-append x ps qs)

pub tally-middle :
    (x : Text) (ps : List QueuedTask) (q : QueuedTask) (qs : List QueuedTask)
    → tally x (ps ++ q ∷ qs) ≡ weight x q.id + tally x (ps ++ qs)
unfolding tally
tally-middle x [] q qs = refl
tally-middle x (p ∷ ps) q qs = omega (arith, tally-middle x ps q qs)

pub length-middle {ℓ} :
    {A : Type ℓ} (ps : List A) (q : A) (qs : List A)
    → length (ps ++ q ∷ qs) ≡ suc (length (ps ++ qs))
length-middle [] q qs = refl
length-middle (p ∷ ps) q qs = omega (arith, length-middle ps q qs)

pub count_absent : (xs : List Text) (x : Text) → is_in xs x ≡ false → count x xs ≡ 0
unfolding count
count_absent [] x h = refl
count_absent (y ∷ xs) x h = ground (arith, count_absent xs x)

pub count_present : (xs : List Text) (x : Text) → is_in xs x ≡ true → 1 ≤ count x xs
unfolding count
count_present [] x h = absurd (ground arith)
count_present (y ∷ xs) x h = ground (arith, count_present xs x)

-- Deleting an ID leaves the count of every other.
pub count-delete_same : (xs : List Text) (x : Text) → count x (delete xs x) ≡ 0
unfolding count
count-delete_same [] x = refl
count-delete_same (y ∷ xs) x = ground (arith, count-delete_same xs x)

pub count-delete_other :
    (xs : List Text) (y x : Text) → text_eq x y ≡ false → count x (delete xs y) ≡ count x xs
unfolding count
count-delete_other [] y x h = refl
count-delete_other (z ∷ xs) y x h = elim (Bool-cases (text_eq y z)) [
  | inl e ↦
      let off : text_eq x z ≡ false =
        ground (arith, text_eq_iff y z, text_eq_iff x y, text_eq_iff x z) in
      ground (arith, e, off, count-delete_other xs y x h)
  | inr e ↦ rw e (ground (arith, count-delete_other xs y x h))
]

pub length-delete : (xs : List Text) (x : Text) → length (delete xs x) + count x xs ≡ length xs
unfolding count
length-delete [] x = refl
length-delete (y ∷ xs) x = ground (arith, length-delete xs x)

-- Releasing an ID whose place has one owner leaves the other counts as they were.
pub released :
    (xs : List Text) (y x : Text) (others : ℕ)
    → count x xs ≡ weight x y + others
    → count x xs ≤ 1
    → count x (delete xs y) ≡ others
released xs y x others h le = elim (Bool-cases (text_eq x y)) [
  | inl same ↦
      let gone : count x (delete xs y) ≡ 0 = rw (text_eq_sound x y same) (count-delete_same xs y) in
      ground (arith, same, gone)
  | inr other ↦ ground (arith, other, count-delete_other xs y x other)
]

pub released_once : (xs : List Text) (y x : Text) → count x xs ≤ 1 → count x (delete xs y) ≤ 1
released_once xs y x le = elim (Bool-cases (text_eq x y)) [
  | inl same ↦
      let gone : count x (delete xs y) ≡ 0 = rw (text_eq_sound x y same) (count-delete_same xs y) in
      omega (arith, gone)
  | inr other ↦ omega (arith, count-delete_other xs y x other)
]

-- An ID that is new to a set of single ones leaves them single.
pub new_once :
    (xs : List Text) (y x : Text) → is_in xs y ≡ false → count x xs ≤ 1 → count x (y ∷ xs) ≤ 1
unfolding count
new_once xs y x absent le = elim (Bool-cases (text_eq x y)) [
  | inl same ↦
      let none : count x xs ≡ 0 = rw (text_eq_sound x y same) (count_absent xs y absent) in
      ground (arith, same, none)
  | inr other ↦ ground (arith, other)
]

pub nil_of_count : (xs : List Text) → ((x : Text) → count x xs ≡ 0) → xs ≡ []
unfolding count
nil_of_count [] h = refl
nil_of_count (y ∷ xs) h = absurd (ground (arith, h y, text_eq_refl y))
