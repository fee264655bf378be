-- ===== src/Ready/Least.antt =====
-- The least task of a sorted list, and of the tasks of a column.
use mathlib.Core.Path.{subst}
use mathlib.Core.List.{Memᴰ}
use task_board_tools.Base.{
  if◌then◌else◌, ◌==◌, Bool, true, false, List, [], ◌∷◌, ◌≡◌, arith, Bool-cases, All, inl, ℕ, ℤ,
  inr, ltb_ℤ, Option, refl, Text, none, some, ltb,
}
use task_board_tools.Task.{Task, priority}
use task_board_tools.Ready.{
  picks_before, pick_next_ready_task, priority_rank, first_id, Config, priority, numeric_id, ready,
  picked,
}
use task_board_tools.Board.Sorting.{IsWeak, irrefl}
use task_board_tools.Board.{insert_by, sort_by, Board, ok, Result, err}
use task_board_tools.Gates.{Config, collect_tasks}
use task_board_tools.Status.{priority_rank, numeric_id, ready}

-- The first element comes before no other, and is one of the list.
pub data Least {ℓ} {A : Type ℓ} (less : A → A → Bool) (xs : List A) : List A → Type ℓ where
  nothing : xs ≡ [] → Least less xs []
  least :
      (x : A) (ys : List A) → Memᴰ x xs → All (λ y. less y x ≡ false) xs → Least less xs (x ∷ ys)

module _ {ℓ} {A : Type ℓ} (less : A → A → Bool) (w : IsWeak less) where
  All-weaken :
      (x y : A) (zs : List A)
      → less y x ≡ false
      → All (λ z. less z y ≡ false) zs
      → All (λ z. less z x ≡ false) zs
  All-weaken x y [] e h = tt
  All-weaken x y (z ∷ zs) e (p, h) = (w.neg_trans z y x p e, All-weaken x y zs e h)

  insert_by-Least :
      (x : A) (xs ys : List A) → Least less xs ys → Least less (x ∷ xs) (insert_by less x ys)
  unfolding insert_by
  insert_by-Least x xs [] (nothing e) = least x [] (Memᴰ.head refl) (irrefl less w x, rw e tt)
  insert_by-Least x xs (y ∷ ys) (least _ _ m all) = elim (Bool-cases (less y x)) [
    | inl e ↦ rw e (least y (insert_by less x ys) (Memᴰ.tail m) (w.asym y x e, all))
    | inr e ↦ rw e (least x (y ∷ ys) (Memᴰ.head refl) (irrefl less w x, All-weaken x y xs e all))
  ]

  sort_by-Least : (xs : List A) → Least less xs (sort_by less xs)
  unfolding sort_by
  sort_by-Least [] = nothing refl
  sort_by-Least (x ∷ xs) = insert_by-Least x xs (sort_by less xs) (sort_by-Least xs)

-- Priorities first, then numbers.
abbrev comes_before : ℕ → ℤ → ℕ → ℤ → Bool
comes_before p i q j = if p == q then ltb_ℤ i j else ltb p q

ltb_ℤ_asym : (i j : ℤ) → ltb_ℤ i j ≡ true → ltb_ℤ j i ≡ false
ltb_ℤ_asym i j h = ground arith

ltb_ℤ-neg_trans : (i j k : ℤ) → ltb_ℤ i j ≡ false → ltb_ℤ j k ≡ false → ltb_ℤ i k ≡ false
ltb_ℤ-neg_trans i j k h h' = ground arith

comes_before_asym :
    (p : ℕ) (i : ℤ) (q : ℕ) (j : ℤ) → comes_before p i q j ≡ true → comes_before q j p i ≡ false
comes_before_asym p i q j h = ground (arith, ltb_ℤ_asym i j)

comes_before-neg_trans :
    (p : ℕ) (i : ℤ) (q : ℕ) (j : ℤ) (r : ℕ) (k : ℤ)
    → comes_before p i q j ≡ false
    → comes_before q j r k ≡ false
    → comes_before p i r k ≡ false
comes_before-neg_trans p i q j r k h h' = ground (arith, ltb_ℤ-neg_trans i j k)

picks_before-IsWeak : IsWeak picks_before
picks_before-IsWeak = record {
  asym = λ t u.
      comes_before_asym (priority_rank (t.meta priority)) (numeric_id t.id)
        (priority_rank (u.meta priority)) (numeric_id u.id);
  neg_trans = λ t u v.
      comes_before-neg_trans (priority_rank (t.meta priority)) (numeric_id t.id)
        (priority_rank (u.meta priority)) (numeric_id u.id) (priority_rank (v.meta priority))
        (numeric_id v.id);
}

-- What the pick found among the tasks: nothing, or a task that no other comes before.
pub data Picked (tasks : List Task) : Option Text → Type 0 where
  empty : tasks ≡ [] → Picked tasks none
  pick :
      (t : Task)
      → Memᴰ t tasks
      → All (λ u. picks_before u t ≡ false) tasks
      → Picked tasks (some t.id)

first_id-Picked :
    (tasks sorted : List Task) → Least picks_before tasks sorted → Picked tasks (first_id sorted)
first_id-Picked tasks [] (nothing e) = empty e
first_id-Picked tasks (t ∷ sorted) (least _ _ m all) = pick t m all

-- So it is for the tasks of the column.
pub Picked-task :
    (c : Config) (b : Board) (next : Option Text)
    → pick_next_ready_task c b ≡ ok next
    → (tasks : List Task) × (collect_tasks c b ready ≡ ok tasks) × Picked tasks next
unfolding pick_next_ready_task
Picked-task c b next h = found (collect_tasks c b ready) refl h
  where
    found :
        (r : Result (List Task))
        → collect_tasks c b ready ≡ r
        → picked r ≡ ok next
        → (tasks : List Task) × (collect_tasks c b ready ≡ ok tasks) × Picked tasks next
    found (err x) e k = absurd (ground arith)
    found (ok tasks) e k =
        let same : first_id (sort_by picks_before tasks) ≡ next = ground arith in
        (
          tasks,
          e,
          subst (Picked tasks) same (
              first_id-Picked tasks (sort_by picks_before tasks)
                (sort_by-Least picks_before picks_before-IsWeak tasks)),
        )
