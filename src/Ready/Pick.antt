-- ===== src/Ready/Pick.antt =====
-- Which task `tb pull` takes.
use mathlib.Core.Path.{sym}
use mathlib.Core.List.{Memᴰ}
use task_board_tools.Base.{
  Bool, false, List, [], ◌∷◌, ◌≡◌, arith, Bool-cases, All, inl, inr, ltb_ℤ, Option, refl, Text,
  none, some, ◌≢◌, ◌<◌, ◌⊎◌, sym,
}
use task_board_tools.Task.{Task, priority}
use task_board_tools.Ready.{
  picks_before, pick_next_ready_task, priority_rank, Config, priority, numeric_id, ready,
}
use task_board_tools.Board.Sorting.{All-sort_by}
use task_board_tools.Board.{
  insert_by, sort_by, Board, ok, Result, err, TaskRef, parse_task_ref, discover_task_refs, ◌>>=◌,
}
use task_board_tools.Gates.{Config, collect_tasks, parse_refs, keep_parsed}
use task_board_tools.Status.{priority_rank, numeric_id, ready}
use task_board_tools.Ready.Least.{Picked, empty, pick, Picked-task}

-- The first task comes after the other, or ties with it: by priority, then by number.
abbrev pub NotBefore : Task → Task → Type 0
NotBefore u t =
    (priority_rank (t.meta priority) < priority_rank (u.meta priority))
    ⊎ ((priority_rank (t.meta priority) ≡ priority_rank (u.meta priority))
        × (ltb_ℤ (numeric_id u.id) (numeric_id t.id) ≡ false))

-- The next task of a column with these files: one that is there and parses, and that no other file there
-- that parses comes before; none if no file there parses.
abbrev pub Next : Config → Board → List TaskRef → Option Text → Type 0
Next c b refs none = All (λ r. (t : Task) → parse_task_ref c.prefix b r ≢ ok t) refs
Next c b refs (some id) =
    (r : TaskRef) × (t : Task) × Memᴰ r refs
    × (parse_task_ref c.prefix b r ≡ ok t)
    × (t.id ≡ id)
    × All (λ r. (u : Task) → parse_task_ref c.prefix b r ≡ ok u → NotBefore u t) refs

not_before : (u t : Task) → picks_before u t ≡ false → NotBefore u t
not_before u t h = ground arith

All-member {ℓ κ} : {A : Type ℓ} (P : A → Type κ) (x : A) (xs : List A) → Memᴰ x xs → All P xs → P x
All-member P x [] m h = elim m [ ]
All-member P x (y ∷ ys) (Memᴰ.head e) (p, h) = rw e p
All-member P x (y ∷ ys) (Memᴰ.tail m) (p, h) = All-member P x ys m h

-- What holds of all that is sorted held of it before.
All-inserted {ℓ κ} :
    {A : Type ℓ} (P : A → Type κ) (less : A → A → Bool) (x : A) (xs : List A)
    → All P (insert_by less x xs)
    → P x × All P xs
unfolding insert_by
All-inserted P less x [] (p, h) = (p, tt)
All-inserted P less x (y ∷ ys) h = elim (Bool-cases (less y x)) [
  | inr e ↦ rw e at h
  | inl e ↦
      let k : P y × All P (insert_by less x ys) = rw e at h in
      let (p, hs) = All-inserted P less x ys k.1 in (p, (k.0, hs))
]

All-sorted {ℓ κ} :
    {A : Type ℓ} (P : A → Type κ) (less : A → A → Bool) (xs : List A)
    → All P (sort_by less xs)
    → All P xs
unfolding sort_by
All-sorted P less [] h = tt
All-sorted P less (x ∷ xs) h =
    let (p, hs) = All-inserted P less x (sort_by less xs) h in (p, All-sorted P less xs hs)

module _ (prefix : Text) (b : Board) where
  -- A task of a list of files.
  From : List TaskRef → Task → Type 0
  From refs t = (r : TaskRef) × Memᴰ r refs × (parse_task_ref prefix b r ≡ ok t)

  All-From :
      (r : TaskRef) (rs : List TaskRef) (ts : List Task) → All (From rs) ts → All (From (r ∷ rs)) ts
  unfolding From
  All-From r rs [] h = tt
  All-From r rs (t ∷ ts) ((s, m, e), h) = ((s, Memᴰ.tail m, e), All-From r rs ts h)

  parse_refs-From : (refs : List TaskRef) → All (From refs) (parse_refs prefix b refs)
  unfolding parse_refs From
  parse_refs-From [] = tt
  parse_refs-From (r ∷ rs) =
      let later = All-From r rs (parse_refs prefix b rs) (parse_refs-From rs) in
      kept (parse_task_ref prefix b r) refl later
    where
      kept :
          (found : Result Task)
          → parse_task_ref prefix b r ≡ found
          → All (From (r ∷ rs)) (parse_refs prefix b rs)
          → All (From (r ∷ rs)) (keep_parsed found (parse_refs prefix b rs))
      kept (err e) same later = later
      kept (ok t) same later = ((r, Memᴰ.head refl, same), later)

  -- What holds of all tasks holds of each file that parses.
  parse_refs-All :
      (P : Task → Type 0) (refs : List TaskRef)
      → All P (parse_refs prefix b refs)
      → All (λ r. (t : Task) → parse_task_ref prefix b r ≡ ok t → P t) refs
  unfolding parse_refs
  parse_refs-All P [] h = tt
  parse_refs-All P (r ∷ rs) h =
      let (p, hs) = split_kept (parse_task_ref prefix b r) refl h in (p, parse_refs-All P rs hs)
    where
      split_kept :
          (found : Result Task)
          → parse_task_ref prefix b r ≡ found
          → All P (keep_parsed found (parse_refs prefix b rs))
          → ((t : Task) → parse_task_ref prefix b r ≡ ok t → P t) × All P (parse_refs prefix b rs)
      split_kept (err e) same k = (λ t q. absurd (ground arith), k)
      split_kept (ok t') same (p, k) = (λ t q. let at : t' ≡ t = ground arith in rw (sym at) p, k)

All-NotBefore :
    (t : Task) (us : List Task)
    → All (λ u. picks_before u t ≡ false) us
    → All (λ u. NotBefore u t) us
All-NotBefore t [] h = tt
All-NotBefore t (u ∷ us) (p, h) = (not_before u t p, All-NotBefore t us h)

-- The tasks of a column are those of its files, sorted.
column_tasks :
    (c : Config) (b : Board) (tasks : List Task)
    → collect_tasks c b ready ≡ ok tasks
    → (refs : List TaskRef) × (discover_task_refs c.prefix b (ready ∷ []) ≡ ok refs)
      × (tasks
          ≡ sort_by (λ t u. ltb_ℤ (numeric_id t.id) (numeric_id u.id)) (parse_refs c.prefix b refs))
unfolding collect_tasks
column_tasks c b tasks h = found (discover_task_refs c.prefix b (ready ∷ [])) refl h
  where
    found :
        (r : Result (List TaskRef))
        → discover_task_refs c.prefix b (ready ∷ []) ≡ r
        → (r >>= λ refs. ok (
            sort_by
              (λ t u. ltb_ℤ (numeric_id t.id) (numeric_id u.id))
              (parse_refs c.prefix b refs)))
          ≡ ok tasks
        → (refs : List TaskRef) × (discover_task_refs c.prefix b (ready ∷ []) ≡ ok refs)
          × (tasks
              ≡ sort_by
                  (λ t u. ltb_ℤ (numeric_id t.id) (numeric_id u.id))
                  (parse_refs c.prefix b refs))
    found (err e) q k = absurd (ground arith)
    found (ok refs) q k = (refs, q, ground arith)

Picked-Next :
    (c : Config) (b : Board) (refs : List TaskRef) (tasks : List Task) (next : Option Text)
    → All (From c.prefix b refs) tasks
    → ((P : Task → Type 0)
        → All P tasks
        → All (λ r. (t : Task) → parse_task_ref c.prefix b r ≡ ok t → P t) refs)
    → Picked tasks next
    → Next c b refs next
unfolding From
Picked-Next c b refs tasks none from all (empty e) = all (λ _. ⊥) (rw e tt)
Picked-Next c b refs tasks (some id) from all (pick t m least) =
    let (r, at, parses) = All-member (From c.prefix b refs) t tasks m from in
    (r, t, at, parses, refl, all (λ u. NotBefore u t) (All-NotBefore t tasks least))

-- The task that `tb pull` picks has a file in `ready` that parses, and no other file there that parses
-- holds a task that comes before it, by priority and then by number; none is picked only if no file
-- there parses.
pub pick_next_ready_task_lem :
    (c : Config) (b : Board) (next : Option Text)
    → pick_next_ready_task c b ≡ ok next
    → (refs : List TaskRef) × (discover_task_refs c.prefix b (ready ∷ []) ≡ ok refs)
      × Next c b refs next
pick_next_ready_task_lem c b next h =
    let (tasks, collected, p) = Picked-task c b next h in
    let (refs, found, sorted) = column_tasks c b tasks collected in
    let by_number : Task → Task → Bool = λ t u. ltb_ℤ (numeric_id t.id) (numeric_id u.id) in
    let parsed = parse_refs c.prefix b refs in
    let from =
      All-sort_by (From c.prefix b refs) by_number parsed (parse_refs-From c.prefix b refs) in
    (
      refs,
      found,
      Picked-Next c b refs (sort_by by_number parsed) next from
          (λ P h. parse_refs-All c.prefix b P refs (All-sorted P by_number parsed h))
          (rw (sym sorted) p),
    )
