-- ===== src/Gates/Source.antt =====
-- Where a move starts from.
use task_board_tools.Base.{
  Bool, true, false, List, [], ◌∷◌, none, ◌≡◌, ◌≢◌, arith, Text, Bool-cases, inl, inr, any, not,
  All-filter,
}
use task_board_tools.Status.{Status, status_eq, all_status_dirs}
use task_board_tools.Status.Laws.{status_eq_iff}
use task_board_tools.Board.{Board, ok, TaskRef, resolve_task_refs_for_id, slot_at, resolve_form}
use task_board_tools.Board.Lookup.{>>=-eq-ok, IsRef, resolve_refs-Complete}
use task_board_tools.Gates.{resolve_move_source, choose_source, elsewhere, in_target}

-- The only place of a task: it is there, and no other column has it.
pub record OnlyAt (b : Board) (id : Text) (src : TaskRef) : Type 0 where
  pub found : IsRef b id src
  pub alone : (s : Status) → s ≢ src.status → resolve_form (slot_at b s id) ≡ ok none

every_status : (s : Status) → any (λ t. status_eq t s) all_status_dirs ≡ true
unfolding status_eq
every_status s = ground arith

-- A reference in another column than the target's is a source.
any-elsewhere :
    (target s : Status) (refs : List TaskRef)
    → s ≢ target
    → any (λ r. status_eq r.status s) refs ≡ true
    → any (λ r. status_eq r.status s) (elsewhere target refs) ≡ true
any-elsewhere target s [] ne h = h
any-elsewhere target s (r ∷ refs) ne h = elim (Bool-cases (status_eq r.status target)) [
  | inl e ↦ rw e (
      any-elsewhere target s refs ne
        (ground (arith, status_eq_iff r.status target, status_eq_iff r.status s)))
  | inr e ↦ rw e (ground (arith, any-elsewhere target s refs ne))
]

-- With one source only, another column has the task only if it is the target.
single_source :
    (target s : Status) (refs : List TaskRef) (src : TaskRef)
    → elsewhere target refs ≡ src ∷ []
    → in_target target refs ≡ false
    → s ≢ src.status
    → any (λ r. status_eq r.status s) refs ≡ true
    → ⊥
single_source target s refs src one free ne h = elim (Bool-cases (status_eq s target)) [
  | inl e ↦ absurd (ground (arith, status_eq_iff s target))
  | inr e ↦
      let k : any (λ r. status_eq r.status s) (src ∷ []) ≡ true =
        rw one at
          (any-elsewhere target s refs (λ q. absurd (ground (arith, status_eq_iff s target))) h) in
      absurd (ground (arith, status_eq_iff src.status s))
]

source-ne-target :
    (target : Status) (refs : List TaskRef) (src : TaskRef)
    → elsewhere target refs ≡ src ∷ []
    → src.status ≢ target
source-ne-target target [] src h e = cc
source-ne-target target (r ∷ refs) src h e = elim (Bool-cases (status_eq r.status target)) [
  | inl k ↦ source-ne-target target refs src (ground arith) e
  | inr k ↦ ground (arith, status_eq_iff r.status target)
]

chosen :
    (taken : Bool) (refs sources : List TaskRef) (src : TaskRef)
    → choose_source taken refs sources ≡ ok (src, false)
    → (sources ≡ src ∷ []) × (taken ≡ false)
chosen taken [] sources src h = cc
chosen taken (r ∷ refs) [] src h = absurd (ground arith)
chosen true (r ∷ refs) (s ∷ ss) src h = cc
chosen false (r ∷ refs) (s ∷ []) src h = ground arith
chosen false (r ∷ refs) (s ∷ q ∷ ss) src h = cc

-- A move goes on only from the one column that holds the task, and that is not the target.
pub resolve_move_source-OnlyAt :
    (b : Board) (id : Text) (target : Status) (src : TaskRef)
    → resolve_move_source b id target ≡ ok (src, false)
    → OnlyAt b id src × (src.status ≢ target)
unfolding resolve_move_source
resolve_move_source-OnlyAt b id target src h =
    let (refs, e, k) = >>=-eq-ok (resolve_task_refs_for_id b id all_status_dirs) _ h in
    let c = resolve_refs-Complete b id all_status_dirs refs e in
    let (one, free) = chosen (in_target target refs) refs (elsewhere target refs) src k in
    let at_src =
      rw one at (All-filter (IsRef b id) (λ r. not (status_eq r.status target)) refs c.sound) in
    (
      record {
        found = at_src.0;
        alone = λ s ne. elim (c.covers s (every_status s)) [
          | inl none_there ↦ none_there
          | inr there ↦ absurd (single_source target s refs src one free ne there)
        ];
      },
      source-ne-target target refs src one,
    )
