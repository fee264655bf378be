-- ===== src/Board/Lookup.antt =====
-- Looking a task up by its ID in every column.
use task_board_tools.Base.{
  true, List, [], ◌∷◌, Option, none, some, ◌≡◌, ◌⊎◌, inl, inr, refl, arith, Text, All, any,
  Bool-cases, Option-cases,
}
use task_board_tools.Status.{Status, status_eq}
use task_board_tools.Status.Laws.{status_eq_iff}
use task_board_tools.Board.{
  Board, Result, ok, err, ◌>>=◌, TaskRef, resolve_task_refs_for_id, resolve_task_ref_in_status,
  add_ref, slot_at, resolve_form,
}

-- Inversion of a successful bind.
pub >>=-eq-ok {ℓ κ} :
    {X : Type ℓ} {Y : Type κ} (first : Result X) (next : X → Result Y) {y : Y}
    → (first >>= next) ≡ ok y
    → (x : X) × (first ≡ ok x) × (next x ≡ ok y)
>>=-eq-ok (err fault) next h = cc
>>=-eq-ok (ok x) next h = (x, refl, h)

-- The reference of a task that is there: under its ID, in the form that its slot resolves to.
pub record IsRef (b : Board) (id : Text) (r : TaskRef) : Type 0 where
  pub named : r.id ≡ id
  pub present : resolve_form (slot_at b r.status id) ≡ ok (some r.form)

-- What one column answers.
pub data Answer (b : Board) (s : Status) (id : Text) (o : Option TaskRef) : Type 0 where
  nowhere : resolve_form (slot_at b s id) ≡ ok none → o ≡ none → Answer b s id o
  here : (r : TaskRef) → r.status ≡ s → IsRef b id r → o ≡ some r → Answer b s id o

answer :
    (b : Board) (s : Status) (id : Text) (o : Option TaskRef)
    → resolve_task_ref_in_status b s id ≡ ok o
    → Answer b s id o
unfolding resolve_task_ref_in_status
answer b s id o h =
    let (form, e, k) = >>=-eq-ok (resolve_form (slot_at b s id)) _ h in
    elim (Option-cases form) [
      | inl p ↦ nowhere (rw (e, p)) (ground arith)
      | inr (f, p) ↦
          here (record { id = id; status = s; form = f }) refl
            (record { named = refl; present = rw (e, p) }) (ground arith)
    ]

-- The references found are of the task, and a column in which it stands has one.
pub record Complete (b : Board) (id : Text) (statuses : List Status) (refs : List TaskRef)
    : Type 0 where
  pub sound : All (IsRef b id) refs
  pub covers :
      (s : Status)
      → any (λ t. status_eq t s) statuses ≡ true
      → (resolve_form (slot_at b s id) ≡ ok none) ⊎ (any (λ r. status_eq r.status s) refs ≡ true)

add-Complete :
    (b : Board) (id : Text) (s : Status) (statuses : List Status) (o : Option TaskRef)
    (refs : List TaskRef)
    → Answer b s id o
    → Complete b id statuses refs
    → Complete b id (s ∷ statuses) (add_ref o refs)
add-Complete b id s statuses o refs (nowhere none_here e) c =
    let e' : add_ref o refs ≡ refs = rw e in
    rw e' (record {
      sound = c.sound;
      covers = λ t h. elim (Bool-cases (status_eq s t)) [
        | inl k ↦ inl (rw (← (status_eq_iff s t).0 k) none_here)
        | inr k ↦ c.covers t (ground arith)
      ];
    })
add-Complete b id s statuses o refs (here r at_s found e) c =
    let e' : add_ref o refs ≡ r ∷ refs = rw e in
    rw e' (record {
      sound = (found, c.sound);
      covers = λ t h. elim (Bool-cases (status_eq s t)) [
        | inl k ↦ inr (rw (at_s, k))
        | inr k ↦ elim (c.covers t (ground arith)) [ inl p ↦ inl p | inr p ↦ inr (ground arith) ]
      ];
    })

pub resolve_refs-Complete :
    (b : Board) (id : Text) (statuses : List Status) (refs : List TaskRef)
    → resolve_task_refs_for_id b id statuses ≡ ok refs
    → Complete b id statuses refs
unfolding resolve_task_refs_for_id
resolve_refs-Complete b id [] refs h =
    let e : refs ≡ [] = cc in rw e (record { sound = tt; covers = λ s k. absurd (cc) })
resolve_refs-Complete b id (s ∷ statuses) refs h =
    let (o, e, k) = >>=-eq-ok (resolve_task_ref_in_status b s id) _ h in
    let (rest, e', k') = >>=-eq-ok (resolve_task_refs_for_id b id statuses) _ k in
    let e'' : refs ≡ add_ref o rest = ground arith in
    rw e'' (
      add-Complete b id s statuses o rest (answer b s id o e)
        (resolve_refs-Complete b id statuses rest e'))
