-- ===== src/Automation/Capacity/Laws.antt =====
-- What the active set holds and how much room it leaves.
use task_board_tools.Base.{
  suc, ◌-◌, ◌≤◌, true, List, [], ◌∷◌, Option, none, some, Text, text_eq, ◌||◌, ℤ, length, ◌≡◌, ◌↔◌,
  ◌⊎◌, arith, ◌≢◌, text_eq_iff, if_any, text_eq_sound, zero,
}
use task_board_tools.Automation.Capacity.{
  add_active, active_set, remaining_capacity, budget_workers, budget_tasks, agent_tasks, trim_space,
  is_in, positive_or, pos, negsuc,
}
use task_board_tools.Daemon.Counts.{count, new_once}
use task_board_tools.Daemon.{is_in}
use task_board_tools.Strings.{trim_space}

add_active_once :
    (set ids : List Text)
    → ((x : Text) → count x set ≤ 1)
    → (x : Text) → count x (add_active set ids) ≤ 1
unfolding add_active
add_active_once set [] h x = h x
add_active_once set (id ∷ ids) h x =
    if_any (λ (s : List Text). count x s ≤ 1) (text_eq (trim_space id) [] || is_in set id)
      (λ _. add_active_once set ids h x)
      (λ e. add_active_once (id ∷ set) ids (λ y. new_once set id y (ground arith) (h y)) x)

-- An ID that is not blank.
abbrev pub IsNamed : Text → Type 0
IsNamed x = trim_space x ≢ []

-- What is passed over is blank or there.
absorbed :
    (set : List Text) (id x : Text)
    → (text_eq (trim_space id) [] || is_in set id) ≡ true
    → text_eq x id ≡ true
    → IsNamed x
    → is_in set x ≡ true
absorbed set id x e same named =
    let eq = text_eq_sound x id same in
    rw eq (let full = rw eq at named in ground (arith, text_eq_iff (trim_space id) [], full))

-- Who is in the set: those that were, and the new ones with a name.
add_active_in :
    (set ids : List Text) (x : Text)
    → (is_in (add_active set ids) x ≡ true)
      ↔ ((is_in set x ≡ true) ⊎ ((is_in ids x ≡ true) × IsNamed x))
unfolding add_active
add_active_in set [] x = ground arith
add_active_in set (id ∷ ids) x =
    if_any
      (λ (s : List Text).
        (is_in s x ≡ true) ↔ ((is_in set x ≡ true) ⊎ ((is_in (id ∷ ids) x ≡ true) × IsNamed x)))
      (text_eq (trim_space id) [] || is_in set id)
      (λ e.
        let iff = add_active_in set ids x in
        let old = absorbed set id x e in ground (arith, iff, old))
      (λ e.
        let iff = add_active_in (id ∷ set) ids x in
        let new : text_eq x id ≡ true → IsNamed x = λ same blank.
          let eq = text_eq_sound x id same in
          let b = rw eq at blank in absurd (ground (arith, text_eq_iff (trim_space id) [])) in
        ground (arith, iff, new))

-- The set of active tasks holds every ID that the budget or the agent service reports, blank ones left
-- out, once; the remaining capacity is the number of workers less the size of this set, or 0 if the set
-- is larger. The number of workers is at least 1.
pub remaining_capacity_lem :
    (budget : Option (ℤ × List Text)) (agent : Option (List Text)) (settings : Option ℤ)
    → ((x : Text) → count x (active_set budget agent) ≤ 1)
      × ((x : Text)
          → (is_in (active_set budget agent) x ≡ true) ↔ (
              ((is_in (budget_tasks budget) x ≡ true) ⊎ (is_in (agent_tasks agent) x ≡ true))
              × IsNamed x))
      × (remaining_capacity budget agent settings
          ≡ budget_workers budget settings - length (active_set budget agent))
      × (1 ≤ budget_workers budget settings)
unfolding remaining_capacity active_set
remaining_capacity_lem budget agent settings = (
  (λ x.
      add_active_once (add_active [] (budget_tasks budget)) (agent_tasks agent)
        (add_active_once [] (budget_tasks budget) (λ y. unfold count in omega arith)) x),
  (λ x.
      let first = add_active_in [] (budget_tasks budget) x in
      let second = add_active_in (add_active [] (budget_tasks budget)) (agent_tasks agent) x in
      ground (arith, first, second)),
  ground arith,
  some_worker budget settings,
)
  where
    positive : (n : ℤ) → 1 ≤ positive_or 1 n
    positive (pos (suc n)) = omega arith
    positive (pos zero) = omega arith
    positive (negsuc n) = omega arith

    some_worker : (b : Option (ℤ × List Text)) (s : Option ℤ) → 1 ≤ budget_workers b s
    some_worker (some (n, _)) s = positive n
    some_worker none (some n) = positive n
    some_worker none none = omega arith
