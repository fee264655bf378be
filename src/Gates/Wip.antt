-- ===== src/Gates/Wip.antt =====
-- What the guards of a move let through.
use task_board_tools.Base.{
  ℕ, Bool, true, false, List, [], ◌∷◌, Option, none, some, ◌≡◌, ◌<◌, arith, Text, length, inl, inr,
  refl, ◌⊎◌, any,
}
use task_board_tools.Status.{Status, status_eq}
use task_board_tools.Task.{Task}
use task_board_tools.Board.{Board, Result, ok, err}
use task_board_tools.Gates.{
  Config, MoveGuard, collect_tasks, enforce_wip_limit_for_mode, wip_limit_for, limit_check,
  compose_guards, wip_limit_guard_for_mode, expected_source_guard, status_eq,
}
use task_board_tools.Board.Lookup.{>>=-eq-ok}

-- There is no limit, or the tasks of the column can be listed and are fewer than it.
pub data Room (c : Config) (status : Status) (b : Board) : Type 0 where
  unlimited : wip_limit_for c status ≡ none → Room c status b
  below :
      (limit : ℕ) (tasks : List Task)
      → wip_limit_for c status ≡ some limit
      → collect_tasks c b status ≡ ok tasks
      → length tasks < limit
      → Room c status b

abbrev pub Strict : Config → Bool → Type 0
Strict c strict_override = (strict_override ≡ true) ⊎ (c.strict ≡ true)

limit_check-below :
    (c : Config) (strict_override : Bool) (limit : ℕ) (tasks : List Task) (x : Bool)
    → Strict c strict_override
    → limit_check c strict_override (some limit) (ok tasks) ≡ ok x
    → length tasks < limit
limit_check-below c true limit tasks x strict h = ground arith
limit_check-below c false limit tasks x (inl e) h = absurd (ground arith)
limit_check-below c false limit tasks x (inr e) h = ground arith

pub room :
    (c : Config) (status : Status) (b : Board) (strict_override x : Bool) (limit : Option ℕ)
    (tasks : Result (List Task))
    → Strict c strict_override
    → wip_limit_for c status ≡ limit
    → collect_tasks c b status ≡ tasks
    → limit_check c strict_override limit tasks ≡ ok x
    → Room c status b
room c status b strict_override x none tasks strict e k h = unlimited e
room c status b strict_override x (some limit) (err q) strict e k h = absurd (ground arith)
room c status b strict_override x (some limit) (ok tasks) strict e k h =
    below limit tasks e k (limit_check-below c strict_override limit tasks x strict h)

-- In strict mode, from the configuration or by the command's override, a WIP check that passes leaves
-- room for one more task.
pub enforce_wip_limit-Room :
    (c : Config) (status : Status) (b : Board) (strict_override x : Bool)
    → Strict c strict_override
    → enforce_wip_limit_for_mode c status b strict_override ≡ ok x
    → Room c status b
unfolding enforce_wip_limit_for_mode
enforce_wip_limit-Room c status b strict_override x strict h =
    room c status b strict_override x (wip_limit_for c status) (collect_tasks c b status) strict
      refl refl h

-- Every guard in the list lets the move through.
abbrev pub AllPass : List (Option MoveGuard) → Board → Text → Status → Status → Type 0
AllPass [] b id src target = Unit
AllPass (none ∷ gs) b id src target = AllPass gs b id src target
AllPass (some g ∷ gs) b id src target =
    ((x : Bool) × (g b id src target ≡ ok x)) × AllPass gs b id src target

pub compose_guards-AllPass :
    (gs : List (Option MoveGuard)) (b : Board) (id : Text) (src target : Status) (x : Bool)
    → compose_guards gs b id src target ≡ ok x
    → AllPass gs b id src target
unfolding compose_guards
compose_guards-AllPass [] b id src target x h = tt
compose_guards-AllPass (none ∷ gs) b id src target x h =
    compose_guards-AllPass gs b id src target x h
compose_guards-AllPass (some g ∷ gs) b id src target x h =
    let (y, e, k) = >>=-eq-ok (g b id src target) (λ _. compose_guards gs b id src target) h in
    ((y, e), compose_guards-AllPass gs b id src target x k)

pub expected_source_lem :
    (expected : List Status) (b : Board) (id : Text) (src target : Status) (x : Bool)
    → expected_source_guard expected b id src target ≡ ok x
    → any (λ s. status_eq s src) expected ≡ true
unfolding expected_source_guard
expected_source_lem expected b id src target x h = ground arith

pub wip_guard_lem :
    (c : Config) (strict_override : Bool) (b : Board) (id : Text) (src target : Status) (x : Bool)
    → Strict c strict_override
    → wip_limit_guard_for_mode c strict_override b id src target ≡ ok x
    → Room c target b
unfolding wip_limit_guard_for_mode
wip_guard_lem c strict_override b id src target x strict h =
    enforce_wip_limit-Room c target b strict_override x strict h
