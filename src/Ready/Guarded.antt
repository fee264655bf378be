-- ===== src/Ready/Guarded.antt =====
-- A command checks the board before it takes the lock, and other processes may write in between; what
-- holds of the board that the move finds under the lock.
use task_board_tools.Base.{
  Bool, true, false, [], ◌∷◌, Option, none, some, ◌≡◌, arith, Text, codes, ◌++◌, any, inr, sym, not,
  List, refl, Bool-cases, inl,
}
use task_board_tools.Status.{Status, ready, in_progress, status_name, status_eq, all_status_dirs}
use task_board_tools.Board.{Board, ok, err, Result, TaskRef, resolve_task_ref, discover_task_refs}
use task_board_tools.Ready.Pick.{Next, pick_next_ready_task_lem}
use task_board_tools.Gates.{
  Config, enforce_wip_limit, wip_limit_guard, wip_limit_guard_for_mode, expected_source_guard,
  compose_guards,
}
use task_board_tools.Gates.Wip.{
  Room, Strict, wip_guard_lem, compose_guards-AllPass, expected_source_lem,
}
use task_board_tools.Move.{Disk, ◌>>=◌, TaskMove, move_task_with_guard, run_guard, pure, check}
use task_board_tools.Move.Frame.{bind_ok, check_ok}
use task_board_tools.Move.Success.{MoveDone, move_task_done}
use task_board_tools.Ready.{
  Others, meanwhile, pull_guard, pull_target, command_move, pull_ready_task, pick_next_ready_task,
  in_ready, all_status_dirs,
}
use task_board_tools.Status.Laws.{status_eq_iff}

abbrev pub move_message : Status → Status → Text
move_message target _ = codes "Moved to " ++ status_name target

-- In strict mode a `tb mv` that moves the task finds room in the target on the board that it changes,
-- whatever other processes did since its first check.
pub command_move_lem :
    (c : Config) (d : Disk) (others : Others) (id : Text) (target : Status) (b b' : Board)
    (r : TaskMove)
    → c.strict ≡ true
    → r.noop ≡ false
    → command_move c d others id target b ≡ (b', ok r)
    → MoveDone c d id target (some (wip_limit_guard c)) (move_message target) (others b) b' r
      × Room c target (others b)
unfolding command_move wip_limit_guard
command_move_lem c d others id target b b' r strict moved h =
    let (x, first, h₁) =
      check_ok (λ b. enforce_wip_limit c target b)
        (λ _. meanwhile others >>= λ _.
          move_task_with_guard c d id target (some (wip_limit_guard c)) (move_message target))
        b b' r h in
    let p =
      move_task_done c d id target (some (wip_limit_guard c)) (move_message target) (others b) b' r
        moved h₁ in
    let (y, guarded) = p.checked.guarded in
    (p, wip_guard_lem c false (others b) id p.src.status target y (inr strict) guarded)

-- What both guards of `tb ready` and `tb pull` have found.
pub guards_lem :
    (c : Config) (strict_override : Bool) (from target : Status) (b : Board) (id : Text)
    (src : Status) (x : Bool)
    → run_guard
        (some (
          compose_guards (
            some (expected_source_guard (from ∷ []))
            ∷ some (wip_limit_guard_for_mode c strict_override)
            ∷ [])))
        id
        src
        target
        b
      ≡ ok x
    → (src ≡ from) × (Strict c strict_override → Room c target b)
guards_lem c strict_override from target b id src x h =
    let ((y, e), ((z, k), _)) =
      compose_guards-AllPass
        (some (expected_source_guard (from ∷ []))
          ∷ some (wip_limit_guard_for_mode c strict_override)
          ∷ [])
        b id src target x h in
    let at : any (λ s. status_eq s src) (from ∷ []) ≡ true =
      expected_source_lem (from ∷ []) b id src target y e in
    (
      sym ((status_eq_iff from src).0 (ground arith)),
      λ strict. wip_guard_lem c strict_override b id src target z strict k,
    )

abbrev pull_message : Status → Text
pull_message _ = codes "Pulled into in-progress"

-- Which task a pull is to move, by the board of its first look: the one that is asked for, which stands
-- in `ready`, or else the one that the pick finds there.
abbrev pub Chosen : Config → Board → Option Text → Text → Type 0
Chosen c b (some asked) id =
    (id ≡ asked)
    × ((ref : TaskRef) × (resolve_task_ref c.prefix b asked all_status_dirs ≡ ok ref)
        × (ref.status ≡ ready))
Chosen c b none id =
    (refs : List TaskRef) × (discover_task_refs c.prefix b (ready ∷ []) ≡ ok refs)
    × Next c b refs (some id)

-- A pull that moved a task: it is the right one; under the lock it stood in `ready`, and in strict mode
-- there was room.
pub record Pulled (c : Config) (d : Disk) (target : Option Text) (b locked b' : Board)
    : Type 0 where
  pub id : Text
  pub chosen : Chosen c b target id
  pub result : TaskMove
  pub moved : MoveDone c d id in_progress (pull_guard c) pull_message locked b' result
  pub from_ready : moved.src.status ≡ ready
  pub room : c.strict ≡ true → Room c in_progress locked

-- The end of a pull of a chosen task.
pull_target-Pulled :
    (c : Config) (d : Disk) (others : Others) (target : Option Text) (id : Text) (b b' : Board)
    → Chosen c b target id
    → pull_target c d others (some id) b ≡ (b', ok true)
    → Pulled c d target b (others b) b'
unfolding wip_limit_guard_for_mode wip_limit_guard
pull_target-Pulled c d others target id b b' chosen h =
    let (b₁, r, e, k) =
      bind_ok (move_task_with_guard c d id in_progress (pull_guard c) pull_message)
        (λ r. pure (not r.noop)) (others b) b' true h in
    let same : b' ≡ b₁ = ground arith in
    let went : r.noop ≡ false = ground arith in
    let p =
      move_task_done c d id in_progress (pull_guard c) pull_message (others b) b' r went
        (rw same e) in
    let (x, guarded) = p.checked.guarded in
    let (from, room) = guards_lem c false ready in_progress (others b) id p.src.status x guarded in
    record {
      id = id;
      chosen = chosen;
      result = r;
      moved = p;
      from_ready = from;
      room = λ strict. room (inr strict);
    }

in_ready_lem :
    (found : Result TaskRef) (x : Bool)
    → in_ready found ≡ ok x
    → (ref : TaskRef) × (found ≡ ok ref) × (ref.status ≡ ready)
in_ready_lem (err e) x h = absurd (ground arith)
in_ready_lem (ok ref) x h = elim (Bool-cases (status_eq ref.status ready)) [
  | inl e ↦ (ref, refl, (status_eq_iff ref.status ready).0 e)
  | inr e ↦ let k = rw e at h in absurd (ground arith)
]

-- The end of a pull of what was picked, if anything was.
picked-Pulled :
    (c : Config) (d : Disk) (others : Others) (next : Option Text) (b b' : Board)
    → pick_next_ready_task c b ≡ ok next
    → pull_target c d others next b ≡ (b', ok true)
    → Pulled c d none b (others b) b'
picked-Pulled c d others none b b' pick h = absurd (ground arith)
picked-Pulled c d others (some id) b b' pick h =
    let (refs, found, p) = pick_next_ready_task_lem c b (some id) pick in
    pull_target-Pulled c d others none id b b' (refs, found, p) h

-- When `tb pull` reports a task, it is the one asked for, which stood in `ready` at the first look, or
-- without an ID the one of `ready` that no other that parses there came before at that look; it stood in `ready` on the
-- board under the lock too, in strict mode `in-progress` had room there, and the move has been done.
pub pull_ready_task_lem :
    (c : Config) (d : Disk) (others : Others) (target : Option Text) (b b' : Board)
    → pull_ready_task c d others target b ≡ (b', ok true)
    → Pulled c d target b (others b) b'
unfolding pull_ready_task
pull_ready_task_lem c d others none b b' h =
    let (x, first, h₁) =
      check_ok (λ b. enforce_wip_limit c in_progress b)
        (λ _. check (λ b. pick_next_ready_task c b) >>= pull_target c d others) b b' true h in
    let (next, pick, h₂) =
      check_ok (λ b. pick_next_ready_task c b) (pull_target c d others) b b' true h₁ in
    picked-Pulled c d others next b b' pick h₂
pull_ready_task_lem c d others (some id) b b' h =
    let (x, first, h₁) =
      check_ok (λ b. enforce_wip_limit c in_progress b)
        (λ _. check (λ b. in_ready (resolve_task_ref c.prefix b id all_status_dirs)) >>= λ _.
          pull_target c d others (some id))
        b b' true h in
    let (y, stands, h₂) =
      check_ok (λ b. in_ready (resolve_task_ref c.prefix b id all_status_dirs))
        (λ _. pull_target c d others (some id)) b b' true h₁ in
    let at = in_ready_lem (resolve_task_ref c.prefix b id all_status_dirs) y stands in
    pull_target-Pulled c d others (some id) id b b' (refl, at) h₂
