-- ===== src/Ready/Promote.antt =====
-- `promoteToReadyWithOptions`: what holds of the board that its move finds under the lock.
use task_board_tools.Base.{
  Bool, true, false, [], ◌∷◌, ◌≡◌, arith, Text, codes, ◌++◌, inr, List, Bool-cases, ◌∙◌, inl, refl,
  ap,
}
use task_board_tools.Status.{
  Status, ready, in_progress, backlog, all_status_dirs, code_review, done, archive,
}
use task_board_tools.Board.{
  Board, ok, TaskRef, Result, resolve_task_ref, err, parse_task_ref, read_ref,
}
use task_board_tools.Gates.{Config, em_dash, enforce_wip_limit_for_mode}
use task_board_tools.Gates.Wip.{Room, Strict}
use task_board_tools.Move.{Disk, ◌>>=◌, TaskMove, move_task_with_guard, pure, check, M}
use task_board_tools.Move.Frame.{bind_ok, check_ok}
use task_board_tools.Move.Success.{MoveDone, move_task_done}
use task_board_tools.Ready.{
  Others, meanwhile, promotable, Task, backlog, grooming_gate, all_status_dirs, GroomingReason,
  ready_guard, groomed, clear_ready_agent_status, check_needs_grooming, after_promotion,
  promote_from, promote_to_ready,
}
use task_board_tools.Task.{Task}
use task_board_tools.Ready.Cleared.{StatusCleared, clear_ready_agent_status-StatusCleared}
use task_board_tools.Triage.{GroomingReason, check_needs_grooming}
use task_board_tools.Ready.Guarded.{guards_lem}

abbrev promoted_message : Status → Text
promoted_message _ = codes "Committed " ++ (em_dash ++ codes " moved to ready")

-- A promotion: what the first look has found, and what the move has found under the lock.
pub record Promoted (c : Config) (d : Disk) (others later : Others) (strict_wip : Bool) (id : Text)
    (b b' : Board) : Type 0 where
  pub ref : TaskRef
  pub task : Task
  pub resolved : resolve_task_ref c.prefix b id all_status_dirs ≡ ok ref
  pub was_backlog : ref.status ≡ backlog
  pub parses : parse_task_ref c.prefix b ref ≡ ok task
  pub gate : grooming_gate (read_ref b ref) task ≡ ok true
  pub between : Board
  pub result : TaskMove
  pub moved :
      MoveDone c d id ready (ready_guard c strict_wip) promoted_message (others b) between result
  pub from_backlog : moved.src.status ≡ backlog
  pub room : Strict c strict_wip → Room c ready (others b)
  pub cleared : StatusCleared c id (later between) b'

-- The gate returns `true` or an error.
gate_true :
    (content : Result Text) (t : Task) (x : Bool) → grooming_gate content t ≡ ok x → x ≡ true
gate_true (err e) t x h = ground arith
gate_true (ok content) t x h = groomed_true (check_needs_grooming content t) x h
  where
    groomed_true : (reasons : List GroomingReason) (x : Bool) → groomed reasons ≡ ok x → x ≡ true
    groomed_true [] x h = ground arith
    groomed_true (r ∷ reasons) x h = absurd (ground arith)

promotable-true : (s : Status) → promotable s ≡ ok true → s ≡ backlog
promotable-true backlog h = refl
promotable-true ready h = absurd (ground arith)
promotable-true in_progress h = absurd (ground arith)
promotable-true code_review h = absurd (ground arith)
promotable-true done h = absurd (ground arith)
promotable-true archive h = absurd (ground arith)

module _ (c : Config) (d : Disk) (others later : Others) (strict_wip : Bool) (id : Text)
    (b b' : Board) where
  -- The steps behind each check.
  move_on : Bool → M Bool
  move_on _ =
      move_task_with_guard c d id ready (ready_guard c strict_wip) promoted_message
      >>= after_promotion c d later id

  check_limit : Bool → M Bool
  check_limit _ = check (λ b. enforce_wip_limit_for_mode c ready b strict_wip) >>= λ _.
      meanwhile others >>= move_on

  check_gate : TaskRef → Task → M Bool
  check_gate ref t = check (λ b. grooming_gate (read_ref b ref) t) >>= check_limit

  -- The clean-up that ends a promotion.
  after_promotion-cleared :
      (r : TaskMove) (b₁ : Board)
      → after_promotion c d later id r b₁ ≡ (b', ok true)
      → (r.noop ≡ false) × StatusCleared c id (later b₁) b'
  after_promotion-cleared r b₁ h = elim (Bool-cases r.noop) [
    | inl e ↦ absurd (ground arith)
    | inr e ↦
        let steps : (clear_ready_agent_status c d id >>= λ _. pure true) (later b₁)
            ≡ (b', ok true) =
          rw e at h in
        let (b₂, x, q, k) =
          bind_ok (clear_ready_agent_status c d id) (λ _. pure true) (later b₁) b' true steps in
        let same : b₂ ≡ b' = ground arith in
        (
          e,
          clear_ready_agent_status-StatusCleared c d id (later b₁) b' x
              (q ∙ ap (λ y. (y, ok x)) same),
        )
  ]

  promote_from-Promoted :
      (ref : TaskRef)
      → resolve_task_ref c.prefix b id all_status_dirs ≡ ok ref
      → ref.status ≡ backlog
      → promote_from c d others later strict_wip id true ref b ≡ (b', ok true)
      → Promoted c d others later strict_wip id b b'
  unfolding move_on check_limit check_gate
  promote_from-Promoted ref resolved was h =
      let (t, parses, h₁) =
        check_ok (λ b. parse_task_ref c.prefix b ref) (check_gate ref) b b' true h in
      let (x, gate, h₂) =
        check_ok (λ b. grooming_gate (read_ref b ref) t) check_limit b b' true h₁ in
      let (y, limit, h₃) =
        check_ok (λ b. enforce_wip_limit_for_mode c ready b strict_wip)
          (λ _. meanwhile others >>= move_on) b b' true h₂ in
      let (b₁, r, e, k) =
        bind_ok (move_task_with_guard c d id ready (ready_guard c strict_wip) promoted_message)
          (after_promotion c d later id) (others b) b' true h₃ in
      let (went, cleared) = after_promotion-cleared r b₁ k in
      let p =
        move_task_done c d id ready (ready_guard c strict_wip) promoted_message (others b) b₁ r went
          e in
      let (z, guarded) = p.checked.guarded in
      let (from, room) =
        guards_lem c strict_wip backlog ready (others b) id p.src.status z guarded in
      record {
        ref = ref;
        task = t;
        resolved = resolved;
        was_backlog = was;
        parses = parses;
        gate = gate ∙ ap ok (gate_true (read_ref b ref) t x gate);
        between = b₁;
        result = r;
        moved = p;
        from_backlog = from;
        room = room;
        cleared = cleared;
      }

-- When `tb ready` reports a promotion, the task was in `backlog` and passed the grooming gate at the
-- first look; under the lock, after whatever other processes did, it still was in `backlog`, in strict
-- mode `ready` had room, and it was moved; then, of the task that stands in `ready` by that time, the
-- first metadata line of the agent status is taken out of the file and nothing else changes, or there
-- is no such line and the board stays as it is.
pub promote_to_ready_lem :
    (c : Config) (d : Disk) (others later : Others) (strict_wip : Bool) (id : Text) (b b' : Board)
    → promote_to_ready c d others later strict_wip id b ≡ (b', ok true)
    → Promoted c d others later strict_wip id b b'
unfolding promote_to_ready
promote_to_ready_lem c d others later strict_wip id b b' h =
    let (ref, resolved, h₁) =
      check_ok (λ b. resolve_task_ref c.prefix b id all_status_dirs)
        (λ ref. check (λ _. promotable ref.status) >>= λ go_on.
          promote_from c d others later strict_wip id go_on ref)
        b b' true h in
    let (x, go_on, h₂) =
      check_ok (λ _. promotable ref.status)
        (λ go_on. promote_from c d others later strict_wip id go_on ref) b b' true h₁ in
    elim (Bool-cases x) [
      | inl e ↦
          promote_from-Promoted c d others later strict_wip id b b' ref resolved
            (promotable-true ref.status (go_on ∙ ap ok e)) (rw e at h₂)
      | inr e ↦ let stopped = rw e at h₂ in absurd (ground arith)
    ]
