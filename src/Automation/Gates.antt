-- ===== src/Automation/Gates.antt =====
-- Which tasks a scan may touch.
pub mod Rights
use mathlib.Core.List.{Memᴰ}
use task_board_tools.Base.{
  ℕ, ◌≡◌, ◌≢◌, List, [], ◌∷◌, Text, Bool-cases, inl, inr, arith, refl, Bool, Option, All, codes,
  none, some, false, true, ◌⊎◌, text_eq_iff, ◌==◌, text_eq, Option-cases, ltb, ◌&&◌, leb, sym, ◌∙◌,
  if_any, not,
}
use task_board_tools.EpicOrder.{Result, blocked}
use task_board_tools.Automation.Implement.{
  Action, Scan, Calls, candidate_blocker, order_blocker, implement_gate_blocker, crashed, resumed,
  agent_set, pulled, queued, moved_back, resume_ended, try_auto_resume, take_worker, resume_owned,
  resume_sweep, run_ended, pull_and_run, start_candidate, start_loop, candidate_pass, act,
  record_skip, resume_round, start_round, RunResult, in_cooldown, starts_before, resume_call,
  started, already_running, capacity_full, failed, StartResult,
}
use task_board_tools.Automation.Tasks.{
  BoardTask, Snapshot, epic_task_from_board_task, build_epicorder_siblings,
}
use task_board_tools.Daemon.{is_in}
use task_board_tools.EpicOrder.{contains_tag, eligible_for_epic_order}
use task_board_tools.EpicOrder.Laws.{IsFinished, eligible_iff}
use task_board_tools.Automation.Scan.{
  started_from, swept, explicit_limit, Inputs, Coordinator, scan, scan_any,
}
use task_board_tools.Board.{sort_by}
use task_board_tools.Strings.{to_lower, trim_space}
use task_board_tools.Board.Sorting.{All-sort_by}
use task_board_tools.Automation.Gates.Rights.{
  MayResume, MayStart, candidate_blocker-MayStart, Allowed,
}

Memᴰ_behind {ℓ} :
    {A : Type ℓ} (y : A) (ys zs : List A) → All (λ z. Memᴰ z ys) zs → All (λ z. Memᴰ z (y ∷ ys)) zs
Memᴰ_behind y ys [] h = tt
Memᴰ_behind y ys (z ∷ zs) (h, hs) = (Memᴰ.tail h, Memᴰ_behind y ys zs hs)

Memᴰ-All {ℓ} : {A : Type ℓ} (xs : List A) → All (λ x. Memᴰ x xs) xs
Memᴰ-All [] = tt
Memᴰ-All (x ∷ xs) = (Memᴰ.head refl, Memᴰ_behind x xs xs (Memᴰ-All xs))

module _ (k : Calls) (triage : Option (List Text)) (snap : Snapshot) (ready : List BoardTask) where
  abbrev Fine : List Action → Type 0
  Fine = All (Allowed k triage snap ready)

  resume_ended-Fine :
      (id : Text) (r : Option RunResult) (s : Scan)
      → MayResume k snap.in_progress id
      → Fine s.actions
      → Fine (resume_ended id r s).1.actions
  unfolding resume_ended act record_skip
  resume_ended-Fine id none s m h = h
  resume_ended-Fine id (some started) s m h = (m, h)
  resume_ended-Fine id (some already_running) s m h = h
  resume_ended-Fine id (some capacity_full) s m h = h
  resume_ended-Fine id (some failed) s m h = h

  try_auto_resume-Fine :
      (now : ℕ) (t : BoardTask) (s : Scan)
      → Memᴰ t snap.in_progress
      → crashed t ≡ true
      → k.initiated t.id ≡ some true
      → Fine s.actions
      → Fine (try_auto_resume k now t s).1.actions
  unfolding try_auto_resume record_skip
  try_auto_resume-Fine now t s m crash own h = elim (Bool-cases (k.has_active_run t.id)) [
    | inl e ↦ rw e h
    | inr e ↦ elim (Bool-cases (in_cooldown now t.id s)) [
      | inl c ↦ rw (e, c) h
      | inr c ↦
          rw (e, c)
            (resume_ended-Fine t.id (resume_call k t.id t.agent_status) _
              (record {
                task = t;
                at = m;
                named = refl;
                was_crashed = crash;
                owned = own;
                inactive = e;
              })
              h)
    ]
  ]

  take_worker-actions : (r : Bool × Scan) → (take_worker r).actions ≡ r.1.actions
  take_worker-actions (true, s) = refl
  take_worker-actions (false, s) = refl

  resume_owned-Fine :
      (now : ℕ) (t : BoardTask) (o : Option Bool) (s : Scan)
      → Memᴰ t snap.in_progress
      → crashed t ≡ true
      → k.initiated t.id ≡ o
      → Fine s.actions
      → Fine (resume_owned k now t o s).actions
  unfolding resume_owned record_skip
  resume_owned-Fine now t none s m crash own h = h
  resume_owned-Fine now t (some false) s m crash own h = h
  resume_owned-Fine now t (some true) s m crash own h = elim (Bool-cases (s.workers == 0)) [
    | inl z ↦ rw z h
    | inr z ↦
        rw (z, take_worker-actions (try_auto_resume k now t s))
          (try_auto_resume-Fine now t s m crash own h)
  ]

  resume_round-Fine :
      (now : ℕ) (t : BoardTask) (s : Scan)
      → Memᴰ t snap.in_progress
      → Fine s.actions
      → Fine (resume_round k now t s).actions
  unfolding resume_round
  resume_round-Fine now t s m h =
      if_any (λ (s' : Scan). Fine s'.actions) (crashed t)
        (λ e. resume_owned-Fine now t (k.initiated t.id) s m e refl h) (λ _. h)

  resume_sweep-Fine :
      (now : ℕ) (ts : List BoardTask) (s : Scan)
      → All (λ t. Memᴰ t snap.in_progress) ts
      → Fine s.actions
      → Fine (resume_sweep k now ts s).actions
  unfolding resume_sweep
  resume_sweep-Fine now [] s m h = h
  resume_sweep-Fine now (t ∷ ts) s (m, ms) h =
      resume_sweep-Fine now ts (resume_round k now t s) ms (resume_round-Fine now t s m h)

  run_ended-Fine :
      (id : Text) (r : RunResult) (s : Scan)
      → MayStart k triage snap ready id
      → Fine s.actions
      → Fine (run_ended k id r s).1.actions
  unfolding run_ended act record_skip
  run_ended-Fine id started s m h = (m, h)
  run_ended-Fine id already_running s m h = h
  run_ended-Fine id failed s m h = h
  run_ended-Fine id capacity_full s m h = elim (Bool-cases (k.move_to_ready id)) [
    | inl e ↦ rw e (m, h)
    | inr e ↦ rw e h
  ]

  pull_and_run-Fine :
      (id agent : Text) (s : Scan)
      → MayStart k triage snap ready id
      → Fine s.actions
      → Fine (pull_and_run k id agent s).1.actions
  unfolding pull_and_run act record_skip
  pull_and_run-Fine id agent s m h = elim (Bool-cases (k.runner_for agent)) [
    | inr e ↦ rw e h
    | inl e ↦ elim (Bool-cases (k.pull_task id)) [
      | inr p ↦ rw (e, p) h
      | inl p ↦ rw (e, p) (run_ended-Fine id (k.run_agent id) _ m (m, h))
    ]
  ]

  start_candidate-Fine :
      (agent : Text) (t : BoardTask) (s : Scan)
      → MayStart k triage snap ready t.id
      → Fine s.actions
      → Fine (start_candidate k agent t s).1.actions
  unfolding start_candidate act record_skip
  start_candidate-Fine agent t s m h =
      let P : StartResult × Scan → Type 0 = λ r. Fine r.1.actions in
      if_any P (not (text_eq (to_lower (trim_space t.agent)) []))
        (λ _. pull_and_run-Fine t.id (to_lower (trim_space t.agent)) s m h)
        (λ _.
          if_any P (not k.client) (λ _. h)
            (λ _.
              if_any P (not (k.set_agent t.id)) (λ _. h)
                (λ _. pull_and_run-Fine t.id agent (act (agent_set t.id) s) m (m, h))))

  start_round-Fine :
      (agent : Text) (limit : ℕ) (t : BoardTask) (s : Scan)
      → MayStart k triage snap ready t.id
      → Fine s.actions
      → Fine (start_round k agent limit t s).actions
  unfolding start_round record_skip
  start_round-Fine agent limit t s m h =
      let P : Scan → Type 0 = λ s'. Fine s'.actions in
      if_any P (s.workers == 0) (λ _. h)
        (λ _.
          if_any P (ltb 0 limit && leb limit s.in_progress) (λ _. h)
            (λ _. start_candidate-Fine agent t s m h))

  start_loop-Fine :
      (agent : Text) (limit : ℕ) (ts : List BoardTask) (s : Scan)
      → All (λ t. MayStart k triage snap ready t.id) ts
      → Fine s.actions
      → Fine (start_loop k agent limit ts s).actions
  unfolding start_loop
  start_loop-Fine agent limit [] s m h = h
  start_loop-Fine agent limit (t ∷ ts) s (m, ms) h =
      start_loop-Fine agent limit ts (start_round k agent limit t s) ms
        (start_round-Fine agent limit t s m h)

module _ (k : Calls) (snap : Snapshot) (ready : List BoardTask) where
  candidate_pass-MayStart :
      (flagged : List Text) (ts : List BoardTask) (s : Scan)
      → All (λ t. Memᴰ t ready) ts
      → All (λ t. MayStart k (some flagged) snap ready t.id) (candidate_pass k flagged snap ts s).0
        × ((candidate_pass k flagged snap ts s).1.actions ≡ s.actions)
  unfolding candidate_pass record_skip
  candidate_pass-MayStart flagged [] s m = (tt, refl)
  candidate_pass-MayStart flagged (t ∷ ts) s (m, ms) =
      elim (Option-cases (candidate_blocker k flagged snap t)) [
        | inl e ↦
            let (rest, same) = candidate_pass-MayStart flagged ts s ms in
            rw (candidate_pass, e)
              ((candidate_blocker-MayStart k flagged snap ready t m e, rest), same)
        | inr (why, e) ↦
            rw (candidate_pass, e) (candidate_pass-MayStart flagged ts (record_skip t.id why s) ms)
      ]

  started_from-Fine :
      (i : Inputs) (s : Scan) (triage : Option (List Text))
      → i.triage ≡ triage
      → Fine k triage snap ready s.actions
      → Fine k triage snap ready (started_from k i snap ready s).actions
  unfolding started_from explicit_limit
  started_from-Fine i s none e h = rw (started_from, e) h
  started_from-Fine i s (some flagged) e h =
      let (passed, same) = candidate_pass-MayStart flagged ready s (Memᴰ-All ready) in
      rw (started_from, e)
        (start_loop-Fine k (some flagged) snap ready i.default_agent (explicit_limit i snap)
          (sort_by starts_before (candidate_pass k flagged snap ready s).0)
          (candidate_pass k flagged snap ready s).1
          (All-sort_by (λ t. MayStart k (some flagged) snap ready t.id) starts_before _ passed)
          (rw same h))

-- Everything a scan does, it does to a task that may be touched: it resumes only crashed runs of
-- auto-implement on tasks in progress, without another active run; and it sets an agent, pulls, queues
-- or moves back only listed tasks whose agent has not been cancelled and does not wait for the user,
-- that no implement run works on, that are not flagged by triage and not epics, and all of whose earlier
-- siblings are in done or archive.
pub scan-Allowed :
    (k : Calls) (i : Inputs) (c : Coordinator) (snap : Snapshot) (ready : List BoardTask)
    → i.board ≡ some snap
    → i.ready_tasks ≡ some ready
    → All (Allowed k i.triage snap ready) (scan k i c).done_actions
unfolding swept
scan-Allowed k i c snap ready e q =
    scan_any (All (Allowed k i.triage snap ready)) k i c tt (λ snap' ready' e' q'.
      let same : snap' ≡ snap = mathlib.Core.Option.some-injective _ _ (sym e' ∙ e) in
      let same_ready : ready' ≡ ready = mathlib.Core.Option.some-injective _ _ (sym q' ∙ q) in
      rw (same, same_ready)
        (started_from-Fine k snap ready i (swept k i snap c.attempts) i.triage refl (
          resume_sweep-Fine k i.triage snap ready i.now snap.in_progress _
            (Memᴰ-All snap.in_progress) tt)))
