-- ===== src/Automation/Wip.antt =====
-- What a scan does to the column in-progress.
use task_board_tools.Base.{
  ℕ, suc, ◌+◌, ◌≡◌, ◌≤◌, ◌<◌, List, [], ◌∷◌, Text, Bool-cases, inl, inr, arith, refl, Bool, Option,
  lt→ltb, true, false, some, text_eq, ◌==◌, Option-cases, ltb, none, ◌&&◌, codes, leb, sym, ◌∙◌,
}
use task_board_tools.Automation.Workers.{bit}
use task_board_tools.Automation.Implement.{
  Action, Scan, pulled, moved_back, StartResult, resumed, queued, agent_set, resume_ended,
  try_auto_resume, take_worker, resume_owned, resume_sweep, Calls, run_ended, not_started,
  pull_and_run, start_candidate, count_start, start_loop, act, record_skip, resume_round,
  start_round, RunResult, in_cooldown, crashed, candidate_pass, started, resume_call,
  already_running, candidate_blocker, capacity_full, failed, starts_before,
}
use task_board_tools.Automation.Scan.{
  Inputs, Coordinator, explicit_limit, scan, started_from, swept, scan_any,
}
use task_board_tools.Automation.Tasks.{Snapshot, BoardTask}
use task_board_tools.Strings.{to_lower, trim_space}
use task_board_tools.Board.{sort_by}

-- How many tasks have been pulled, and how many of these moved back.
unfoldable pub pulls : List Action → ℕ
pulls [] = 0
pulls (pulled id ∷ rest) = suc (pulls rest)
pulls (resumed id ∷ rest) = pulls rest
pulls (queued id ∷ rest) = pulls rest
pulls (agent_set id ∷ rest) = pulls rest
pulls (moved_back id ∷ rest) = pulls rest

unfoldable pub returns : List Action → ℕ
returns [] = 0
returns (moved_back id ∷ rest) = suc (returns rest)
returns (pulled id ∷ rest) = returns rest
returns (resumed id ∷ rest) = returns rest
returns (queued id ∷ rest) = returns rest
returns (agent_set id ∷ rest) = returns rest

-- A predicate at every moment: behind each action, and before the first.
abbrev pub Always : (List Action → Type 0) → List Action → Type 0
Always P [] = P []
Always P (a ∷ rest) = P (a ∷ rest) × Always P rest

-- The column as it was found holds `count` tasks, and the limit is `limit`.
module _ (count limit : ℕ) where
  abbrev pub Within : List Action → Type 0
  Within made = count + pulls made ≤ limit + returns made

  -- What the scan counts is what stands in the column.
  record IsTrue (s : Scan) : Type 0 where
    counted : s.in_progress + returns s.actions ≡ count + pulls s.actions
    kept : Always Within s.actions

  -- What a start does to the column, from a state that has room.
  record IsPull (s : Scan) (r : StartResult) (s' : Scan) : Type 0 where
    same : s'.in_progress ≡ s.in_progress
    grown :
        pulls s'.actions + returns s.actions
        ≡ pulls s.actions + returns s'.actions + bit r.was_pulled
    kept : Always Within s'.actions

  now : (made : List Action) → Always Within made → Within made
  now [] h = h
  now (a ∷ rest) (h, _) = h

  -- Resumed runs, agents set and queued runs leave the column alone.
  resume_ended-IsTrue :
      (id : Text) (r : Option RunResult) (s : Scan) → IsTrue s → IsTrue (resume_ended id r s).1
  unfolding resume_ended act record_skip pulls returns
  resume_ended-IsTrue id none s h = h
  resume_ended-IsTrue id (some started) s h = record {
    counted = h.counted;
    kept = (now s.actions h.kept, h.kept);
  }
  resume_ended-IsTrue id (some already_running) s h = h
  resume_ended-IsTrue id (some capacity_full) s h = record { counted = h.counted; kept = h.kept }
  resume_ended-IsTrue id (some failed) s h = record { counted = h.counted; kept = h.kept }

  try_auto_resume-IsTrue :
      (k : Calls) (moment : ℕ) (t : BoardTask) (s : Scan)
      → IsTrue s
      → IsTrue (try_auto_resume k moment t s).1
  unfolding try_auto_resume record_skip
  try_auto_resume-IsTrue k moment t s h = elim (Bool-cases (k.has_active_run t.id)) [
    | inl e ↦ rw e (record { counted = h.counted; kept = h.kept })
    | inr e ↦ elim (Bool-cases (in_cooldown moment t.id s)) [
      | inl c ↦ rw (e, c) (record { counted = h.counted; kept = h.kept })
      | inr c ↦
          rw (e, c)
            (resume_ended-IsTrue t.id (resume_call k t.id t.agent_status) _
              (record { counted = h.counted; kept = h.kept }))
    ]
  ]

  take_worker-IsTrue : (r : Bool × Scan) → IsTrue r.1 → IsTrue (take_worker r)
  take_worker-IsTrue (true, s) h = record { counted = h.counted; kept = h.kept }
  take_worker-IsTrue (false, s) h = h

  resume_owned-IsTrue :
      (k : Calls) (moment : ℕ) (t : BoardTask) (o : Option Bool) (s : Scan)
      → IsTrue s
      → IsTrue (resume_owned k moment t o s)
  unfolding resume_owned record_skip
  resume_owned-IsTrue k moment t none s h = h
  resume_owned-IsTrue k moment t (some false) s h = record { counted = h.counted; kept = h.kept }
  resume_owned-IsTrue k moment t (some true) s h = elim (Bool-cases (s.workers == 0)) [
    | inl z ↦ rw z (record { counted = h.counted; kept = h.kept })
    | inr z ↦
        rw z (
          take_worker-IsTrue (try_auto_resume k moment t s) (try_auto_resume-IsTrue k moment t s h))
  ]

  resume_sweep-IsTrue :
      (k : Calls) (moment : ℕ) (ts : List BoardTask) (s : Scan)
      → IsTrue s
      → IsTrue (resume_sweep k moment ts s)
  unfolding resume_sweep resume_round
  resume_sweep-IsTrue k moment [] s h = h
  resume_sweep-IsTrue k moment (t ∷ ts) s h = elim (Bool-cases (crashed t)) [
    | inl e ↦
        rw e (
          resume_sweep-IsTrue k moment ts _ (resume_owned-IsTrue k moment t (k.initiated t.id) s h))
    | inr e ↦ rw e (resume_sweep-IsTrue k moment ts s h)
  ]

  candidate_pass-IsTrue :
      (k : Calls) (triage : List Text) (snap : Snapshot) (ts : List BoardTask) (s : Scan)
      → IsTrue s
      → IsTrue (candidate_pass k triage snap ts s).1
  unfolding candidate_pass record_skip
  candidate_pass-IsTrue k triage snap [] s h = h
  candidate_pass-IsTrue k triage snap (t ∷ ts) s h =
      elim (Option-cases (candidate_blocker k triage snap t)) [
        | inl e ↦ rw (candidate_pass, e) (candidate_pass-IsTrue k triage snap ts s h)
        | inr (why, e) ↦
            rw (candidate_pass, e)
              (candidate_pass-IsTrue k triage snap ts (record_skip t.id why s)
                (record { counted = h.counted; kept = h.kept }))
      ]

  -- The calls of one start, from a pull that has been made.
  run_ended-IsPull :
      (k : Calls) (id : Text) (r : RunResult) (s : Scan)
      → IsTrue s
      → s.in_progress < limit
      → IsPull s (run_ended k id r (act (pulled id) s)).0 (run_ended k id r (act (pulled id) s)).1
  unfolding run_ended act record_skip pulls returns
  run_ended-IsPull k id started s h room =
      let pull : suc (count + pulls s.actions) ≤ limit + returns s.actions =
        omega (arith, h.counted, room) in
      record {
        same = refl;
        grown = omega arith;
        kept = (omega (arith, pull), (omega (arith, pull), h.kept));
      }
  run_ended-IsPull k id already_running s h room = record {
    same = refl;
    grown = omega arith;
    kept = (omega (arith, h.counted, room), h.kept);
  }
  run_ended-IsPull k id failed s h room = record {
    same = refl;
    grown = omega arith;
    kept = (omega (arith, h.counted, room), h.kept);
  }
  run_ended-IsPull k id capacity_full s h room = elim (Bool-cases (k.move_to_ready id)) [
    | inl e ↦ rw e (record {
      same = refl;
      grown = omega arith;
      kept = (omega (arith, h.counted, room), (omega (arith, h.counted, room), h.kept));
    })
    | inr e ↦ rw e (record {
      same = refl;
      grown = omega arith;
      kept = (omega (arith, h.counted, room), h.kept);
    })
  ]

  idle-IsPull : (s : Scan) → IsTrue s → IsPull s not_started s
  idle-IsPull s h = record { same = refl; grown = omega arith; kept = h.kept }

  pull_and_run-IsPull :
      (k : Calls) (id agent : Text) (s : Scan)
      → IsTrue s
      → s.in_progress < limit
      → IsPull s (pull_and_run k id agent s).0 (pull_and_run k id agent s).1
  unfolding pull_and_run record_skip
  pull_and_run-IsPull k id agent s h room = elim (Bool-cases (k.runner_for agent)) [
    | inr e ↦ rw e (record { same = refl; grown = omega arith; kept = h.kept })
    | inl e ↦ elim (Bool-cases (k.pull_task id)) [
      | inr p ↦ rw (e, p) (record { same = refl; grown = omega arith; kept = h.kept })
      | inl p ↦ rw (e, p) (run_ended-IsPull k id (k.run_agent id) s h room)
    ]
  ]

  start_candidate-IsPull :
      (k : Calls) (agent : Text) (t : BoardTask) (s : Scan)
      → IsTrue s
      → s.in_progress < limit
      → IsPull s (start_candidate k agent t s).0 (start_candidate k agent t s).1
  unfolding start_candidate act record_skip pulls returns
  start_candidate-IsPull k agent t s h room =
      elim (Bool-cases (text_eq (to_lower (trim_space t.agent)) [])) [
        | inr e ↦ rw e (pull_and_run-IsPull k t.id (to_lower (trim_space t.agent)) s h room)
        | inl e ↦ elim (Bool-cases k.client) [
          | inr c ↦ rw (e, c) (record { same = refl; grown = omega arith; kept = h.kept })
          | inl c ↦ elim (Bool-cases (k.set_agent t.id)) [
            | inr q ↦ rw (e, c, q) (record { same = refl; grown = omega arith; kept = h.kept })
            | inl q ↦
                rw (e, c, q)
                  (let p =
                      pull_and_run-IsPull k t.id agent (act (agent_set t.id) s)
                        (record { counted = h.counted; kept = (now s.actions h.kept, h.kept) })
                        room in
                    record { same = p.same; grown = p.grown; kept = p.kept })
          ]
        ]
      ]

  count_start-IsTrue :
      (s : Scan) (r : StartResult × Scan)
      → 0 < limit
      → IsTrue s
      → IsPull s r.0 r.1
      → IsTrue (count_start limit r)
  count_start-IsTrue s (r, s') some_limit h p = elim (Bool-cases r.was_pulled) [
    | inl q ↦
        let g = rw q at p.grown in
        let on = lt→ltb 0 limit some_limit in
        record { counted = rw (q, on) (omega (arith, h.counted, p.same, g)); kept = p.kept }
    | inr q ↦
        let g = rw q at p.grown in
        record { counted = rw q (omega (arith, h.counted, p.same, g)); kept = p.kept }
  ]

  start_loop-IsTrue :
      (k : Calls) (agent : Text) (ts : List BoardTask) (s : Scan)
      → 0 < limit
      → IsTrue s
      → IsTrue (start_loop k agent limit ts s)
  unfolding start_loop start_round record_skip
  start_loop-IsTrue k agent [] s some_limit h = h
  start_loop-IsTrue k agent (t ∷ ts) s some_limit h = elim (Bool-cases (s.workers == 0)) [
    | inl z ↦
        rw z (
          start_loop-IsTrue k agent ts _ some_limit (record { counted = h.counted; kept = h.kept }))
    | inr z ↦ elim (Bool-cases (ltb 0 limit && leb limit s.in_progress)) [
      | inl f ↦
          rw (z, f)
            (start_loop-IsTrue k agent ts _ some_limit
              (record { counted = h.counted; kept = h.kept }))
      | inr f ↦
          rw (z, f)
            (start_loop-IsTrue k agent ts _ some_limit (
              count_start-IsTrue s (start_candidate k agent t s) some_limit h
                (start_candidate-IsPull k agent t s h (ground arith))))
    ]
  ]

started_from-IsTrue :
    (count : ℕ) (k : Calls) (i : Inputs) (snap : Snapshot) (ready : List BoardTask) (s : Scan)
    → 0 < explicit_limit i snap
    → IsTrue count (explicit_limit i snap) s
    → IsTrue count (explicit_limit i snap) (started_from k i snap ready s)
unfolding started_from
started_from-IsTrue count k i snap ready s some_limit h = flagged i.triage
  where
    flagged :
        (o : Option (List Text))
        → IsTrue count (explicit_limit i snap) (elim o [
          | none ↦ s
          | some ids ↦
              let (candidates, s') = candidate_pass k ids snap ready s in
              start_loop k i.default_agent
                (explicit_limit i snap)
                (sort_by starts_before candidates)
                s'
        ])
    flagged none = h
    flagged (some ids) =
        start_loop-IsTrue count (explicit_limit i snap) k i.default_agent
          (sort_by starts_before (candidate_pass k ids snap ready s).0) _ some_limit
          (candidate_pass-IsTrue count (explicit_limit i snap) k ids snap ready s h)

swept-IsTrue :
    (k : Calls) (i : Inputs) (snap : Snapshot) (attempts : List (Text × ℕ)) (limit : ℕ)
    → snap.wip_counts (codes "in-progress") ≤ limit
    → IsTrue (snap.wip_counts (codes "in-progress")) limit (swept k i snap attempts)
unfolding swept
swept-IsTrue k i snap attempts limit fits =
    resume_sweep-IsTrue (snap.wip_counts (codes "in-progress")) limit k i.now snap.in_progress _
      (unfold pulls returns in record { counted = omega arith; kept = omega (arith, fits) })

-- While a limit on in-progress is configured and a scan finds the column within it, pulls never make
-- the column exceed the limit: at every moment of the scan the tasks found there and those pulled, less
-- those moved back, are at most the limit.
pub scan-Within :
    (k : Calls) (i : Inputs) (c : Coordinator) (snap : Snapshot)
    → i.board ≡ some snap
    → 0 < explicit_limit i snap
    → snap.wip_counts (codes "in-progress") ≤ explicit_limit i snap
    → Always
        (Within (snap.wip_counts (codes "in-progress")) (explicit_limit i snap))
        (scan k i c).done_actions
scan-Within k i c snap e some_limit fits =
    scan_any (Always (Within (snap.wip_counts (codes "in-progress")) (explicit_limit i snap))) k i c
      (unfold pulls returns in omega (arith, fits))
      (λ snap' ready e' _.
        let same : snap' ≡ snap = mathlib.Core.Option.some-injective _ _ (sym e' ∙ e) in
        rw same
          (started_from-IsTrue (snap.wip_counts (codes "in-progress")) k i snap ready
            (swept k i snap c.attempts) some_limit
            (swept-IsTrue k i snap c.attempts (explicit_limit i snap) fits)).kept)
