-- ===== src/Automation/Workers.antt =====
-- How many runs a scan starts.
use task_board_tools.Base.{
  ℕ, suc, ◌+◌, ◌≡◌, ◌≤◌, List, [], ◌∷◌, Text, Bool-cases, inl, inr, arith, refl, if◌then◌else◌,
  Bool, Option, ◌∙◌, true, text_eq, some, Option-cases, false, ◌==◌, none, ◌-◌, ltb, ◌&&◌, leb,
}
use task_board_tools.Automation.Tasks.{BoardTask, Snapshot}
use task_board_tools.Automation.Implement.{
  Action, Scan, resumed, resume_ended, try_auto_resume, run_ended, pull_and_run, start_candidate,
  take_worker, resume_round, resume_sweep, candidate_pass, start_round, start_loop, Calls, queued,
  act, record_skip, resume_owned, agent_set, RunResult, in_cooldown, StartResult, pulled,
  resume_call, candidate_blocker, count_start, started, moved_back, already_running, crashed,
  capacity_full, failed, starts_before,
}
use task_board_tools.Automation.Scan.{
  Inputs, Coordinator, scan, started_from, swept, scan_any, explicit_limit,
}
use task_board_tools.Strings.{to_lower, trim_space}
use task_board_tools.Board.{sort_by}

-- The runs that the actions have started.
unfoldable pub launches : List Action → ℕ
launches [] = 0
launches (resumed id ∷ rest) = suc (launches rest)
launches (queued id ∷ rest) = suc (launches rest)
launches (agent_set id ∷ rest) = launches rest
launches (pulled id ∷ rest) = launches rest
launches (moved_back id ∷ rest) = launches rest

abbrev pub bit : Bool → ℕ
bit b = if b then 1 else 0

-- A start takes no worker by itself, and says truly whether it has launched a run.
record IsCounted (s : Scan) (b : Bool) (s' : Scan) : Type 0 where
  same : s'.workers ≡ s.workers
  grown : launches s'.actions ≡ launches s.actions + bit b

resume_ended-IsCounted :
    (id : Text) (r : Option RunResult) (s : Scan)
    → IsCounted s (resume_ended id r s).0 (resume_ended id r s).1
unfolding resume_ended act record_skip launches
resume_ended-IsCounted id none s = record { same = refl; grown = omega arith }
resume_ended-IsCounted id (some started) s = record { same = refl; grown = omega arith }
resume_ended-IsCounted id (some already_running) s = record { same = refl; grown = omega arith }
resume_ended-IsCounted id (some capacity_full) s = record { same = refl; grown = omega arith }
resume_ended-IsCounted id (some failed) s = record { same = refl; grown = omega arith }

try_auto_resume-IsCounted :
    (k : Calls) (now : ℕ) (t : BoardTask) (s : Scan)
    → IsCounted s (try_auto_resume k now t s).0 (try_auto_resume k now t s).1
unfolding try_auto_resume record_skip
try_auto_resume-IsCounted k now t s = elim (Bool-cases (k.has_active_run t.id)) [
  | inl e ↦ rw e (record { same = refl; grown = omega arith })
  | inr e ↦ elim (Bool-cases (in_cooldown now t.id s)) [
    | inl c ↦ rw (e, c) (record { same = refl; grown = omega arith })
    | inr c ↦
        rw (e, c)
          (let h = resume_ended-IsCounted t.id (resume_call k t.id t.agent_status) _ in
            record { same = h.same; grown = h.grown })
  ]
]

run_ended-IsCounted :
    (k : Calls) (id : Text) (r : RunResult) (s : Scan)
    → IsCounted s (run_ended k id r s).0.was_queued (run_ended k id r s).1
unfolding run_ended act record_skip launches
run_ended-IsCounted k id started s = record { same = refl; grown = omega arith }
run_ended-IsCounted k id already_running s = record { same = refl; grown = omega arith }
run_ended-IsCounted k id failed s = record { same = refl; grown = omega arith }
run_ended-IsCounted k id capacity_full s = elim (Bool-cases (k.move_to_ready id)) [
  | inl e ↦ rw e (record { same = refl; grown = omega arith })
  | inr e ↦ rw e (record { same = refl; grown = omega arith })
]

pull_and_run-IsCounted :
    (k : Calls) (id agent : Text) (s : Scan)
    → IsCounted s (pull_and_run k id agent s).0.was_queued (pull_and_run k id agent s).1
unfolding pull_and_run act record_skip
pull_and_run-IsCounted k id agent s = elim (Bool-cases (k.runner_for agent)) [
  | inr e ↦ rw e (record { same = refl; grown = omega arith })
  | inl e ↦ elim (Bool-cases (k.pull_task id)) [
    | inr p ↦ rw (e, p) (record { same = refl; grown = omega arith })
    | inl p ↦
        rw (e, p)
          (let h = run_ended-IsCounted k id (k.run_agent id) _ in
            record { same = h.same; grown = h.grown ∙ (unfold launches in refl) })
  ]
]

start_candidate-IsCounted :
    (k : Calls) (agent : Text) (t : BoardTask) (s : Scan)
    → IsCounted s (start_candidate k agent t s).0.was_queued (start_candidate k agent t s).1
unfolding start_candidate act record_skip
start_candidate-IsCounted k agent t s =
    elim (Bool-cases (text_eq (to_lower (trim_space t.agent)) [])) [
      | inr e ↦ rw e (pull_and_run-IsCounted k t.id (to_lower (trim_space t.agent)) s)
      | inl e ↦ elim (Bool-cases k.client) [
        | inr c ↦ rw (e, c) (record { same = refl; grown = omega arith })
        | inl c ↦ elim (Bool-cases (k.set_agent t.id)) [
          | inr q ↦ rw (e, c, q) (record { same = refl; grown = omega arith })
          | inl q ↦
              rw (e, c, q)
                (let h = pull_and_run-IsCounted k t.id agent _ in
                  record { same = h.same; grown = h.grown ∙ (unfold launches in refl) })
        ]
      ]
    ]

-- What is left and what has been used make the same sum.
abbrev total : Scan → ℕ
total s = s.workers + launches s.actions

total-take_worker :
    (n : ℕ) (s : Scan) (r : Bool × Scan)
    → s.workers ≡ suc n
    → IsCounted s r.0 r.1
    → total (take_worker r) ≡ total s
total-take_worker n s (true, s') e h = omega (arith, h.same, h.grown, e)
total-take_worker n s (false, s') e h = omega (arith, h.same, h.grown, e)

total-resume_round :
    (k : Calls) (now : ℕ) (t : BoardTask) (s : Scan) → total (resume_round k now t s) ≡ total s
unfolding resume_round resume_owned record_skip
total-resume_round k now t s = elim (Bool-cases (crashed t)) [
  | inr e ↦ rw e refl
  | inl e ↦ rw e (owned (k.initiated t.id))
]
  where
    owned : (o : Option Bool) → total (resume_owned k now t o s) ≡ total s
    owned none = refl
    owned (some false) = refl
    owned (some true) = elim (Bool-cases (s.workers == 0)) [
      | inl z ↦ rw z refl
      | inr z ↦ rw z (
          total-take_worker (s.workers - 1) s (try_auto_resume k now t s) (ground arith)
            (try_auto_resume-IsCounted k now t s))
    ]

total-resume_sweep :
    (k : Calls) (now : ℕ) (ts : List BoardTask) (s : Scan)
    → total (resume_sweep k now ts s) ≡ total s
unfolding resume_sweep
total-resume_sweep k now [] s = refl
total-resume_sweep k now (t ∷ ts) s =
    total-resume_sweep k now ts (resume_round k now t s) ∙ total-resume_round k now t s

total-candidate_pass :
    (k : Calls) (triage : List Text) (snap : Snapshot) (ts : List BoardTask) (s : Scan)
    → total (candidate_pass k triage snap ts s).1 ≡ total s
unfolding candidate_pass
total-candidate_pass k triage snap [] s = refl
total-candidate_pass k triage snap (t ∷ ts) s =
    elim (Option-cases (candidate_blocker k triage snap t)) [
      | inl e ↦ rw (candidate_pass, e) (total-candidate_pass k triage snap ts s)
      | inr (why, e) ↦
          rw (candidate_pass, e)
            (total-candidate_pass k triage snap ts (record_skip t.id why s)
              ∙ (unfold record_skip in refl))
    ]

total-start_round :
    (k : Calls) (agent : Text) (limit : ℕ) (t : BoardTask) (s : Scan)
    → total (start_round k agent limit t s) ≡ total s
unfolding start_round record_skip
total-start_round k agent limit t s = elim (Bool-cases (s.workers == 0)) [
  | inl z ↦ rw z refl
  | inr z ↦ elim (Bool-cases (ltb 0 limit && leb limit s.in_progress)) [
    | inl f ↦ rw (z, f) refl
    | inr f ↦
        rw (z, f)
          (let h = start_candidate-IsCounted k agent t s in
            counted (start_candidate k agent t s) h (ground arith))
  ]
]
  where
    counted :
        (r : StartResult × Scan)
        → IsCounted s r.0.was_queued r.1
        → 1 ≤ s.workers
        → total (count_start limit r) ≡ total s
    counted (r, s') h pos_ = elim (Bool-cases r.was_queued) [
      | inl q ↦ rw q (let g = rw q at h.grown in omega (arith, h.same, g, pos_))
      | inr q ↦ rw q (let g = rw q at h.grown in omega (arith, h.same, g, pos_))
    ]

total-start_loop :
    (k : Calls) (agent : Text) (limit : ℕ) (ts : List BoardTask) (s : Scan)
    → total (start_loop k agent limit ts s) ≡ total s
unfolding start_loop
total-start_loop k agent limit [] s = refl
total-start_loop k agent limit (t ∷ ts) s =
    total-start_loop k agent limit ts (start_round k agent limit t s)
    ∙ total-start_round k agent limit t s

total-started_from :
    (k : Calls) (i : Inputs) (snap : Snapshot) (ready : List BoardTask) (s : Scan)
    → total (started_from k i snap ready s) ≡ total s
unfolding started_from explicit_limit
total-started_from k i snap ready s = elim (Option-cases i.triage) [
  | inl e ↦ rw e refl
  | inr (flagged, e) ↦ rw e (
      total-start_loop k i.default_agent (explicit_limit i snap)
        (sort_by starts_before (candidate_pass k flagged snap ready s).0)
        (candidate_pass k flagged snap ready s).1
      ∙ total-candidate_pass k flagged snap ready s)
]

total-swept :
    (k : Calls) (i : Inputs) (snap : Snapshot) (attempts : List (Text × ℕ))
    → total (swept k i snap attempts) ≡ i.capacity
unfolding swept
total-swept k i snap attempts =
    total-resume_sweep k i.now snap.in_progress _ ∙ (unfold launches in omega arith)

-- One scan starts at most as many runs, resumed ones included, as there were workers left.
pub scan-launches :
    (k : Calls) (i : Inputs) (c : Coordinator) → launches (scan k i c).done_actions ≤ i.capacity
scan-launches k i c =
    scan_any (λ made. launches made ≤ i.capacity) k i c (unfold launches in omega arith)
      (λ snap ready _ _. omega (
        arith,
        total-started_from k i snap ready (swept k i snap c.attempts),
        total-swept k i snap c.attempts,
      ))
