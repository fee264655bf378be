-- ===== src/Automation/Pulls.antt =====
-- What a scan pulls, task by task.
use task_board_tools.Base.{
  ℕ, Bool, true, false, List, [], ◌∷◌, Text, map, Option, none, some, ◌≡◌, ◌⊎◌, inl, inr, refl, ap,
  Bool-cases, text_eq, ltb, leb, ◌&&◌, ◌==◌, ◌∙◌,
}
use task_board_tools.Automation.Tasks.{BoardTask, Snapshot}
use task_board_tools.Automation.Implement.{
  Action, Scan, pulled, moved_back, resumed, queued, agent_set, resume_ended, try_auto_resume,
  take_worker, resume_owned, resume_sweep, resume_round, Calls, RunResult, run_ended, pull_and_run,
  start_candidate, start_loop, start_round, act, record_skip, in_cooldown, crashed, started,
  resume_call, already_running, capacity_full, failed,
}
use task_board_tools.Automation.Scan.{Inputs, swept}
use task_board_tools.Strings.{to_lower, trim_space}

-- The tasks that have been pulled, the latest first, as the actions are.
unfoldable pub pulled_ids : List Action → List Text
pulled_ids [] = []
pulled_ids (pulled id ∷ rest) = id ∷ pulled_ids rest
pulled_ids (resumed id ∷ rest) = pulled_ids rest
pulled_ids (queued id ∷ rest) = pulled_ids rest
pulled_ids (agent_set id ∷ rest) = pulled_ids rest
pulled_ids (moved_back id ∷ rest) = pulled_ids rest

-- Some of a list, in its order.
pub data Some {ℓ} {A : Type ℓ} : List A → List A → Type ℓ where
  done : Some [] []
  leave : (x : A) (xs ys : List A) → Some xs ys → Some xs (x ∷ ys)
  take_it : (x : A) (xs ys : List A) → Some xs ys → Some (x ∷ xs) (x ∷ ys)

-- The first of the list becomes the last.
abbrev pub reverse_onto : List Text → List Text → List Text
reverse_onto [] others = others
reverse_onto (x ∷ xs) others = reverse_onto xs (x ∷ others)

-- A round pulls its task or none.
abbrev Adds : Text → Scan → Scan → Type 0
Adds id s s' =
    (pulled_ids s'.actions ≡ pulled_ids s.actions)
    ⊎ (pulled_ids s'.actions ≡ id ∷ pulled_ids s.actions)

run_ended-pulled_ids :
    (k : Calls) (id : Text) (r : RunResult) (s : Scan)
    → pulled_ids (run_ended k id r s).1.actions ≡ pulled_ids s.actions
unfolding run_ended act record_skip pulled_ids
run_ended-pulled_ids k id started s = refl
run_ended-pulled_ids k id already_running s = refl
run_ended-pulled_ids k id failed s = refl
run_ended-pulled_ids k id capacity_full s = elim (Bool-cases (k.move_to_ready id)) [
  | inl e ↦ rw e refl
  | inr e ↦ rw e refl
]

pull_and_run-Adds :
    (k : Calls) (id agent : Text) (s : Scan) → Adds id s (pull_and_run k id agent s).1
unfolding pull_and_run act record_skip
pull_and_run-Adds k id agent s = elim (Bool-cases (k.runner_for agent)) [
  | inr e ↦ rw e (inl refl)
  | inl e ↦ elim (Bool-cases (k.pull_task id)) [
    | inr p ↦ rw (e, p) (inl refl)
    | inl p ↦
        rw (e, p) (inr (run_ended-pulled_ids k id (k.run_agent id) _ ∙ (unfold pulled_ids in refl)))
  ]
]

start_candidate-Adds :
    (k : Calls) (agent : Text) (t : BoardTask) (s : Scan)
    → Adds t.id s (start_candidate k agent t s).1
unfolding start_candidate act record_skip pulled_ids
start_candidate-Adds k agent t s = elim (Bool-cases (text_eq (to_lower (trim_space t.agent)) [])) [
  | inr e ↦ rw e (pull_and_run-Adds k t.id (to_lower (trim_space t.agent)) s)
  | inl e ↦ elim (Bool-cases k.client) [
    | inr c ↦ rw (e, c) (inl refl)
    | inl c ↦ elim (Bool-cases (k.set_agent t.id)) [
      | inr q ↦ rw (e, c, q) (inl refl)
      | inl q ↦ rw (e, c, q) (pull_and_run-Adds k t.id agent (act (agent_set t.id) s))
    ]
  ]
]

start_round-Adds :
    (k : Calls) (agent : Text) (limit : ℕ) (t : BoardTask) (s : Scan)
    → Adds t.id s (start_round k agent limit t s)
unfolding start_round record_skip
start_round-Adds k agent limit t s = elim (Bool-cases (s.workers == 0)) [
  | inl z ↦ rw z (inl refl)
  | inr z ↦ elim (Bool-cases (ltb 0 limit && leb limit s.in_progress)) [
    | inl f ↦ rw (z, f) (inl refl)
    | inr f ↦ rw (z, f) (start_candidate-Adds k agent t s)
  ]
]

pub start_loop-Some :
    (k : Calls) (agent : Text) (limit : ℕ) (ts : List BoardTask) (s : Scan)
    → (starts : List BoardTask) × Some starts ts
      × (pulled_ids (start_loop k agent limit ts s).actions
          ≡ reverse_onto (map (λ (t : BoardTask). t.id) starts) (pulled_ids s.actions))
unfolding start_loop
start_loop-Some k agent limit [] s = ([], done, refl)
start_loop-Some k agent limit (t ∷ ts) s =
    let (starts, among, rest) = start_loop-Some k agent limit ts (start_round k agent limit t s) in
    elim (start_round-Adds k agent limit t s) [
      | inl e ↦ (
        starts,
        leave t starts ts among,
        rest ∙ ap (reverse_onto (map (λ (t : BoardTask). t.id) starts)) e,
      )
      | inr e ↦ (
        t ∷ starts,
        take_it t starts ts among,
        rest ∙ ap (reverse_onto (map (λ (t : BoardTask). t.id) starts)) e,
      )
    ]

-- Resumptions pull nothing.
resume_ended-pulled_ids :
    (id : Text) (r : Option RunResult) (s : Scan)
    → pulled_ids (resume_ended id r s).1.actions ≡ pulled_ids s.actions
unfolding resume_ended act record_skip pulled_ids
resume_ended-pulled_ids id none s = refl
resume_ended-pulled_ids id (some started) s = refl
resume_ended-pulled_ids id (some already_running) s = refl
resume_ended-pulled_ids id (some capacity_full) s = refl
resume_ended-pulled_ids id (some failed) s = refl

try_auto_resume-pulled_ids :
    (k : Calls) (now : ℕ) (t : BoardTask) (s : Scan)
    → pulled_ids (try_auto_resume k now t s).1.actions ≡ pulled_ids s.actions
unfolding try_auto_resume record_skip
try_auto_resume-pulled_ids k now t s = elim (Bool-cases (k.has_active_run t.id)) [
  | inl e ↦ rw e refl
  | inr e ↦ elim (Bool-cases (in_cooldown now t.id s)) [
    | inl c ↦ rw (e, c) refl
    | inr c ↦ rw (e, c) (resume_ended-pulled_ids t.id (resume_call k t.id t.agent_status) _)
  ]
]

take_worker-same : (r : Bool × Scan) → (take_worker r).actions ≡ r.1.actions
take_worker-same (true, s) = refl
take_worker-same (false, s) = refl

resume_round-pulled_ids :
    (k : Calls) (now : ℕ) (t : BoardTask) (s : Scan)
    → pulled_ids (resume_round k now t s).actions ≡ pulled_ids s.actions
unfolding resume_round resume_owned record_skip
resume_round-pulled_ids k now t s = elim (Bool-cases (crashed t)) [
  | inr e ↦ rw e refl
  | inl e ↦ rw e (owned (k.initiated t.id))
]
  where
    owned : (o : Option Bool) → pulled_ids (resume_owned k now t o s).actions ≡ pulled_ids s.actions
    owned none = refl
    owned (some false) = refl
    owned (some true) = elim (Bool-cases (s.workers == 0)) [
      | inl z ↦ rw z refl
      | inr z ↦ rw z (
          ap pulled_ids (take_worker-same (try_auto_resume k now t s))
          ∙ try_auto_resume-pulled_ids k now t s)
    ]

resume_sweep-pulled_ids :
    (k : Calls) (now : ℕ) (ts : List BoardTask) (s : Scan)
    → pulled_ids (resume_sweep k now ts s).actions ≡ pulled_ids s.actions
unfolding resume_sweep
resume_sweep-pulled_ids k now [] s = refl
resume_sweep-pulled_ids k now (t ∷ ts) s =
    resume_sweep-pulled_ids k now ts (resume_round k now t s) ∙ resume_round-pulled_ids k now t s

pub swept-pulled_ids :
    (k : Calls) (i : Inputs) (snap : Snapshot) (attempts : List (Text × ℕ))
    → pulled_ids (swept k i snap attempts).actions ≡ []
unfolding swept
swept-pulled_ids k i snap attempts =
    resume_sweep-pulled_ids k i.now snap.in_progress _ ∙ (unfold pulled_ids in refl)
