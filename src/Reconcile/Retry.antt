-- ===== src/Reconcile/Retry.antt =====
-- How often a repair is tried that does not work.
use task_board_tools.Base.{
  ℕ, zero, suc, ◌≤◌, Bool, true, false, List, ◌∷◌, Option, none, some, Text, ◌≡◌, refl, arith,
  length, Bool-cases, inl, inr, text_eq_refl, if_any, ◌⊎◌,
}
use task_board_tools.Automation.Tasks.{look_up, put}
use task_board_tools.Reconcile.Repair.{
  World, Desk, Skips, Transition, has_current_skip, record_repair_skip, Command, attempt_repair,
  clear_skip, same_fingerprint, is_known, skip_key, readable, give,
}
use task_board_tools.Reconcile.Rules.{
  Case, reconcile_task, act_on, Finding, stuck, repair, nothing_to_do, unknown,
}
use task_board_tools.Reconcile.Dispatch.{reconcile_task-finding_of, finding_of}

look_up-put {ℓ} :
    {A : Type ℓ} (es : List (Text × A)) (k : Text) (a : A) → look_up (put es k a) k ≡ some a
unfolding look_up put
look_up-put es k a = rw (text_eq_refl k) refl

module _ (w : World) (id : Text) (t : Transition) (fp : Text) where
  recorded :
      (o : Option Skips) (cs : List Command)
      → w.can_write ≡ true
      → has_current_skip id t fp
          (record_repair_skip w id t fp (record { skip_file = o; commands = cs }))
        ≡ true
  unfolding has_current_skip record_repair_skip look_up put
  recorded none cs ok = rw (ok, text_eq_refl (skip_key id t)) (text_eq_refl fp)
  recorded (some es) cs ok = elim (Bool-cases (same_fingerprint fp (look_up es (skip_key id t)))) [
    | inl e ↦ rw e e
    | inr e ↦ rw (e, ok, text_eq_refl (skip_key id t)) (text_eq_refl fp)
  ]

  -- An attempt that fails leaves a skip that is current.
  attempted :
      (full : Bool) (c : Command) (d : Desk)
      → w.can_write ≡ true
      → w.obeys c ≡ false
      → has_current_skip id t fp (attempt_repair w id t fp full c d) ≡ true
  unfolding attempt_repair
  attempted full c d ok refused =
      let P : Desk → Type 0 = λ e. has_current_skip id t fp e ≡ true in
      if_any P (has_current_skip id t fp d) (λ h. h)
        (λ _.
          if_any P full (λ _. recorded d.skip_file d.commands ok)
            (λ _.
              if_any P (w.obeys c) (λ yes. absurd (ground (arith, yes, refused)))
                (λ _. recorded d.skip_file (c ∷ d.commands) ok)))

  -- A skip that is current stops the attempt, and is not recorded twice.
  stopped :
      (full : Bool) (c : Command) (d : Desk)
      → has_current_skip id t fp d ≡ true
      → attempt_repair w id t fp full c d ≡ d
  unfolding attempt_repair
  stopped full c d h = rw h refl

  kept_skip :
      (o : Option Skips) (cs : List Command)
      → has_current_skip id t fp (record { skip_file = o; commands = cs }) ≡ true
      → record_repair_skip w id t fp (record { skip_file = o; commands = cs })
        ≡ record { skip_file = o; commands = cs }
  unfolding has_current_skip record_repair_skip
  kept_skip none cs h = absurd (ground arith)
  kept_skip (some es) cs h = rw h refl

  -- Neither a skip nor its removal gives a command.
  pub record_repair_skip_quiet : (d : Desk) → (record_repair_skip w id t fp d).commands ≡ d.commands
  unfolding record_repair_skip
  record_repair_skip_quiet d =
      let P : Desk → Type 0 = λ e. e.commands ≡ d.commands in
      if_any P (same_fingerprint fp (look_up (readable d.skip_file) (skip_key id t))) (λ _. refl)
        (λ _. if_any P w.can_write (λ _. refl) (λ _. refl))

  clear_skip_quiet :
      (o : Option Skips) (cs : List Command)
      → (clear_skip w id t (record { skip_file = o; commands = cs })).commands ≡ cs
  unfolding clear_skip
  clear_skip_quiet none cs = refl
  clear_skip_quiet (some es) cs =
      let P : Desk → Type 0 = λ e. e.commands ≡ cs in
      if_any P (is_known (look_up es (skip_key id t)))
        (λ _. if_any P w.can_write (λ _. refl) (λ _. refl)) (λ _. refl)

  -- One attempt gives at most its command, and only if the column is not full.
  pub attempt_repair_once :
      (full : Bool) (c : Command) (d : Desk)
      → ((attempt_repair w id t fp full c d).commands ≡ d.commands)
        ⊎ (((attempt_repair w id t fp full c d).commands ≡ c ∷ d.commands) × (full ≡ false))
  unfolding attempt_repair
  attempt_repair_once full c d =
      let P : Desk → Type 0 =
        λ e. (e.commands ≡ d.commands) ⊎ ((e.commands ≡ c ∷ d.commands) × (full ≡ false)) in
      if_any P (has_current_skip id t fp d) (λ _. inl refl)
        (λ _.
          if_any P full (λ _. inl (record_repair_skip_quiet d))
            (λ room.
              if_any P (w.obeys c) (λ _. inr (clear_skip_quiet d.skip_file (c ∷ d.commands), room))
                (λ _. inr (record_repair_skip_quiet (give c d), room))))

-- As many passes over a task that nothing else changes.
unfoldable pub passes : ℕ → World → Case → Desk → Desk
passes zero w c d = d
passes (suc n) w c d = passes n w c (reconcile_task w c d)

settled :
    (w : World) (id : Text) (f : Finding) (d : Desk)
    → w.can_write ≡ true
    → ((x : Command) → w.obeys x ≡ false)
    → (act_on w id f (act_on w id f d).0).0 ≡ (act_on w id f d).0
unfolding act_on
settled w id nothing_to_do d ok refused = refl
settled w id unknown d ok refused = refl
settled w id (stuck t fp) d ok refused =
    kept_skip w id t fp (record_repair_skip w id t fp d).skip_file
      (record_repair_skip w id t fp d).commands (recorded w id t fp d.skip_file d.commands ok)
settled w id (repair t fp full c) d ok refused =
    stopped w id t fp full c (attempt_repair w id t fp full c d)
      (attempted w id t fp full c d ok (refused c))

act_on_once :
    (w : World) (id : Text) (f : Finding) (d : Desk)
    → length (act_on w id f d).0.commands ≤ suc (length d.commands)
unfolding act_on
act_on_once w id nothing_to_do d = omega arith
act_on_once w id unknown d = omega arith
act_on_once w id (stuck t fp) d = rw (record_repair_skip_quiet w id t fp d) (omega arith)
act_on_once w id (repair t fp full c) d = elim (attempt_repair_once w id t fp full c d) [
  | inl e ↦ rw e (omega arith)
  | inr (e, _) ↦ rw e (omega arith)
]

reconcile_task_settled :
    (w : World) (c : Case) (d : Desk)
    → w.can_write ≡ true
    → ((x : Command) → w.obeys x ≡ false)
    → reconcile_task w c (reconcile_task w c d) ≡ reconcile_task w c d
reconcile_task_settled w c d ok refused =
    rw
      (
        reconcile_task-finding_of w c d,
        reconcile_task-finding_of w c (act_on w c.task.id (finding_of w c) d).0,
      )
      (settled w c.task.id (finding_of w c) d ok refused)

-- A repair that `tb` refuses is not tried for ever: while the task, the board and the refusal stay as
-- they are and the skips can be written, the first pass gives at most one command, and all later passes
-- together change nothing, neither the commands nor the skips.
pub passes_settle :
    (w : World) (c : Case) (d : Desk) (n : ℕ)
    → w.can_write ≡ true
    → ((x : Command) → w.obeys x ≡ false)
    → (passes (suc n) w c d ≡ reconcile_task w c d)
      × (length (reconcile_task w c d).commands ≤ suc (length d.commands))
unfolding passes
passes_settle w c d n ok refused =
    (stay n, rw (reconcile_task-finding_of w c d) (act_on_once w c.task.id (finding_of w c) d))
  where
    stay : (m : ℕ) → passes m w c (reconcile_task w c d) ≡ reconcile_task w c d
    stay zero = refl
    stay (suc m) = rw (reconcile_task_settled w c d ok refused) (stay m)
