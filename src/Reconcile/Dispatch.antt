-- ===== src/Reconcile/Dispatch.antt =====
-- The rules exclude one another: which one a task meets is decided by its column.
use task_board_tools.Base.{
  ℕ, Bool, true, false, ◌&&◌, List, [], ◌∷◌, Text, codes, text_eq, if◌then◌else◌, ◌≡◌, refl, arith,
  text_eq_sound, Option-cases, Bool-cases, inl, inr, if_any, suc, zero, ◌⊎◌,
}
use task_board_tools.Reconcile.Repair.{World, Desk}
use task_board_tools.Reconcile.Rules.{
  Case, Finding, nothing_to_do, is_reconcile_protected, reconcile_auto_groom,
  reconcile_auto_implement_start, reconcile_auto_implement_submit, reconcile_review_failed,
  reconcile_task, reconcile_implement_needs_user, act_on, act_on_all,
}

-- The one rule that a task may meet.
unfoldable pub finding_of : World → Case → Finding
finding_of w c =
    if is_reconcile_protected c.task.agent_status
    then reconcile_implement_needs_user w c
    else if text_eq c.task.status (codes "backlog")
    then reconcile_auto_groom w c
    else if text_eq c.task.status (codes "ready")
    then reconcile_auto_implement_start w c
    else if text_eq c.task.status (codes "in-progress")
    then reconcile_auto_implement_submit w c
    else if text_eq c.task.status (codes "code-review")
    then reconcile_review_failed w c
    else nothing_to_do

-- The answers of the four tests on a column: at most one is yes.
data Tests (s : Text) : Bool → Bool → Bool → Bool → Type 0 where
  tests :
      (b r p c : Bool)
      → text_eq s (codes "backlog") ≡ b
      → text_eq s (codes "ready") ≡ r
      → text_eq s (codes "in-progress") ≡ p
      → text_eq s (codes "code-review") ≡ c
      → Tests s b r p c

abbrev Column : Text → Type 0
Column s =
    Tests s true false false false
    ⊎ (Tests s false true false false
        ⊎ (Tests s false false true false
            ⊎ (Tests s false false false true ⊎ Tests s false false false false)))

column : (s : Text) → Column s
unfolding text_eq
column s = elim (Bool-cases (text_eq s (codes "backlog"))) [
  | inl e ↦ inl (at (codes "backlog") e)
  | inr b ↦ elim (Bool-cases (text_eq s (codes "ready"))) [
    | inl e ↦ inr (inl (at (codes "ready") e))
    | inr r ↦ elim (Bool-cases (text_eq s (codes "in-progress"))) [
      | inl e ↦ inr (inr (inl (at (codes "in-progress") e)))
      | inr p ↦ elim (Bool-cases (text_eq s (codes "code-review"))) [
        | inl e ↦ inr (inr (inr (inl (at (codes "code-review") e))))
        | inr c ↦ inr (inr (inr (inr (tests false false false false b r p c))))
      ]
    ]
  ]
]
  where
    at :
        (a : Text)
        → text_eq s a ≡ true
        → Tests s
            (text_eq a (codes "backlog"))
            (text_eq a (codes "ready"))
            (text_eq a (codes "in-progress"))
            (text_eq a (codes "code-review"))
    at a e =
        let same = text_eq_sound s a e in
        rw same (
          tests (text_eq a (codes "backlog")) (text_eq a (codes "ready"))
            (text_eq a (codes "in-progress")) (text_eq a (codes "code-review")) refl refl refl refl)

needs_user_protected :
    (s : Text) → text_eq s (codes "needs-user") ≡ true → is_reconcile_protected s ≡ true
unfolding is_reconcile_protected text_eq task_board_tools.Strings.trim_space
needs_user_protected s h = rw (text_eq_sound s (codes "needs-user") h) refl

needs_user_off :
    (w : World) (c : Case)
    → is_reconcile_protected c.task.agent_status ≡ false
    → reconcile_implement_needs_user w c ≡ nothing_to_do
unfolding reconcile_implement_needs_user
needs_user_off w c h =
    if_any (λ (f : Finding). f ≡ nothing_to_do)
      (text_eq c.task.status (codes "in-progress")
        && text_eq c.task.agent_status (codes "needs-user"))
      (λ e. absurd (ground (arith, needs_user_protected c.task.agent_status))) (λ _. refl)

groom_off :
    (w : World) (c : Case)
    → text_eq c.task.status (codes "backlog") ≡ false
    → reconcile_auto_groom w c ≡ nothing_to_do
unfolding reconcile_auto_groom
groom_off w c h = elim (Option-cases c.run) [
  | inl e ↦ rw (reconcile_auto_groom, e) refl
  | inr (r, e) ↦ rw (reconcile_auto_groom, e, h) refl
]

start_off :
    (w : World) (c : Case)
    → text_eq c.task.status (codes "ready") ≡ false
    → reconcile_auto_implement_start w c ≡ nothing_to_do
unfolding reconcile_auto_implement_start
start_off w c h = elim (Option-cases c.run) [
  | inl e ↦ rw (reconcile_auto_implement_start, e) refl
  | inr (r, e) ↦ rw (reconcile_auto_implement_start, e, h) refl
]

submit_off :
    (w : World) (c : Case)
    → text_eq c.task.status (codes "in-progress") ≡ false
    → reconcile_auto_implement_submit w c ≡ nothing_to_do
unfolding reconcile_auto_implement_submit
submit_off w c h = elim (Option-cases c.run) [
  | inl e ↦ rw (reconcile_auto_implement_submit, e) refl
  | inr (r, e) ↦ rw (reconcile_auto_implement_submit, e, h) refl
]

failed_off :
    (w : World) (c : Case)
    → text_eq c.task.status (codes "code-review") ≡ false
    → reconcile_review_failed w c ≡ nothing_to_do
unfolding reconcile_review_failed
failed_off w c h = rw h refl

-- Behind the rule that acts, the others do nothing.
act_last :
    (w : World) (id : Text) (f : Finding) (fs : List Finding) (d : Desk)
    → ((e : Desk) → act_on_all w id fs e ≡ e)
    → act_on_all w id (f ∷ fs) d ≡ (act_on w id f d).0
unfolding act_on_all
act_last w id f fs d h = elim (Bool-cases (act_on w id f d).1) [
  | inl e ↦ rw e (h (act_on w id f d).0)
  | inr e ↦ rw e refl
]

idle : (n : ℕ) → List Finding
idle zero = []
idle (suc n) = nothing_to_do ∷ idle n

act_idle : (w : World) (id : Text) (n : ℕ) (d : Desk) → act_on_all w id (idle n) d ≡ d
unfolding act_on_all act_on idle
act_idle w id zero d = refl
act_idle w id (suc n) d = act_idle w id n d

by_column :
    (w : World) (c : Case) (d : Desk)
    → is_reconcile_protected c.task.agent_status ≡ false
    → act_on_all w c.task.id
        (reconcile_auto_groom w c
          ∷ reconcile_auto_implement_start w c
          ∷ reconcile_auto_implement_submit w c
          ∷ reconcile_review_failed w c
          ∷ [])
        d
      ≡ (act_on w c.task.id (finding_of w c) d).0
unfolding finding_of idle act_on_all act_on
by_column w c d p = elim (column c.task.status) [
  | inl (tests _ _ _ _ b r q v) ↦
      rw (p, b, start_off w c r, submit_off w c q, failed_off w c v)
        (act_last w c.task.id (reconcile_auto_groom w c) (idle 3) d (act_idle w c.task.id 3))
  | inr (inl (tests _ _ _ _ b r q v)) ↦
      rw (p, b, r, groom_off w c b, submit_off w c q, failed_off w c v)
        (act_last w c.task.id (reconcile_auto_implement_start w c) (idle 2) d
          (act_idle w c.task.id 2))
  | inr (inr (inl (tests _ _ _ _ b r q v))) ↦
      rw (p, b, r, q, groom_off w c b, start_off w c r, failed_off w c v)
        (act_last w c.task.id (reconcile_auto_implement_submit w c) (idle 1) d
          (act_idle w c.task.id 1))
  | inr (inr (inr (inl (tests _ _ _ _ b r q v)))) ↦
      rw (p, b, r, q, v, groom_off w c b, start_off w c r, submit_off w c q)
        (act_last w c.task.id (reconcile_review_failed w c) (idle 0) d (act_idle w c.task.id 0))
  | inr (inr (inr (inr (tests _ _ _ _ b r q v)))) ↦
      rw (p, b, r, q, v, groom_off w c b, start_off w c r, submit_off w c q, failed_off w c v)
        (act_idle w c.task.id 4 d)
]

-- A pass over a task acts on one finding only, that of the rule for its column, or of the rule for a
-- handover to the user if its agent status is protected.
pub reconcile_task-finding_of :
    (w : World) (c : Case) (d : Desk)
    → reconcile_task w c d ≡ (act_on w c.task.id (finding_of w c) d).0
unfolding reconcile_task
reconcile_task-finding_of w c d = elim (Bool-cases (is_reconcile_protected c.task.agent_status)) [
  | inl p ↦ rw p (unfold finding_of in rw p refl)
  | inr p ↦ rw (p, needs_user_off w c p) (by_column w c d p)
]
