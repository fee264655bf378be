-- ===== src/EpicOrder/Laws.antt =====
-- What `EligibleForEpicOrder` decides.
use task_board_tools.Base.{
  true, false, List, [], ◌∷◌, ◌++◌, ◌≡◌, ◌≢◌, ◌↔◌, ◌⊎◌, inl, inr, ◌<◌, refl, sym, ap, ◌∙◌, arith,
  Text, codes, text_eq, text_eq_iff, All, Bool-cases,
}
use task_board_tools.EpicOrder.{
  Task, Result, Reason, blocked, unloaded, needs_attention, still_open, contains_tag, skipped,
  is_closed, wants_user, scan_siblings, eligible_for_epic_order,
}

-- A same-parent sibling with a lower number.
abbrev pub Earlier : Task → Task → Type 0
Earlier candidate sib =
    (sib.id ≢ candidate.id) × (sib.parent ≡ candidate.parent) × (sib.numeric < candidate.numeric)

abbrev pub IsClosed : Text → Type 0
IsClosed status = (status ≡ codes "done") ⊎ (status ≡ codes "archive")

abbrev pub IsFinished : Task → Task → Type 0
IsFinished candidate sib = Earlier candidate sib → IsClosed sib.status

-- The first sibling in the list that is earlier than the candidate and not closed, named `b`.
pub record Blocker (c : Task) (sibs : List Task) (b : Text) : Type 0 where
  pub before : List Task
  pub first_open : Task
  pub after : List Task
  pub split : sibs ≡ before ++ first_open ∷ after
  pub named : first_open.id ≡ b
  pub earlier : Earlier c first_open
  pub still_active : ¬ IsClosed first_open.status
  pub finished_before : All (IsFinished c) before

skipped_iff : (c s : Task) → (skipped c s ≡ false) ↔ Earlier c s
unfolding skipped
skipped_iff c s = ground (arith, text_eq_iff s.id c.id, text_eq_iff s.parent c.parent)

is_closed_iff : (t : Text) → (is_closed t ≡ true) ↔ IsClosed t
unfolding is_closed
is_closed_iff t = ground (arith, text_eq_iff t (codes "done"), text_eq_iff t (codes "archive"))

-- A closed status is a text, so that the test for a missing one does not catch it.
IsClosed-ne-nil : (t : Text) → IsClosed t → text_eq t [] ≡ false
unfolding text_eq
IsClosed-ne-nil t (inl e) = rw e
IsClosed-ne-nil t (inr e) = rw e

-- One round of the loop: a finished sibling is passed over, any other ends the loop.
scan_pass :
    (c s : Task) (sibs : List Task)
    → IsFinished c s
    → scan_siblings c (s ∷ sibs) ≡ scan_siblings c sibs
unfolding scan_siblings
scan_pass c s sibs h = elim (Bool-cases (skipped c s)) [
  | inl e ↦ rw e
  | inr e ↦
      let closed = h ((skipped_iff c s).0 e) in
      rw (e, IsClosed-ne-nil s.status closed, (is_closed_iff s.status).1 closed)
]

scan_stop :
    (c s : Task) (sibs : List Task)
    → Earlier c s
    → is_closed s.status ≡ false
    → (r : Reason) × (scan_siblings c (s ∷ sibs) ≡ blocked s.id r)
unfolding scan_siblings
scan_stop c s sibs h e =
    let early = (skipped_iff c s).1 h in
    elim (Bool-cases (text_eq s.status [])) [
      | inl lost ↦ (unloaded, rw (early, lost))
      | inr some_status ↦ elim (Bool-cases (wants_user s.agent_status)) [
        | inl user ↦ (needs_attention, rw (early, some_status, e, user))
        | inr auto ↦ (still_open, rw (early, some_status, e, auto))
      ]
    ]

-- Each sibling is finished, or earlier and open.
sibling_cases : (c s : Task) → IsFinished c s ⊎ (Earlier c s × (is_closed s.status ≡ false))
sibling_cases c s = elim (Bool-cases (is_closed s.status)) [
  | inl e ↦ inl (λ _. (is_closed_iff s.status).0 e)
  | inr e ↦ elim (Bool-cases (skipped c s)) [
    | inl k ↦ inl (λ h. absurd (ground (arith, skipped_iff c s)))
    | inr k ↦ inr ((skipped_iff c s).0 k, e)
  ]
]

blocked-ne-eligible : (t : Text) (r : Reason) → blocked t r ≢ Result.eligible
blocked-ne-eligible t r h = cc

scan_eligible :
    (c : Task) (sibs : List Task) → All (IsFinished c) sibs → scan_siblings c sibs ≡ Result.eligible
unfolding scan_siblings
scan_eligible c [] h = refl
scan_eligible c (s ∷ sibs) (h, hs) = scan_pass c s sibs h ∙ scan_eligible c sibs hs

scan_siblings-IsFinished :
    (c : Task) (sibs : List Task) → scan_siblings c sibs ≡ Result.eligible → All (IsFinished c) sibs
scan_siblings-IsFinished c [] h = tt
scan_siblings-IsFinished c (s ∷ sibs) h = elim (sibling_cases c s) [
  | inl f ↦ (f, scan_siblings-IsFinished c sibs (sym (scan_pass c s sibs f) ∙ h))
  | inr (early, open_) ↦
      let (r, e) = scan_stop c s sibs early open_ in absurd (blocked-ne-eligible s.id r (sym e ∙ h))
]

-- A child is eligible exactly when it is not tagged `epic`, and it has no parent or every sibling of
-- the same parent with a lower number stands in done or archive. The position and the rest of the
-- sibling list play no part.
pub eligible_iff :
    (c : Task) (sibs : List Task)
    → (eligible_for_epic_order c sibs ≡ Result.eligible)
      ↔ ((contains_tag c.tags (codes "epic") ≡ false) × ((c.parent ≡ []) ⊎ All (IsFinished c) sibs))
unfolding eligible_for_epic_order
eligible_iff c sibs =
    ground (arith, text_eq_iff c.parent [], scan_eligible c sibs, scan_siblings-IsFinished c sibs)

scan_siblings-Blocker :
    (c : Task) (sibs : List Task) (b : Text) (r : Reason)
    → scan_siblings c sibs ≡ blocked b r
    → Blocker c sibs b
scan_siblings-Blocker c [] b r h = absurd (unfold scan_siblings in cc)
scan_siblings-Blocker c (s ∷ sibs) b r h = elim (sibling_cases c s) [
  | inl f ↦
      let k = scan_siblings-Blocker c sibs b r (sym (scan_pass c s sibs f) ∙ h) in
      record {
        before = s ∷ k.before;
        first_open = k.first_open;
        after = k.after;
        split = ap (λ t. s ∷ t) k.split;
        named = k.named;
        earlier = k.earlier;
        still_active = k.still_active;
        finished_before = (f, k.finished_before);
      }
  | inr (early, open_) ↦
      let (q, e) = scan_stop c s sibs early open_ in
      record {
        before = [];
        first_open = s;
        after = sibs;
        split = refl;
        named = cc;
        earlier = early;
        still_active = λ d. absurd (ground (arith, is_closed_iff s.status));
        finished_before = tt;
      }
]

-- When the order blocks a leaf, the blocker it names is the first sibling that comes earlier and
-- stands neither in done nor in archive: all siblings before it in the list are finished or do not
-- come earlier.
pub eligible_for_epic_order-Blocker :
    (c : Task) (sibs : List Task) (b : Text) (r : Reason)
    → contains_tag c.tags (codes "epic") ≡ false
    → eligible_for_epic_order c sibs ≡ blocked b r
    → Blocker c sibs b
unfolding eligible_for_epic_order
eligible_for_epic_order-Blocker c sibs b r leaf h = elim (Bool-cases (text_eq c.parent [])) [
  | inl e ↦ absurd (ground arith)
  | inr e ↦ scan_siblings-Blocker c sibs b r (ground arith)
]
