-- ===== src/Automation/Turns.antt =====
-- In which order a scan takes the candidates.
use task_board_tools.Base.{
  Bool, true, false, List, [], ◌∷◌, All, Text, map, filter, Option, none, some, ◌≡◌, ◌⊎◌, inl, inr,
  refl, ap, arith, Option-cases, ◌<◌, ◌≤◌, ◌∙◌,
}
use task_board_tools.Automation.Tasks.{BoardTask, Snapshot, rank_of, parse_numeric}
use task_board_tools.Automation.Implement.{
  Action, Scan, Calls, record_skip, candidate_pass, candidate_blocker, starts_before, review_failed,
  Skip,
}
use task_board_tools.Automation.Scan.{
  Inputs, Coordinator, explicit_limit, scan, started_from, swept, scan_any,
}
use task_board_tools.Automation.Order.{candidates-IsSorted}
use task_board_tools.Board.Sorting.{IsSorted, tied}
use task_board_tools.Board.{sort_by}
use task_board_tools.Automation.Pulls.{
  pulled_ids, Some, reverse_onto, start_loop-Some, swept-pulled_ids,
}

-- `t` may come before `u`: by priority, then failed reviews first, then by number.
abbrev pub NotAfter : BoardTask → BoardTask → Type 0
NotAfter t u =
    (rank_of t.priority < rank_of u.priority)
    ⊎ ((rank_of t.priority ≡ rank_of u.priority)
        × (((review_failed t ≡ true) × (review_failed u ≡ false))
            ⊎ ((review_failed t ≡ review_failed u)
                × ((parse_numeric t.id).0 ≤ (parse_numeric u.id).0))))

abbrev pub InOrder : List BoardTask → Type 0
InOrder [] = Unit
InOrder (t ∷ ts) = All (NotAfter t) ts × InOrder ts

abbrev pub no_blocker : Option Skip → Bool
no_blocker none = true
no_blocker (some _) = false

-- A ready task that no gate keeps back.
abbrev pub may_start : Calls → List Text → Snapshot → BoardTask → Bool
may_start k flagged snap t = no_blocker (candidate_blocker k flagged snap t)

-- What has been pulled, in turn: some of the candidates in their order, which keeps tied ones as they
-- were and loses and repeats none.
pub record Turns (k : Calls) (flagged : List Text) (snap : Snapshot) (ready : List BoardTask)
    (made : List Action) : Type 0 where
  pub order : List BoardTask
  pub ordered : InOrder order
  pub stable :
      (z : BoardTask)
      → filter (tied starts_before z) order
        ≡ filter (tied starts_before z) (filter (may_start k flagged snap) ready)
  pub starts : List BoardTask
  pub among : Some starts order
  pub in_turn : pulled_ids made ≡ reverse_onto (map (λ (t : BoardTask). t.id) starts) []

may_precede : (t u : BoardTask) → starts_before u t ≡ false → NotAfter t u
unfolding starts_before
may_precede t u h = ground arith

All-NotAfter :
    (t : BoardTask) (us : List BoardTask)
    → All (λ u. starts_before u t ≡ false) us
    → All (NotAfter t) us
All-NotAfter t [] h = tt
All-NotAfter t (u ∷ us) (p, h) = (may_precede t u p, All-NotAfter t us h)

in_order : (ts : List BoardTask) → IsSorted starts_before ts → InOrder ts
in_order [] h = tt
in_order (t ∷ ts) (p, h) = (All-NotAfter t ts p, in_order ts h)

-- The candidates are the ready tasks that no gate keeps back, and nothing is pulled yet.
candidate_pass-filter :
    (k : Calls) (flagged : List Text) (snap : Snapshot) (ts : List BoardTask) (s : Scan)
    → ((candidate_pass k flagged snap ts s).0 ≡ filter (may_start k flagged snap) ts)
      × ((candidate_pass k flagged snap ts s).1.actions ≡ s.actions)
unfolding candidate_pass
candidate_pass-filter k flagged snap [] s = (refl, refl)
candidate_pass-filter k flagged snap (t ∷ ts) s =
    elim (Option-cases (candidate_blocker k flagged snap t)) [
      | inl e ↦
          let (passed, same) = candidate_pass-filter k flagged snap ts s in
          rw (candidate_pass, e) (ap (λ cs. t ∷ cs) passed, same)
      | inr (why, e) ↦
          let (passed, same) = candidate_pass-filter k flagged snap ts (record_skip t.id why s) in
          rw (candidate_pass, e) (passed, same ∙ (unfold record_skip in refl))
    ]

started_from-Turns :
    (k : Calls) (i : Inputs) (snap : Snapshot) (ready : List BoardTask) (flagged : List Text)
    (s : Scan)
    → i.triage ≡ some flagged
    → pulled_ids s.actions ≡ []
    → Turns k flagged snap ready (started_from k i snap ready s).actions
unfolding started_from explicit_limit
started_from-Turns k i snap ready flagged s e none_ =
    let pass = candidate_pass k flagged snap ready s in
    let (passed, same) = candidate_pass-filter k flagged snap ready s in
    let (sorted, stable) = candidates-IsSorted pass.0 in
    let (starts, among, rest) =
      start_loop-Some k i.default_agent (explicit_limit i snap) (sort_by starts_before pass.0)
        pass.1 in
    record {
      order = sort_by starts_before pass.0;
      ordered = in_order (sort_by starts_before pass.0) sorted;
      stable = λ z. stable z ∙ ap (filter (tied starts_before z)) passed;
      starts = starts;
      among = among;
      in_turn = rw e (
          rest
          ∙ ap (reverse_onto (map (λ (t : BoardTask). t.id) starts)) (ap pulled_ids same ∙ none_));
    }

-- Without an answer of triage only the sweep is done.
started_from-unread :
    (k : Calls) (i : Inputs) (snap : Snapshot) (ready : List BoardTask) (s : Scan)
    → i.triage ≡ none
    → started_from k i snap ready s ≡ s
unfolding started_from
started_from-unread k i snap ready s e = rw e refl

-- What a scan pulls, it pulls in turn: some of the ready tasks that no gate keeps back, one after the
-- other by priority, those with a failed review first within a priority, and then by number, where tied
-- ones keep the order of the list and none is lost or repeated; or it pulls nothing.
pub scan-Turns :
    (k : Calls) (i : Inputs) (c : Coordinator)
    → (pulled_ids (scan k i c).done_actions ≡ [])
      ⊎ ((flagged : List Text) × (snap : Snapshot) × (ready : List BoardTask) × (i.triage
            ≡ some flagged)
          × (i.board ≡ some snap)
          × (i.ready_tasks ≡ some ready)
          × Turns k flagged snap ready (scan k i c).done_actions)
scan-Turns k i c =
    scan_any
      (λ made.
        (pulled_ids made ≡ [])
        ⊎ ((flagged : List Text) × (snap : Snapshot) × (ready : List BoardTask) × (i.triage
              ≡ some flagged)
            × (i.board ≡ some snap)
            × (i.ready_tasks ≡ some ready)
            × Turns k flagged snap ready made))
      k i c (inl (unfold pulled_ids in refl))
      (λ snap ready at list. elim (Option-cases i.triage) [
        | inl e ↦ inl (
            ap (λ (s : Scan). pulled_ids s.actions)
              (started_from-unread k i snap ready (swept k i snap c.attempts) e)
            ∙ swept-pulled_ids k i snap c.attempts)
        | inr (flagged, e) ↦ inr (
          flagged,
          snap,
          ready,
          e,
          at,
          list,
          started_from-Turns k i snap ready flagged (swept k i snap c.attempts) e
              (swept-pulled_ids k i snap c.attempts),
        )
      ])
