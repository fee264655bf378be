-- ===== src/Recovery/Laws.antt =====
-- What recovery does to runs and to the status of their task.
use mathlib.Core.List.{Memᴰ, append_assoc}
use task_board_tools.Base.{
  if◌then◌else◌, ◌&&◌, ◌++◌, ap, List, [], ◌∷◌, ◌≡◌, ◌⊎◌, Text, Bool, Option, some, none, true,
  false, inl, if_any, inr, text_eq, All, arith, refl, Bool-cases, ◌∙◌, append_assoc, All-append,
}
use task_board_tools.Recovery.{
  Deed, Recovery, RunView, BoardTask, gone_status, appended, Outcome, append_recovered_finished,
  mark, recover_run, is_alive, sync_status, then_edit, recover_view, status_set, end_run, adopted,
  is_last, recover_runs,
}
use task_board_tools.Automation.Tasks.{BoardTask}

-- The ID under which a run is ended.
abbrev pub name_of : Recovery → Text → Text
name_of w id = if text_eq id [] then w.fresh_id else id

-- A run that this process has in hand itself.
abbrev pub is_owned : Recovery → RunView → Bool
is_owned w v = w.skip_tracked && w.active_run v.id

-- The status that a run gives its task: that of its last finished event, or that of a run that has gone.
abbrev pub verdict : RunView → Option Text → Text
verdict v none = gone_status v
verdict v (some status) = status

-- Why a deed is right for a run: only a run that has no finished event, does not live and is not owned is
-- ended; only the latest run sets the status of the task, to its verdict; only a run that lives is
-- adopted.
abbrev pub IsRight : Recovery → BoardTask → Bool → RunView → Deed → Type 0
IsRight w t is_latest v (appended id status) =
    (id ≡ name_of w v.id)
    × (status ≡ gone_status v)
    × (v.last_finished ≡ none)
    × (is_alive w t v ≡ false)
    × (is_owned w v ≡ false)
IsRight w t is_latest v (status_set status) =
    (is_latest ≡ true) × (status ≡ verdict v v.last_finished) × (is_owned w v ≡ false)
IsRight w t is_latest v (adopted id) =
    (id ≡ v.id) × (v.last_finished ≡ none) × (is_alive w t v ≡ true)

-- Nothing is left open: the run has a finished event, is owned, lives, or has been ended.
abbrev pub IsSettled : Recovery → BoardTask → List Deed → RunView → Type 0
IsSettled w t ds v =
    ((s : Text) × (v.last_finished ≡ some s))
    ⊎ ((is_owned w v ≡ true)
        ⊎ ((is_alive w t v ≡ true) ⊎ Memᴰ (appended (name_of w v.id) (gone_status v)) ds))

-- What one round adds, and what it leaves.
record IsRound (w : Recovery) (t : BoardTask) (is_latest : Bool) (v : RunView) (ds : List Deed)
    (o : Outcome) : Type 0 where
  new : List Deed
  grown : o.0 ≡ new ++ ds
  right : All (IsRight w t is_latest v) new
  settled : o.1 ≡ true → IsSettled w t o.0 v

module _ (w : Recovery) (t : BoardTask) (v : RunView) where
  sync_status-IsRound :
      (is_latest : Bool) (status : Text) (ds : List Deed)
      → v.last_finished ≡ some status
      → is_owned w v ≡ false
      → IsRound w t is_latest v ds (sync_status w is_latest status ds)
  sync_status-IsRound false status ds e own = record {
    new = [];
    grown = refl;
    right = tt;
    settled = λ _. inl (status, e);
  }
  sync_status-IsRound true status ds e own =
      if_any (IsRound w t true v ds) (w.can_edit status)
        (λ _. record {
          new = status_set status ∷ [];
          grown = refl;
          right = ((refl, rw e refl, own), tt);
          settled = λ _. inl (status, e);
        })
        (λ _. record { new = []; grown = refl; right = tt; settled = λ _. inl (status, e) })

  append-IsRound :
      (is_latest : Bool) (ds : List Deed)
      → v.last_finished ≡ none
      → is_alive w t v ≡ false
      → is_owned w v ≡ false
      → IsRound w t is_latest v ds (append_recovered_finished w v.id (gone_status v) ds)
  unfolding append_recovered_finished
  append-IsRound is_latest ds e dead own =
      if_any (IsRound w t is_latest v ds) (w.can_append (name_of w v.id))
        (λ _. record {
          new = appended (name_of w v.id) (gone_status v) ∷ [];
          grown = refl;
          right = ((refl, refl, e, dead, own), tt);
          settled = λ _. inr (inr (inr (Memᴰ.head refl)));
        })
        (λ _. record { new = []; grown = refl; right = tt; settled = λ h. absurd (ground arith) })

  then_edit-IsRound :
      (ds : List Deed) (o : Outcome)
      → v.last_finished ≡ none
      → is_owned w v ≡ false
      → IsRound w t true v ds o
      → IsRound w t true v ds (then_edit w (gone_status v) o)
  then_edit-IsRound ds (done, false) e own r = r
  then_edit-IsRound ds (done, true) e own r =
      if_any (IsRound w t true v ds) (w.can_edit (gone_status v))
        (λ _. record {
          new = status_set (gone_status v) ∷ r.new;
          grown = ap (λ xs. status_set (gone_status v) ∷ xs) r.grown;
          right = ((refl, rw e refl, own), r.right);
          settled = λ _. later (r.settled refl);
        })
        (λ _. record {
          new = r.new;
          grown = r.grown;
          right = r.right;
          settled = λ h. absurd (ground arith);
        })
    where
      later : IsSettled w t done v → IsSettled w t (status_set (gone_status v) ∷ done) v
      later (inl x) = inl x
      later (inr (inl x)) = inr (inl x)
      later (inr (inr (inl x))) = inr (inr (inl x))
      later (inr (inr (inr m))) = inr (inr (inr (Memᴰ.tail m)))

  end_run-IsRound :
      (is_latest : Bool) (ds : List Deed)
      → v.last_finished ≡ none
      → is_alive w t v ≡ false
      → is_owned w v ≡ false
      → IsRound w t is_latest v ds (end_run w is_latest v ds)
  unfolding mark
  end_run-IsRound true ds e dead own =
      then_edit-IsRound ds (append_recovered_finished w v.id (gone_status v) ds) e own
        (append-IsRound true ds e dead own)
  end_run-IsRound false ds e dead own = append-IsRound false ds e dead own

  recover_run-IsRound :
      (is_latest : Bool) (ds : List Deed)
      → IsRound w t is_latest v ds (recover_run w t is_latest v ds)
  unfolding recover_run
  recover_run-IsRound is_latest ds =
      let P : Outcome → Type 0 = IsRound w t is_latest v ds in
      if_any P (is_owned w v)
        (λ own. record { new = []; grown = refl; right = tt; settled = λ _. inr (inl own) })
        (λ own. by_finish own v.last_finished refl)
    where
      by_finish :
          is_owned w v ≡ false
          → (o : Option Text) → v.last_finished ≡ o
          → IsRound w t is_latest v ds (recover_view w t is_latest v o ds)
      by_finish own (some status) e = sync_status-IsRound is_latest status ds e own
      by_finish own none e =
          let P : Outcome → Type 0 = IsRound w t is_latest v ds in
          if_any P (is_alive w t v)
            (λ live. record {
              new = adopted v.id ∷ [];
              grown = refl;
              right = ((refl, e, live), tt);
              settled = λ _. inr (inr (inl live));
            })
            (λ dead. end_run-IsRound is_latest ds e dead own)

-- A deed that is right for a run of the list, at its place.
abbrev pub IsRightFor : Recovery → BoardTask → List RunView → Deed → Type 0
IsRightFor w t vs a =
    (before : List RunView) × (v : RunView) × (after : List RunView) × (vs ≡ before ++ v ∷ after)
    × IsRight w t (is_last after) v a

-- What recovery leaves of the runs of a task.
pub record IsRecovered (w : Recovery) (t : BoardTask) (vs : List RunView) (ds : List Deed)
    (o : Outcome) : Type 0 where
  pub new : List Deed
  pub grown : o.0 ≡ new ++ ds
  pub right : All (IsRightFor w t vs) new
  pub settled : o.1 ≡ true → All (IsSettled w t o.0) vs

Memᴰ-append : (a : Deed) (new ds : List Deed) → Memᴰ a ds → Memᴰ a (new ++ ds)
Memᴰ-append a [] ds m = m
Memᴰ-append a (n ∷ new) ds m = Memᴰ.tail (Memᴰ-append a new ds m)

IsSettled-append :
    (w : Recovery) (t : BoardTask) (v : RunView) (new ds : List Deed)
    → IsSettled w t ds v
    → IsSettled w t (new ++ ds) v
IsSettled-append w t v new ds (inl x) = inl x
IsSettled-append w t v new ds (inr (inl x)) = inr (inl x)
IsSettled-append w t v new ds (inr (inr (inl x))) = inr (inr (inl x))
IsSettled-append w t v new ds (inr (inr (inr m))) = inr (inr (inr (Memᴰ-append _ new ds m)))

first_right :
    (w : Recovery) (t : BoardTask) (v : RunView) (vs : List RunView) (new : List Deed)
    → All (IsRight w t (is_last vs) v) new
    → All (IsRightFor w t (v ∷ vs)) new
first_right w t v vs [] h = tt
first_right w t v vs (a ∷ new) (r, h) = (([], v, vs, refl, r), first_right w t v vs new h)

rest_right :
    (w : Recovery) (t : BoardTask) (v : RunView) (vs : List RunView) (new : List Deed)
    → All (IsRightFor w t vs) new
    → All (IsRightFor w t (v ∷ vs)) new
rest_right w t v vs [] h = tt
rest_right w t v vs (a ∷ new) ((before, u, after, e, r), h) =
    ((v ∷ before, u, after, ap (λ xs. v ∷ xs) e, r), rest_right w t v vs new h)

-- Recovery does to the runs of a task only what is right: it ends only runs that have no finished event,
-- do not live and are not in hand, as interrupted with a session and as lost without one; it sets the
-- status of the task only by the latest run, to the status of its last finished event or to the one it
-- is ended with, so that a cancelled run stays cancelled; and it adopts only runs that live. If it meets
-- no error, no run is left open: each has a finished event, is in hand, lives, or has been ended.
pub recover_runs-IsRecovered :
    (w : Recovery) (t : BoardTask) (vs : List RunView) (ds : List Deed)
    → IsRecovered w t vs ds (recover_runs w t vs ds)
unfolding recover_runs
recover_runs-IsRecovered w t [] ds = record {
  new = [];
  grown = refl;
  right = tt;
  settled = λ _. tt;
}
recover_runs-IsRecovered w t (v ∷ vs) ds =
    let o = recover_run w t (is_last vs) v ds in
    let round = recover_run-IsRound w t v (is_last vs) ds in
    let rest = recover_runs-IsRecovered w t vs o.0 in
    elim (Bool-cases o.1) [
      | inr e ↦ rw e (record {
        new = round.new;
        grown = round.grown;
        right = first_right w t v vs round.new round.right;
        settled = λ h. absurd (ground arith);
      })
      | inl e ↦ rw e (record {
        new = rest.new ++ round.new;
        grown = rest.grown ∙ rw (round.grown, append_assoc) refl;
        right =
            All-append (IsRightFor w t (v ∷ vs)) rest.new round.new
              (rest_right w t v vs rest.new rest.right)
              (first_right w t v vs round.new round.right);
        settled = λ h.
            (rw rest.grown (IsSettled-append w t v rest.new o.0 (round.settled e)), rest.settled h);
      })
    ]
