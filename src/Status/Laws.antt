-- ===== src/Status/Laws.antt =====
-- What the names of columns and tasks resolve to.
use task_board_tools.Base.{
  ℕ, true, [], ◌∷◌, ◌++◌, some, ◌≡◌, ◌↔◌, refl, ◌∙◌, arith, Text, codes, pos, ◌≤◌, Bool-cases, inl,
  inr, append_assoc, ap, ℤ, Bool,
}
use task_board_tools.Strings.{to_upper, has_prefix, cut_at}
use task_board_tools.Strings.Prefix.{
  to_lower-to_upper, has_prefix-append, to_upper-append, to_upper-to_upper,
}
use task_board_tools.Strings.Parts.{Lacks}
use task_board_tools.Strings.Decimal.{format, max_int, atoi-format}
use task_board_tools.Status.{
  Status, backlog, ready, in_progress, code_review, done, archive, status_name, status_eq,
  resolve_status, status_rank, normalize_task_id, numeric_id,
}

pub status_eq_iff : (s t : Status) → (status_eq s t ≡ true) ↔ (s ≡ t)
unfolding status_eq
status_eq_iff s t = ground arith

pub status_eq_refl : (s : Status) → status_eq s s ≡ true
status_eq_refl s = (status_eq_iff s s).1 refl

-- A directory's name resolves to that directory, in either case of letters.
pub resolve_status-status_name :
    (s : Status)
    → (resolve_status (status_name s) ≡ some s)
      × (resolve_status (to_upper (status_name s)) ≡ some s)
unfolding resolve_status status_name to_upper
resolve_status-status_name backlog = (refl, refl)
resolve_status-status_name ready = (refl, refl)
resolve_status-status_name in_progress = (refl, refl)
resolve_status-status_name code_review = (refl, refl)
resolve_status-status_name done = (refl, refl)
resolve_status-status_name archive = (refl, refl)

-- The case of the letters never matters.
resolve_status-to_upper : (t : Text) → resolve_status (to_upper t) ≡ resolve_status t
unfolding resolve_status
resolve_status-to_upper t = rw (to_lower-to_upper t)

-- No two columns share a rank.
pub status_rank-injective : (s t : Status) → status_rank s ≡ status_rank t → s ≡ t
unfolding status_rank
status_rank-injective s t h = ground arith

pub cut_at-Lacks : (sep : ℕ) (p s : Text) → Lacks sep p → cut_at sep (p ++ sep ∷ s) ≡ some (p, s)
unfolding cut_at
cut_at-Lacks sep [] s h = ground arith
cut_at-Lacks sep (c ∷ p) s (h, hs) = ground (arith, cut_at-Lacks sep p s hs)

-- `PREFIX-N` has the number N, whatever the prefix, as long as it holds no dash.
pub numeric_id-format :
    (p : Text) (n : ℕ) → Lacks b'-' p → n ≤ max_int → numeric_id (p ++ b'-' ∷ format n) ≡ pos n
unfolding numeric_id
numeric_id-format p n h le =
    rw (cut_at-Lacks b'-' p (format n) h) (ap (λ (r : ℤ × Bool). r.0) (atoi-format n le))

dashed_prefix :
    (p raw : Text)
    → has_prefix (to_upper (p ++ (codes "-" ++ raw))) (to_upper p ++ codes "-") ≡ true
dashed_prefix p raw =
    rw (to_upper-append p (codes "-" ++ raw), to_upper-append (codes "-") raw)
      (rw (← append_assoc (to_upper p) (to_upper (codes "-")) (to_upper raw))
        (unfold to_upper in has_prefix-append (to_upper p ++ codes "-") (to_upper raw)))

normalize_upper : (p raw : Text) → to_upper (normalize_task_id p raw) ≡ normalize_task_id p raw
unfolding normalize_task_id
normalize_upper p raw = elim (Bool-cases (has_prefix (to_upper raw) (to_upper p ++ codes "-"))) [
  | inl e ↦ rw e (to_upper-to_upper raw)
  | inr e ↦ rw e (to_upper-to_upper (p ++ (codes "-" ++ raw)))
]

normalize_prefix :
    (p raw : Text) → has_prefix (normalize_task_id p raw) (to_upper p ++ codes "-") ≡ true
unfolding normalize_task_id
normalize_prefix p raw = elim (Bool-cases (has_prefix (to_upper raw) (to_upper p ++ codes "-"))) [
  | inl e ↦ rw e e
  | inr e ↦ rw e (dashed_prefix p raw)
]

normalize_of_prefix :
    (p raw : Text)
    → has_prefix (to_upper raw) (to_upper p ++ codes "-") ≡ true
    → normalize_task_id p raw ≡ to_upper raw
unfolding normalize_task_id
normalize_of_prefix p raw h = rw h

-- Normalising a task ID twice is the same as once, and a normal ID starts with the configured
-- prefix, in capitals, and a dash.
pub normalize_task_id_twice :
    (p raw : Text)
    → (normalize_task_id p (normalize_task_id p raw) ≡ normalize_task_id p raw)
      × (has_prefix (normalize_task_id p raw) (to_upper p ++ codes "-") ≡ true)
normalize_task_id_twice p raw =
    let upper_id = normalize_upper p raw in
    let starts = normalize_prefix p raw in
    (normalize_of_prefix p (normalize_task_id p raw) (rw upper_id starts) ∙ upper_id, starts)
