-- ===== src/Allocate/Search.antt =====
-- The search for a free number ends within one round more than the board has entries.
use task_board_tools.Base.{
  ◌+◌, ℕ, ◌≤◌, ◌<◌, Bool, true, false, not, [], ◌∷◌, ◌++◌, ◌≡◌, ◌≢◌, refl, ap, arith, Text, text_eq,
  text_eq_iff, Bool-cases, inl, inr, filter, any, length, pos, sym, ◌∙◌, suc, lt→ltb, ◌==◌, eqb→eq,
  zero, some, ℤ,
}
use task_board_tools.Board.{Board, slot_at, place_eq, empty_slot}
use task_board_tools.Allocate.{
  id_name, format_ℤ, task_destination_exists, id_exists, max_int, first_free, suc_int, suc, some, ℤ,
}
use task_board_tools.Status.{Status, backlog, ready, in_progress, code_review, done, archive}
use task_board_tools.Strings.Decimal.{format_ℤ, format, value-format, value, max_int}
use task_board_tools.Gates.{task_destination_exists}

abbrev has_id : Board → Text → Bool
has_id b x = any (λ e. text_eq e.id x) b

abbrev without : Board → Text → Board
without b x = filter (λ e. not (text_eq e.id x)) b

append-injective : (p : Text) (s t : Text) → p ++ s ≡ p ++ t → s ≡ t
append-injective [] s t h = h
append-injective (c ∷ p) s t h = append-injective p s t (cc)

tail_eq : (c : ℕ) (s t : Text) → (c ∷ s) ≡ (c ∷ t) → s ≡ t
tail_eq c s t h = cc

pub id_name-injective : (p : Text) (n m : ℕ) → id_name p (pos n) ≡ id_name p (pos m) → n ≡ m
unfolding id_name format_ℤ
id_name-injective p n m h =
    let same : format n ≡ format m =
      tail_eq b'-' (format n) (format m)
        (append-injective p (b'-' ∷ format n) (b'-' ∷ format m) h) in
    sym (value-format n) ∙ (ap (value 0) same ∙ value-format m)

length-without_le : (b : Board) (x : Text) → length (without b x) ≤ length b
length-without_le [] x = omega arith
length-without_le (e ∷ b) x = ground (arith, length-without_le b x)

length-without : (b : Board) (x : Text) → has_id b x ≡ true → length (without b x) < length b
length-without [] x h = absurd (ground arith)
length-without (e ∷ b) x h = elim (Bool-cases (text_eq e.id x)) [
  | inl q ↦ rw q (omega (arith, length-without_le b x))
  | inr q ↦ rw q (omega (arith, length-without b x (ground arith)))
]

slot_at-absent :
    (b : Board) (s : Status) (x : Text) → has_id b x ≡ false → slot_at b s x ≡ empty_slot
unfolding slot_at place_eq
slot_at-absent [] s x h = refl
slot_at-absent (e ∷ b) s x h = ground (arith, slot_at-absent b s x)

slot_at-without :
    (b : Board) (s : Status) (x y : Text) → x ≢ y → slot_at (without b x) s y ≡ slot_at b s y
unfolding slot_at place_eq
slot_at-without [] s x y ne = refl
slot_at-without (e ∷ b) s x y ne = elim (Bool-cases (text_eq e.id x)) [
  | inl q ↦
      let off : text_eq e.id y ≡ false =
        ground (arith, text_eq_iff e.id x, text_eq_iff e.id y, ne) in
      ground (arith, q, off, slot_at-without b s x y ne)
  | inr q ↦ ground (arith, q, slot_at-without b s x y ne)
]

task_destination_exists_cong :
    (b c : Board) (s : Status) (x : Text)
    → slot_at b s x ≡ slot_at c s x
    → task_destination_exists b s x ≡ task_destination_exists c s x
unfolding task_destination_exists
task_destination_exists_cong b c s x h = rw h

-- An ID that exists is that of an entry.
id_exists-has_id :
    (p : Text) (b : Board) (n : ℕ)
    → id_exists p b (pos n) ≡ true
    → has_id b (id_name p (pos n)) ≡ true
unfolding id_exists
id_exists-has_id p b n h = elim (Bool-cases (has_id b (id_name p (pos n)))) [
  | inl e ↦ e
  | inr e ↦
      let nowhere = λ (s : Status). nothing-there b s (id_name p (pos n)) e in
      absurd (
        ground (
          arith,
          nowhere backlog,
          nowhere ready,
          nowhere in_progress,
          nowhere code_review,
          nowhere done,
          nowhere archive,
        ))
]
  where
    nothing-there :
        (b : Board) (s : Status) (x : Text)
        → has_id b x ≡ false
        → task_destination_exists b s x ≡ false
    nothing-there b s x e = unfold task_destination_exists in rw (slot_at-absent b s x e)

-- Entries of another ID do not matter.
id_exists-without :
    (p : Text) (b : Board) (n m : ℕ)
    → n < m
    → id_exists p (without b (id_name p (pos n))) (pos m) ≡ id_exists p b (pos m)
unfolding id_exists
id_exists-without p b n m lt =
    let ne : id_name p (pos n) ≢ id_name p (pos m) =
      λ h. absurd (let e = id_name-injective p n m h in omega (arith, e)) in
    let same = λ (s : Status).
      task_destination_exists_cong (without b (id_name p (pos n))) b s (id_name p (pos m))
        (slot_at-without b s (id_name p (pos n)) (id_name p (pos m)) ne) in
    rw (same backlog, same ready, same in_progress, same code_review, same done, same archive)

pub suc_int-pos : (n : ℕ) → n < max_int → suc_int (pos n) ≡ pos (suc n)
suc_int-pos n h = rw (lt→ltb n max_int h)

first_free-without :
    (fuel : ℕ) (p : Text) (b : Board) (n m : ℕ)
    → n < m
    → m + fuel ≤ max_int
    → first_free fuel p (without b (id_name p (pos n))) (pos m) ≡ first_free fuel p b (pos m)
unfolding first_free
first_free-without zero p b n m lt le = refl
first_free-without (suc fuel) p b n m lt le = rw (
  id_exists-without p b n m lt,
  suc_int-pos m (omega (arith, le)),
  first_free-without fuel p b n (suc m) (omega (arith, lt)) (omega (arith, le)),
)

-- What the search finds: the first number from `n` on that no task has.
pub record FirstFree (p : Text) (b : Board) (n m : ℕ) : Type 0 where
  pub from : n ≤ m
  pub free : id_exists p b (pos m) ≡ false
  pub taken : (k : ℕ) → n ≤ k → k < m → id_exists p b (pos k) ≡ true

found_later :
    (p : Text) (b : Board) (n m : ℕ)
    → id_exists p b (pos n) ≡ true
    → FirstFree p (without b (id_name p (pos n))) (suc n) m
    → FirstFree p b n m
found_later p b n m here f = record {
  from = omega (arith, f.from);
  free = sym (id_exists-without p b n m (omega (arith, f.from))) ∙ f.free;
  taken = λ k le lt. elim (Bool-cases (k == n)) [
    | inl e ↦ let z : k ≡ n = eqb→eq k n e in rw z here
    | inr e ↦
        let above : n < k = ground (arith, e, le) in
        sym (id_exists-without p b n k above) ∙ f.taken k (omega (arith, above)) lt
  ];
}

-- One round more than the board has entries finds the first free number, as long as the numbers fit.
pub first_free_lem :
    (fuel : ℕ) (p : Text) (b : Board) (n : ℕ)
    → length b < fuel
    → n + fuel ≤ max_int
    → (m : ℕ) × (first_free fuel p b (pos n) ≡ some (pos m)) × FirstFree p b n m × (m < n + fuel)
unfolding first_free
first_free_lem zero p b n lt le = absurd (omega (arith, lt))
first_free_lem (suc fuel) p b n lt le = elim (Bool-cases (id_exists p b (pos n))) [
  | inr e ↦ (
    n,
    rw e,
    record { from = omega arith; free = e; taken = λ k h h'. absurd (omega (arith, h, h')) },
    omega arith,
  )
  | inl e ↦
      let shorter = length-without b (id_name p (pos n)) (id_exists-has_id p b n e) in
      let (m, q, f, below) =
        first_free_lem fuel p (without b (id_name p (pos n))) (suc n) (omega (arith, shorter, lt))
          (omega (arith, le)) in
      let same = first_free-without fuel p b n (suc n) (omega arith) (omega (arith, le)) in
      (
        m,
        rw (e, suc_int-pos n (omega (arith, le))) (sym same ∙ q),
        found_later p b n m e f,
        omega (arith, below),
      )
]

-- A number is free when no column has a task of it, in either form.
pub id_exists-vacant :
    (p : Text) (b : Board) (n : ℤ)
    → id_exists p b n ≡ false
    → (s : Status) → task_destination_exists b s (id_name p n) ≡ false
unfolding id_exists
id_exists-vacant p b n h backlog = ground arith
id_exists-vacant p b n h ready = ground arith
id_exists-vacant p b n h in_progress = ground arith
id_exists-vacant p b n h code_review = ground arith
id_exists-vacant p b n h done = ground arith
id_exists-vacant p b n h archive = ground arith
