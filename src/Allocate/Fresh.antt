-- ===== src/Allocate/Fresh.antt =====
-- A number that is given out is free, and no number is given out twice.
use task_board_tools.Base.{
  ℕ, suc, ◌+◌, ◌≤◌, ◌<◌, true, false, [], ◌∷◌, ◌++◌, some, ◌≡◌, refl, arith, Text, codes, length,
  pos, ◌≢◌,
}
use task_board_tools.Strings.{trim_space, trim_left, trim_right, is_space, trim_last}
use task_board_tools.Strings.Decimal.{
  atoi, format, max_int, is_digit, all_digits, atoi-format, format-ne-nil, format-all_digits,
  format_ℤ,
}
use task_board_tools.Board.{Board}
use task_board_tools.Allocate.{allocate_id, allocated, format_ℤ, task_destination_exists, id_name}
use task_board_tools.Allocate.Search.{FirstFree, first_free_lem, suc_int-pos, id_exists-vacant}
use task_board_tools.Status.{Status}
use task_board_tools.Gates.{task_destination_exists}

-- The number that `.next-id` holds, when it holds one.
abbrev pub Holds : Text → ℕ → Type 0
Holds text n = atoi (trim_space text) ≡ (pos n, true)

digit_kept : (c : ℕ) → is_digit c ≡ true → is_space c ≡ false
unfolding is_digit is_space
digit_kept c h = ground arith

trim_right-digits : (s : Text) → all_digits s ≡ true → trim_right is_space (s ++ b'\n' ∷ []) ≡ s
unfolding trim_right all_digits
trim_right-digits [] h = unfold is_space in refl
trim_right-digits (c ∷ s) h =
    let kept = digit_kept c (ground arith) in
    rw (trim_right-digits s (ground arith)) (keep c s kept)
  where
    keep : (c : ℕ) (s : Text) → is_space c ≡ false → trim_last (is_space c) c s ≡ c ∷ s
    keep c [] h = rw h
    keep c (d ∷ s) h = refl

trim_space-digits : (s : Text) → s ≢ [] → all_digits s ≡ true → trim_space (s ++ codes "\n") ≡ s
unfolding trim_space trim_left all_digits
trim_space-digits [] ne h = absurd (ne refl)
trim_space-digits (c ∷ s) ne h =
    rw (digit_kept c (ground arith)) (trim_right-digits (c ∷ s) (unfold all_digits in h))

-- What the program writes it reads back.
counter-Holds : (n : ℕ) → n ≤ max_int → Holds (format n ++ codes "\n") n
counter-Holds n le =
    rw (trim_space-digits (format n) (format-ne-nil n) (format-all_digits n)) (atoi-format n le)

-- If `.next-id` holds a number, and it and the size of the board fit an `int`, the program gives out the
-- first number from there on that no task has, in either form, in any column, the archive included; and
-- it writes the number behind it. No more numbers are passed over than the board has entries.
pub allocate_id_lem :
    (p : Text) (b : Board) (text : Text) (n : ℕ)
    → Holds text n
    → n + suc (length b) ≤ max_int
    → (m : ℕ) × (allocate_id p true b (some text)
        ≡ allocated (pos m) (format (suc m) ++ codes "\n"))
      × FirstFree p b n m
      × (m < n + suc (length b))
      × ((s : Status) → task_destination_exists b s (id_name p (pos m)) ≡ false)
unfolding allocate_id format_ℤ
allocate_id_lem p b text n holds le =
    let (m, q, f, below) = first_free_lem (suc (length b)) p b n (omega arith) le in
    (
      m,
      rw (holds, q, suc_int-pos m (omega (arith, below, le))),
      f,
      below,
      id_exists-vacant p b (pos m) f.free,
    )

-- Two calls in a row give two different numbers, the second one greater, whatever has become of the
-- board in between, and even if the first task was never written. Here too the numbers fit an `int`.
pub allocate_id_twice :
    (p : Text) (b c : Board) (text : Text) (n : ℕ)
    → Holds text n
    → n + suc (length b) + suc (length c) ≤ max_int
    → (m k : ℕ) × (counter : Text) × (end : Text) × (allocate_id p true b (some text)
        ≡ allocated (pos m) counter)
      × (allocate_id p true c (some counter) ≡ allocated (pos k) end)
      × (m < k)
allocate_id_twice p b c text n holds le =
    let (m, first, _, below, _) = allocate_id_lem p b text n holds (omega (arith, le)) in
    let again = counter-Holds (suc m) (omega (arith, below, le)) in
    let (k, second, found, _, _) =
      allocate_id_lem p c (format (suc m) ++ codes "\n") (suc m) again (omega (arith, below, le)) in
    (
      m,
      k,
      format (suc m) ++ codes "\n",
      format (suc k) ++ codes "\n",
      first,
      second,
      omega (arith, found.from),
    )
