-- ===== src/Strings/Decimal.antt =====
-- `strconv.Atoi` and `%d`. `int` has 64 bits; the value of a text out of range is the bound.
use task_board_tools.Base.{
  ℕ, zero, suc, ◌+◌, ◌-◌, ◌*◌, ◌/◌, ◌%◌, ◌^◌, ◌≤◌, Bool, true, false, ◌&&◌, [], ◌∷◌, ◌≡◌, ◌≢◌, refl,
  arith, Text, leb, ◌==◌, if◌then◌else◌, ℤ, pos, negsuc, neg, Bool-cases, inl, eqb→eq, inr, ◌∙◌,
}

unfoldable pub is_digit : ℕ → Bool
is_digit c = leb b'0' c && leb c b'9'

unfoldable pub all_digits : Text → Bool
unfolding is_digit
all_digits [] = true
all_digits (c ∷ s) = is_digit c && all_digits s

-- The number that digits spell behind `n`.
unfoldable pub value : ℕ → Text → ℕ
value n [] = n
value n (c ∷ s) = value (n * 10 + (c - b'0')) s

abbrev pub max_int : ℕ
max_int = 2 ^ 63 - 1

-- The value and whether there was no error; without digits the value is 0.
unsigned : Text → (ℕ → ℤ) → ℕ → ℤ × Bool
unfolding all_digits value
unsigned [] sign bound = (pos 0, false)
unsigned (c ∷ s) sign bound =
    let n = value 0 (c ∷ s) in
    if all_digits (c ∷ s)
    then if leb n bound then (sign n, true) else (sign bound, false)
    else (pos 0, false)

unfoldable pub atoi : Text → ℤ × Bool
unfolding unsigned
atoi [] = (pos 0, false)
atoi (c ∷ s) =
    if c == b'-'
    then unsigned s neg (2 ^ 63)
    else if c == b'+'
    then unsigned s pos max_int
    else unsigned (c ∷ s) pos max_int

digits_onto : ℕ → ℕ → Text → Text
digits_onto zero n out = out
digits_onto (suc fuel) n out =
    let rest = digits_onto fuel (n / 10) ((b'0' + n % 10) ∷ out) in if n == 0 then out else rest

-- `%d` of a number that is not negative; as many rounds as the number are more than enough.
unfoldable pub format : ℕ → Text
unfolding digits_onto
format n = if n == 0 then b'0' ∷ [] else digits_onto n n []

unfoldable pub format_ℤ : ℤ → Text
unfolding format
format_ℤ (pos n) = format n
format_ℤ (negsuc n) = b'-' ∷ format (suc n)

value_last : (n : ℕ) (out : Text) → value (n / 10) ((b'0' + n % 10) ∷ out) ≡ value n out
unfolding value
value_last n out = let e : n / 10 * 10 + (b'0' + n % 10 - b'0') ≡ n = omega arith in rw e

value-digits_onto :
    (fuel n : ℕ) (out : Text) → n ≤ fuel → value 0 (digits_onto fuel n out) ≡ value n out
unfolding digits_onto
value-digits_onto zero n out h = let e : n ≡ 0 = omega arith in rw e
value-digits_onto (suc fuel) n out h = elim (Bool-cases (n == 0)) [
  | inl e ↦ rw (e, eqb→eq n 0 e)
  | inr e ↦
      rw e
        (value-digits_onto fuel (n / 10) ((b'0' + n % 10) ∷ out) (ground arith) ∙ value_last n out)
]

all_digits-digits_onto :
    (fuel n : ℕ) (out : Text) → all_digits out ≡ true → all_digits (digits_onto fuel n out) ≡ true
unfolding digits_onto
all_digits-digits_onto zero n out h = h
all_digits-digits_onto (suc fuel) n out h =
    ground
      (arith, all_digits_last n out h, all_digits-digits_onto fuel (n / 10) ((b'0' + n % 10) ∷ out))
  where
    all_digits_last :
        (n : ℕ) (out : Text) → all_digits out ≡ true → all_digits ((b'0' + n % 10) ∷ out) ≡ true
    all_digits_last n out h = unfold all_digits in ground arith

-- A number prints as digits only, at least one, that spell it.
pub value-format : (n : ℕ) → value 0 (format n) ≡ n
unfolding format
value-format n = elim (Bool-cases (n == 0)) [
  | inl e ↦ rw (e, eqb→eq n 0 e) (unfold value in refl)
  | inr e ↦ rw e (value-digits_onto n n [] (omega arith) ∙ (unfold value in refl))
]

pub format-all_digits : (n : ℕ) → all_digits (format n) ≡ true
unfolding format
format-all_digits n = elim (Bool-cases (n == 0)) [
  | inl e ↦ rw e (unfold all_digits in refl)
  | inr e ↦ rw e (all_digits-digits_onto n n [] (unfold all_digits in refl))
]

digits_onto-ne-nil : (fuel n : ℕ) (out : Text) → out ≢ [] → digits_onto fuel n out ≢ []
unfolding digits_onto
digits_onto-ne-nil zero n out h = h
digits_onto-ne-nil (suc fuel) n out h =
    ground (arith, digits_onto-ne-nil fuel (n / 10) ((b'0' + n % 10) ∷ out) (λ e. cc))

pub format-ne-nil : (n : ℕ) → format n ≢ []
unfolding format digits_onto
format-ne-nil zero h = cc
format-ne-nil (suc n) h =
    digits_onto-ne-nil n (suc n / 10) ((b'0' + suc n % 10) ∷ []) (λ e. cc) (ground arith)

atoi_digits :
    (s : Text)
    → s ≢ []
    → all_digits s ≡ true
    → value 0 s ≤ max_int
    → atoi s ≡ (pos (value 0 s), true)
unfolding atoi
atoi_digits [] h _ _ = absurd (h refl)
atoi_digits (c ∷ s) h d le = ground arith

-- Every `int` that is not negative is read back from its decimal print.
pub atoi-format : (n : ℕ) → n ≤ max_int → atoi (format n) ≡ (pos n, true)
atoi-format n h = rw (
  atoi_digits (format n) (format-ne-nil n) (format-all_digits n) (rw (value-format n) h),
  value-format n,
)
