-- ===== src/Strings/Prefix.antt =====
-- Prefixes, trimming and letter case.
use task_board_tools.Base.{
  ℕ, Bool, true, false, [], ◌∷◌, ◌++◌, some, ◌≡◌, refl, arith, Text, text_eq_iff, text_eq_refl, ap,
  text_eq_sound, text_eq, ◌≢◌,
}
use mathlib.Core.List.{map-append}
use task_board_tools.Strings.{
  has_prefix, after_prefix, trim_prefix, trim_left, lower, upper, to_lower, to_upper, equal_fold,
}

pub has_prefix-append : (p s : Text) → has_prefix (p ++ s) p ≡ true
unfolding has_prefix
has_prefix-append [] s = refl
has_prefix-append (c ∷ p) s = ground (arith, has_prefix-append p s)

pub after_prefix-append : (p s : Text) → after_prefix (p ++ s) p ≡ some s
unfolding after_prefix
after_prefix-append [] s = refl
after_prefix-append (c ∷ p) s = ground (arith, after_prefix-append p s)

pub trim_prefix-append : (p s : Text) → trim_prefix (p ++ s) p ≡ s
unfolding trim_prefix
trim_prefix-append p s = rw (after_prefix-append p s, trim_prefix)

pub after_prefix_sound : (s p r : Text) → after_prefix s p ≡ some r → s ≡ p ++ r
unfolding after_prefix
after_prefix_sound s [] r h = ground arith
after_prefix_sound [] (c ∷ p) r h = cc
after_prefix_sound (b ∷ s) (c ∷ p) r h = ground (arith, after_prefix_sound s p r)

lower-lower : (c : ℕ) → lower (lower c) ≡ lower c
unfolding lower
lower-lower c = ground arith

lower-upper : (c : ℕ) → lower (upper c) ≡ lower c
unfolding lower upper
lower-upper c = ground arith

pub to_lower-to_lower : (s : Text) → to_lower (to_lower s) ≡ to_lower s
unfolding to_lower
to_lower-to_lower [] = refl
to_lower-to_lower (c ∷ s) = rw (lower-lower, to_lower-to_lower s)

pub to_lower-to_upper : (s : Text) → to_lower (to_upper s) ≡ to_lower s
unfolding to_lower to_upper
to_lower-to_upper [] = refl
to_lower-to_upper (c ∷ s) = rw (lower-upper, to_lower-to_upper s)

-- Texts that differ only in case are equal under folding, and the other way round.
pub equal_fold_sound : (s t : Text) → equal_fold s t ≡ true → to_lower s ≡ to_lower t
unfolding equal_fold
equal_fold_sound s t h = (text_eq_iff (to_lower s) (to_lower t)).0 h

pub equal_fold_refl : (s : Text) → equal_fold s s ≡ true
unfolding equal_fold
equal_fold_refl s = text_eq_refl (to_lower s)

-- A text that starts with no blank keeps its start.
pub trim_left_keep :
    (cut : ℕ → Bool) (c : ℕ) (s : Text) → cut c ≡ false → trim_left cut (c ∷ s) ≡ c ∷ s
unfolding trim_left
trim_left_keep cut c s h = rw (h, trim_left)

upper-upper : (c : ℕ) → upper (upper c) ≡ upper c
unfolding upper
upper-upper c = ground arith

pub to_upper-to_upper : (s : Text) → to_upper (to_upper s) ≡ to_upper s
unfolding to_upper
to_upper-to_upper [] = refl
to_upper-to_upper (c ∷ s) = rw (upper-upper, to_upper-to_upper s)

pub to_upper-append : (s t : Text) → to_upper (s ++ t) ≡ to_upper s ++ to_upper t
unfolding to_upper
to_upper-append s t = map-append upper s t

pub equal_fold-swap : (s t u : Text) → equal_fold s t ≡ true → equal_fold u s ≡ equal_fold u t
unfolding equal_fold
equal_fold-swap s t u h = ap (text_eq (to_lower u)) (text_eq_sound (to_lower s) (to_lower t) h)

pub equal_fold_sym : (s t : Text) → equal_fold s t ≡ true → equal_fold t s ≡ true
unfolding equal_fold
equal_fold_sym s t h = rw (text_eq_sound (to_lower s) (to_lower t) h) (text_eq_refl (to_lower t))

pub equal_fold-nil : (t : Text) → t ≢ [] → equal_fold [] t ≡ false
unfolding equal_fold to_lower text_eq
equal_fold-nil [] h = absurd (h refl)
equal_fold-nil (c ∷ t) h = refl
