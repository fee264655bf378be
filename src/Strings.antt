-- ===== src/Strings.antt =====
-- What the program takes from Go's `strings` and `strconv`, on ASCII texts: there a byte is a
-- character, and case and white space are those of the ASCII table.
pub mod Prefix
pub mod Parts
pub mod Trim
pub mod Blank
pub mod Decimal
use mathlib.Core.List.{reverse}
use task_board_tools.Base.{
  ℕ, suc, ◌+◌, ◌-◌, Bool, true, false, ◌&&◌, ◌||◌, List, [], ◌∷◌, ◌++◌, map, Option, none, some,
  Text, text_eq, leb, ◌==◌, if◌then◌else◌,
}

-- `strings.HasPrefix(s, p)`
unfoldable pub has_prefix : Text → Text → Bool
has_prefix s [] = true
has_prefix [] (c ∷ p) = false
has_prefix (b ∷ s) (c ∷ p) = b == c && has_prefix s p

-- The text behind a prefix, if it is one.
unfoldable pub after_prefix : Text → Text → Option Text
after_prefix s [] = some s
after_prefix [] (c ∷ p) = none
after_prefix (b ∷ s) (c ∷ p) = let rest = after_prefix s p in if b == c then rest else none

-- `strings.TrimPrefix(s, p)`
unfoldable pub trim_prefix : Text → Text → Text
unfolding after_prefix
trim_prefix s p = elim (after_prefix s p) [ none ↦ s | some r ↦ r ]

-- `strings.HasSuffix(s, p)`
unfoldable pub has_suffix : Text → Text → Bool
unfolding has_prefix
has_suffix s p = has_prefix (reverse s) (reverse p)

-- `strings.TrimSuffix(s, p)`
unfoldable pub trim_suffix : Text → Text → Text
unfolding trim_prefix
trim_suffix s p = reverse (trim_prefix (reverse s) (reverse p))

-- Tab, line feed, vertical tab, form feed, carriage return and the space.
unfoldable pub is_space : ℕ → Bool
is_space c = (leb 9 c && leb c 13) || c == b' '

-- `strings.TrimLeft(s, cutset)`, the cutset as a test.
unfoldable pub trim_left : (ℕ → Bool) → Text → Text
trim_left cut [] = []
trim_left cut (c ∷ s) = let rest = trim_left cut s in if cut c then rest else c ∷ s

-- What is left of `c` and a trimmed rest: `c` goes only with all that follows it.
abbrev pub trim_last : Bool → ℕ → Text → Text
trim_last true c [] = []
trim_last false c [] = c ∷ []
trim_last _ c (d ∷ r) = c ∷ d ∷ r

-- `strings.TrimRight(s, cutset)`
unfoldable pub trim_right : (ℕ → Bool) → Text → Text
trim_right cut [] = []
trim_right cut (c ∷ s) = trim_last (cut c) c (trim_right cut s)

-- `strings.TrimSpace(s)`
unfoldable pub trim_space : Text → Text
unfolding trim_left trim_right is_space
trim_space s = trim_right is_space (trim_left is_space s)

unfoldable pub lower : ℕ → ℕ
lower c = if leb b'A' c && leb c b'Z' then c + 32 else c

unfoldable pub upper : ℕ → ℕ
upper c = if leb b'a' c && leb c b'z' then c - 32 else c

-- `strings.ToLower(s)` and `strings.ToUpper(s)`
unfoldable pub to_lower : Text → Text
unfolding lower
to_lower s = map lower s

unfoldable pub to_upper : Text → Text
unfolding upper
to_upper s = map upper s

-- `strings.EqualFold(s, t)`
unfoldable pub equal_fold : Text → Text → Bool
unfolding to_lower text_eq
equal_fold s t = text_eq (to_lower s) (to_lower t)

-- `strings.Contains(s, sub)`
unfoldable pub contains : Text → Text → Bool
unfolding has_prefix
contains [] sub = has_prefix [] sub
contains (c ∷ s) sub = has_prefix (c ∷ s) sub || contains s sub

-- `strings.Cut(s, sep)` at a byte: what stands before and behind the first one.
unfoldable pub cut_at : ℕ → Text → Option (Text × Text)
cut_at sep [] = none
cut_at sep (c ∷ s) =
    let rest = cut_at sep s in
    if c == sep then some ([], s) else elim rest [ none ↦ none | some (a, b) ↦ some (c ∷ a, b) ]

-- `strings.Split(s, sep)` at a byte: never empty.
abbrev pub onto_first : ℕ → List Text → List Text
onto_first c [] = (c ∷ []) ∷ []
onto_first c (p ∷ ps) = (c ∷ p) ∷ ps

unfoldable pub split : Text → ℕ → List Text
split [] sep = [] ∷ []
split (c ∷ s) sep = let rest = split s sep in if c == sep then [] ∷ rest else onto_first c rest

-- `strings.Join(parts, sep)`
unfoldable pub join : List Text → Text → Text
join [] sep = []
join (p ∷ []) sep = p
join (p ∷ q ∷ ps) sep = p ++ (sep ++ join (q ∷ ps) sep)
