-- ===== src/Tags/Laws.antt =====
-- What the tag functions do to one another.
use task_board_tools.Base.{
  true, false, ◌||◌, List, [], ◌∷◌, ◌++◌, ◌≡◌, ◌≢◌, refl, ◌∙◌, arith, Text, codes, text_eq, All,
  Bool-cases, inl, inr, text_eq_sound, ◌&&◌, not,
}
use task_board_tools.Strings.{trim_space, equal_fold, split, join}
use task_board_tools.Strings.Prefix.{equal_fold-swap, equal_fold-nil, equal_fold_sym}
use task_board_tools.Strings.Parts.{Lacks, split-join, split-Lacks, split_lacking, split_behind}
use task_board_tools.Strings.Trim.{trim_space-trim_space, trim_space-Lacks}
use task_board_tools.Tags.{any_tag, has_tag, add_tag, kept_tags, remove_tag}

-- A tag that a comma-separated text can hold: not empty, no comma, no blank at either end.
pub record IsTag (tag : Text) : Type 0 where
  pub filled : tag ≢ []
  pub no_comma : Lacks b',' tag
  pub trimmed : trim_space tag ≡ tag

any_tag-append :
    (ps qs : List Text) (tag : Text) → any_tag (ps ++ qs) tag ≡ (any_tag ps tag || any_tag qs tag)
any_tag-append [] qs tag = refl
any_tag-append (p ∷ ps) qs tag = ground (arith, any_tag-append ps qs tag)

any_tag-swap : (ps : List Text) (s t : Text) → equal_fold s t ≡ true → any_tag ps s ≡ any_tag ps t
any_tag-swap [] s t h = refl
any_tag-swap (p ∷ ps) s t h = rw (equal_fold-swap s t (trim_space p) h, any_tag-swap ps s t h)

has_tag-swap : (e s t : Text) → equal_fold s t ≡ true → has_tag e s ≡ has_tag e t
unfolding has_tag
has_tag-swap e s t h = any_tag-swap (split e b',') s t h

has_tag_single : (tag other : Text) → IsTag tag → has_tag tag other ≡ equal_fold tag other
unfolding has_tag
has_tag_single tag other h = rw (split_lacking tag b',' h.no_comma, h.trimmed) (ground arith)

has_tag-nil : (other : Text) → other ≢ [] → has_tag [] other ≡ false
unfolding has_tag trim_space
has_tag-nil other h = rw (equal_fold-nil other h)

has_tag_behind :
    (e tag other : Text)
    → IsTag tag
    → has_tag (e ++ (codes "," ++ tag)) other ≡ (has_tag e other || equal_fold tag other)
unfolding has_tag
has_tag_behind e tag other h =
    rw
      (
        split_behind e tag b',' h.no_comma,
        any_tag-append (split e b',') (tag ∷ []) other,
        h.trimmed,
      )
      (ground arith)

-- `addTag` makes the tag present and changes no other: a tag is there afterwards exactly if it was
-- there before or is the added one, up to case.
pub has_tag-add_tag :
    (existing tag other : Text)
    → IsTag tag
    → other ≢ []
    → has_tag (add_tag existing tag) other ≡ (has_tag existing other || equal_fold tag other)
unfolding add_tag
has_tag-add_tag existing tag other h filled = elim (Bool-cases (has_tag existing tag)) [
  | inl e ↦ elim (Bool-cases (equal_fold tag other)) [
    | inl same ↦ rw (e, same, ← has_tag-swap existing tag other same, e)
    | inr differ ↦ rw (e, differ) (ground arith)
  ]
  | inr e ↦ elim (Bool-cases (text_eq existing [])) [
    | inl empty ↦ rw (
      e,
      empty,
      has_tag_single tag other h,
      text_eq_sound existing [] empty,
      has_tag-nil other filled,
    )
    | inr more ↦ rw (e, more) (has_tag_behind existing tag other h)
  ]
]

kept_tags-Lacks :
    (ps : List Text) (tag : Text) → All (Lacks b',') ps → All (Lacks b',') (kept_tags ps tag)
unfolding kept_tags
kept_tags-Lacks [] tag h = tt
kept_tags-Lacks (p ∷ ps) tag (h, hs) = elim (Bool-cases (text_eq (trim_space p) [])) [
  | inl e ↦ rw e (kept_tags-Lacks ps tag hs)
  | inr e ↦ elim (Bool-cases (equal_fold (trim_space p) tag)) [
    | inl k ↦ rw (e, k) (kept_tags-Lacks ps tag hs)
    | inr k ↦ rw (e, k) (trim_space-Lacks b',' p h, kept_tags-Lacks ps tag hs)
  ]
]

not_both :
    (t tag other : Text)
    → equal_fold t tag ≡ true
    → equal_fold other tag ≡ false
    → equal_fold t other ≡ false
not_both t tag other same differ = elim (Bool-cases (equal_fold t other)) [
  | inl e ↦ absurd (
      ground (
        arith,
        equal_fold-swap t tag other same,
        equal_fold-swap t other t e,
        equal_fold_sym t other e,
      ))
  | inr e ↦ e
]

any_tag-kept_tags :
    (ps : List Text) (tag other : Text)
    → other ≢ []
    → any_tag (kept_tags ps tag) other ≡ (any_tag ps other && not (equal_fold other tag))
unfolding kept_tags
any_tag-kept_tags [] tag other h = refl
any_tag-kept_tags (p ∷ ps) tag other h = elim (Bool-cases (text_eq (trim_space p) [])) [
  | inl e ↦
      rw (e, text_eq_sound (trim_space p) [] e, equal_fold-nil other h)
        (any_tag-kept_tags ps tag other h)
  | inr e ↦ elim (Bool-cases (equal_fold (trim_space p) tag)) [
    | inl k ↦
        rw (e, k)
          (ground (arith, any_tag-kept_tags ps tag other h, not_both (trim_space p) tag other k))
    | inr k ↦
        rw (e, k, trim_space-trim_space p)
          (ground
            (arith, any_tag-kept_tags ps tag other h, equal_fold-swap other tag (trim_space p)))
  ]
]

has_tag-join :
    (ps : List Text) (other : Text)
    → other ≢ []
    → All (Lacks b',') ps
    → has_tag (join ps (codes ",")) other ≡ any_tag ps other
unfolding has_tag
has_tag-join [] other h _ = unfold join in has_tag-nil other h
has_tag-join (p ∷ ps) other h lacks = rw (split-join (p ∷ ps) b',' (λ e. cc) lacks)

-- `removeTag` removes the tag in every spelling and changes no other: a tag is there afterwards
-- exactly if it was there before and is not the removed one, up to case.
pub has_tag-remove_tag :
    (existing tag other : Text)
    → other ≢ []
    → has_tag (remove_tag existing tag) other
      ≡ (has_tag existing other && not (equal_fold other tag))
unfolding remove_tag
has_tag-remove_tag existing tag other filled = elim (Bool-cases (text_eq existing [])) [
  | inl e ↦ rw (e, text_eq_sound existing [] e, has_tag-nil other filled)
  | inr e ↦ rw e (
      has_tag-join (kept_tags (split existing b',') tag) other filled
        (kept_tags-Lacks (split existing b',') tag (split-Lacks existing b','))
      ∙ (any_tag-kept_tags (split existing b',') tag other filled ∙ (unfold has_tag in refl)))
]
