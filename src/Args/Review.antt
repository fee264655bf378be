-- ===== src/Args/Review.antt =====
-- The two orders in which `tb review` takes the ID and the source.
use task_board_tools.Base.{
  true, false, List, [], ◌∷◌, Text, codes, text_eq, ◌≡◌, refl, arith, Bool-cases, inl, inr,
  text_eq_iff, All, sym,
}
use task_board_tools.SectionEdit.{is_one_of}
use task_board_tools.Args.Order.{no_value}
use task_board_tools.Args.{
  sort_args, is_flag, takes_value, reorder_args, reorder_review_args, review_source_flags,
  looks_like_task_id_arg, has_prefix,
}
use task_board_tools.Strings.{has_prefix, after_prefix}

-- A flag of `tb review` that stands alone in front of two others, the second no flag, stays there.
kept_in_front :
    (flag source id : Text)
    → text_eq flag (codes "--") ≡ false
    → is_flag flag ≡ true
    → takes_value flag ≡ false
    → text_eq id (codes "--") ≡ false
    → is_flag id ≡ false
    → reorder_args (flag ∷ source ∷ id ∷ []) ≡ flag ∷ source ∷ id ∷ []
unfolding reorder_args sort_args
kept_in_front flag source id open_ f v open_id other =
    elim (Bool-cases (text_eq source (codes "--"))) [
      | inl e ↦
          let same = (text_eq_iff source (codes "--")).0 e in rw (open_, f, v, e) (rw same refl)
      | inr e ↦ elim (Bool-cases (is_flag source)) [
        | inl g ↦ elim (Bool-cases (takes_value source)) [
          | inl t ↦ rw (open_, f, v, e, g, t) refl
          | inr t ↦ rw (open_, f, v, e, g, t, open_id, other) refl
        ]
        | inr g ↦ rw (open_, f, v, e, g, no_value source g, open_id, other) refl
      ]
    ]

no_dash :
    (id dashes : Text) → is_flag dashes ≡ true → is_flag id ≡ false → text_eq id dashes ≡ false
no_dash id dashes flag other = elim (Bool-cases (text_eq id dashes)) [
  | inr e ↦ e
  | inl e ↦
      let same : id ≡ dashes = (text_eq_iff id dashes).0 e in
      let k = rw same at other in absurd (ground arith)
]

-- What holds of every text of a list holds of one that is in it.
from_all :
    (P : Text → Type 0) (values : List Text) (x : Text)
    → All P values
    → is_one_of values x ≡ true
    → P x
from_all P [] x h e = absurd (ground arith)
from_all P (v ∷ vs) x (p, h) e = elim (Bool-cases (text_eq v x)) [
  | inl same ↦ let at : v ≡ x = (text_eq_iff v x).0 same in rw (sym at) p
  | inr other ↦ from_all P vs x h (rw other at e)
]

abbrev IsAlone : Text → Type 0
IsAlone flag =
    (text_eq flag (codes "--") ≡ false) × (is_flag flag ≡ true) × (takes_value flag ≡ false)

alone : All IsAlone review_source_flags
unfolding is_flag takes_value text_eq has_prefix after_prefix
alone = (
  (refl, refl, refl),
  ((refl, refl, refl), ((refl, refl, refl), ((refl, refl, refl), ((refl, refl, refl), tt)))),
)

dashes_are_flags : (is_flag (codes "-") ≡ true) × (is_flag (codes "--") ≡ true)
unfolding is_flag takes_value text_eq has_prefix after_prefix
dashes_are_flags = (refl, refl)

-- `tb review` takes the ID and the source in either order behind the flag, where the ID looks like one
-- and is no flag and the source does not look like an ID: both become the flag, the source and the ID,
-- which is what the flag needs.
pub reorder_review_args-orders :
    (flag id source : Text)
    → is_one_of review_source_flags flag ≡ true
    → looks_like_task_id_arg id ≡ true
    → is_flag id ≡ false
    → looks_like_task_id_arg source ≡ false
    → (reorder_review_args (flag ∷ id ∷ source ∷ []) ≡ flag ∷ source ∷ id ∷ [])
      × (reorder_review_args (flag ∷ source ∷ id ∷ []) ≡ flag ∷ source ∷ id ∷ [])
unfolding reorder_review_args
reorder_review_args-orders flag id source of_review looks other plain =
    let (open_, is, alone_) = from_all IsAlone review_source_flags flag alone of_review in
    let open_id = no_dash id (codes "--") dashes_are_flags.1 other in
    let no_stdin = no_dash id (codes "-") dashes_are_flags.0 other in
    let kept = kept_in_front flag source id open_ is alone_ open_id other in
    elim (Bool-cases (text_eq source (codes "-"))) [
      | inl e ↦ (rw (of_review, no_stdin, looks, e) kept, rw (of_review, e) kept)
      | inr e ↦ (rw (of_review, no_stdin, looks, e) kept, rw (of_review, e, no_stdin, plain) kept)
    ]
