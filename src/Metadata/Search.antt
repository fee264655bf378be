-- ===== src/Metadata/Search.antt =====
-- Where the search for a field ends.
use task_board_tools.Base.{
  ℕ, zero, suc, ◌+◌, ◌-◌, true, false, List, [], ◌∷◌, ◌++◌, none, some, ◌≡◌, inl, inr, refl, arith,
  Text, take, drop, Bool-cases, Option-cases, All,
}
use task_board_tools.Metadata.{metadata_start, metadata_end, has_field, find_field, field_index}

abbrev pub Lacking : Text → List Text → Type 0
Lacking field = All (λ l. has_field field l ≡ false)

-- The lines are cut at index `i`, where the first line with the field stands; `skip` lines before it
-- were not searched.
pub record Found (field : Text) (lines : List Text) (skip i : ℕ) : Type 0 where
  pub before : List Text
  pub line : Text
  pub after : List Text
  pub whole : lines ≡ before ++ line ∷ after
  pub taken : take i lines ≡ before
  pub dropped : drop (suc i) lines ≡ after
  pub holds : has_field field line ≡ true
  pub first : Lacking field (drop skip before)

find_field-Found :
    (field : Text) (n : ℕ) (lines : List Text) (i : ℕ)
    → find_field field n lines ≡ some i
    → Found field lines 0 i
unfolding find_field
find_field-Found field zero lines i h = cc
find_field-Found field (suc n) [] i h = cc
find_field-Found field (suc n) (l ∷ lines) i h = elim (Bool-cases (has_field field l)) [
  | inl e ↦
      let z : i ≡ 0 = ground arith in
      rw z (record {
        before = [];
        line = l;
        after = lines;
        whole = refl;
        taken = refl;
        dropped = refl;
        holds = e;
        first = tt;
      })
  | inr e ↦ elim (Option-cases (find_field field n lines)) [
    | inl q ↦ absurd (ground arith)
    | inr (j, q) ↦
        let z : i ≡ suc j = ground arith in
        let f = find_field-Found field n lines j q in
        rw z (record {
          before = l ∷ f.before;
          line = f.line;
          after = f.after;
          whole = λ k. l ∷ f.whole k;
          taken = λ k. l ∷ f.taken k;
          dropped = f.dropped;
          holds = f.holds;
          first = (e, f.first);
        })
  ]
]

find_field-none :
    (field : Text) (n : ℕ) (lines : List Text)
    → find_field field n lines ≡ none
    → Lacking field (take n lines)
unfolding find_field
find_field-none field zero lines h = tt
find_field-none field (suc n) [] h = tt
find_field-none field (suc n) (l ∷ lines) h = elim (Bool-cases (has_field field l)) [
  | inl e ↦ absurd (ground arith)
  | inr e ↦ (e, find_field-none field n lines (ground arith))
]

nil-ne-middle : (xs : List Text) (y : Text) (ys : List Text) → [] ≡ xs ++ y ∷ ys → ⊥
nil-ne-middle [] y ys h = cc
nil-ne-middle (x ∷ xs) y ys h = cc

-- The search may start further on.
behind-Found :
    (field : Text) (start : ℕ) (lines : List Text) (i : ℕ)
    → Found field (drop start lines) 0 i
    → Found field lines start (start + i)
behind-Found field zero lines i f = let z : 0 + i ≡ i = omega arith in rw z f
behind-Found field (suc start) [] i f = absurd (nil-ne-middle f.before f.line f.after f.whole)
behind-Found field (suc start) (l ∷ lines) i f =
    let g = behind-Found field start lines i f in
    let z : suc start + i ≡ suc (start + i) = omega arith in
    rw z (record {
      before = l ∷ g.before;
      line = g.line;
      after = g.after;
      whole = λ k. l ∷ g.whole k;
      taken = λ k. l ∷ g.taken k;
      dropped = g.dropped;
      holds = g.holds;
      first = g.first;
    })

-- The lines that `setField` and `clearField` search.
abbrev pub metadata_lines : List Text → List Text
metadata_lines lines =
    take (metadata_end lines - metadata_start lines) (drop (metadata_start lines) lines)

pub field_index-Found :
    (lines : List Text) (field : Text) (i : ℕ)
    → field_index lines field ≡ some i
    → Found field lines (metadata_start lines) i
unfolding field_index
field_index-Found lines field i h =
    let start = metadata_start lines in
    elim (Option-cases (find_field field (metadata_end lines - start) (drop start lines))) [
      | inl q ↦ absurd (ground arith)
      | inr (j, q) ↦
          let z : i ≡ start + j = ground arith in
          rw z (
            behind-Found field start lines j
              (find_field-Found field (metadata_end lines - start) (drop start lines) j q))
    ]

pub field_index-none :
    (lines : List Text) (field : Text)
    → field_index lines field ≡ none
    → Lacking field (metadata_lines lines)
unfolding field_index
field_index-none lines field h =
    let start = metadata_start lines in
    elim (Option-cases (find_field field (metadata_end lines - start) (drop start lines))) [
      | inl q ↦ find_field-none field (metadata_end lines - start) (drop start lines) q
      | inr (j, q) ↦ absurd (ground arith)
    ]
