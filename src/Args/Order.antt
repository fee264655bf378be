-- ===== src/Args/Order.antt =====
-- What the reordering of the arguments keeps.
use task_board_tools.Base.{
  ℕ, ◌+◌, Bool, true, false, List, [], ◌∷◌, ◌++◌, Text, codes, text_eq, if◌then◌else◌, ◌≡◌, arith,
  Bool-cases, inl, inr, zero, text_eq_iff, All, refl, ◌∙◌, ap, append-nil, append_assoc,
}
use task_board_tools.Args.{
  Sorted, sort_args, laid_out, is_flag, takes_value, reorder_args, put_flag, put_positional,
}

abbrev here : Text → Text → ℕ
here x y = if text_eq x y then 1 else 0

-- How often an argument occurs.
abbrev pub occurrences : Text → List Text → ℕ
occurrences x [] = zero
occurrences x (y ∷ ys) = here x y + occurrences x ys

occurrences-append :
    (x : Text) (xs ys : List Text) → occurrences x (xs ++ ys) ≡ occurrences x xs + occurrences x ys
occurrences-append x [] ys = ground arith
occurrences-append x (z ∷ zs) ys = rw (occurrences-append x zs ys) (omega arith)

abbrev mark : Text → Bool → ℕ
mark x true = here x (codes "--")
mark x false = zero

-- What is in the parts, and the terminator if there is one.
abbrev parts : Text → Sorted → ℕ
parts x s =
    occurrences x s.flags + (occurrences x s.positional + (mark x s.ended + occurrences x s.rest))

sort_args-parts :
    (x : Text) (b : Bool) (args : List Text) → parts x (sort_args b args) ≡ occurrences x args
unfolding sort_args
sort_args-parts x true [] = ground arith
sort_args-parts x false [] = ground arith
sort_args-parts x true (arg ∷ args) = let h = sort_args-parts x false args in omega arith
sort_args-parts x false (arg ∷ args) = elim (Bool-cases (text_eq arg (codes "--"))) [
  | inl e ↦
      let same : arg ≡ codes "--" = (text_eq_iff arg (codes "--")).0 e in rw (e, same) (omega arith)
  | inr e ↦
      let h = sort_args-parts x (takes_value arg) args in
      elim (Bool-cases (is_flag arg)) [
        | inl f ↦ rw (e, f) (omega arith)
        | inr f ↦ rw (e, f) (omega arith)
      ]
]

laid_out-parts : (x : Text) (s : Sorted) → s.ended ≡ true → occurrences x (laid_out s) ≡ parts x s
laid_out-parts x s e =
    rw
      (
        e,
        occurrences-append x s.flags (codes "--" ∷ (s.positional ++ s.rest)),
        occurrences-append x s.positional s.rest,
      )
      (omega arith)

-- Without a terminator nothing is behind one.
rest-open :
    (b : Bool) (args : List Text) → (sort_args b args).ended ≡ false → (sort_args b args).rest ≡ []
unfolding sort_args
rest-open true [] h = refl
rest-open false [] h = refl
rest-open true (arg ∷ args) h = rest-open false args h
rest-open false (arg ∷ args) h = elim (Bool-cases (text_eq arg (codes "--"))) [
  | inl e ↦ let k = rw e at h in absurd (ground arith)
  | inr e ↦ elim (Bool-cases (is_flag arg)) [
    | inl f ↦
        let k : (sort_args (takes_value arg) args).ended ≡ false = rw (e, f) at h in
        rw (e, f) (rest-open (takes_value arg) args k)
    | inr f ↦
        let k : (sort_args (takes_value arg) args).ended ≡ false = rw (e, f) at h in
        rw (e, f) (rest-open (takes_value arg) args k)
  ]
]

reorder_args-occurrences :
    (x : Text) (args : List Text) → occurrences x (reorder_args args) ≡ occurrences x args
unfolding reorder_args
reorder_args-occurrences x args =
    let s = sort_args false args in
    let whole = sort_args-parts x false args in
    elim (Bool-cases s.ended) [
      | inl e ↦ laid_out-parts x s e ∙ whole
      | inr e ↦
          let none_behind = rest-open false args e in
          let k : occurrences x s.flags + occurrences x s.positional ≡ occurrences x args =
            let w = rw (e, none_behind) at whole in omega arith in
          rw (e, occurrences-append x s.flags s.positional) k
    ]

-- Arguments that are flags with their values, read from the state `b`, and the state after them.
abbrev after_flags : Bool → List Text → Bool
after_flags b [] = b
after_flags true (arg ∷ args) = after_flags false args
after_flags false (arg ∷ args) = after_flags (takes_value arg) args

abbrev AreFlags : Bool → List Text → Type 0
AreFlags b [] = Unit
AreFlags true (arg ∷ args) = AreFlags false args
AreFlags false (arg ∷ args) =
    (text_eq arg (codes "--") ≡ false) × (is_flag arg ≡ true) × AreFlags (takes_value arg) args

abbrev IsPositional : Text → Type 0
IsPositional arg = (text_eq arg (codes "--") ≡ false) × (is_flag arg ≡ false)

pub no_value : (arg : Text) → is_flag arg ≡ false → takes_value arg ≡ false
unfolding is_flag
no_value arg f = ground arith

-- What the loop makes out of flags and of others.
record Clean (b : Bool) (s : Sorted) : Type 0 where
  flags : AreFlags b s.flags
  positional : All IsPositional s.positional
  complete : s.ended ≡ true → after_flags b s.flags ≡ false

sort_args-Clean : (b : Bool) (args : List Text) → Clean b (sort_args b args)
unfolding sort_args
sort_args-Clean b [] = record { flags = tt; positional = tt; complete = λ h. absurd (ground arith) }
sort_args-Clean true (arg ∷ args) =
    let c = sort_args-Clean false args in
    record { flags = c.flags; positional = c.positional; complete = c.complete }
sort_args-Clean false (arg ∷ args) =
    let c = sort_args-Clean (takes_value arg) args in
    elim (Bool-cases (text_eq arg (codes "--"))) [
      | inl e ↦ rw e (record { flags = tt; positional = tt; complete = λ _. refl })
      | inr e ↦ elim (Bool-cases (is_flag arg)) [
        | inl f ↦
            rw (e, f)
              (record { flags = (e, f, c.flags); positional = c.positional; complete = c.complete })
        | inr f ↦
            let v = no_value arg f in
            let k = rw v at c in
            rw (e, f, v)
              (record {
                flags = k.flags;
                positional = ((e, f), k.positional);
                complete = k.complete;
              })
      ]
    ]

-- What comes behind flags is read from the state after them.
sort_args-flags :
    (b : Bool) (fs args : List Text)
    → AreFlags b fs
    → sort_args b (fs ++ args) ≡ record (sort_args (after_flags b fs) args) {
      flags = fs ++ (sort_args (after_flags b fs) args).flags;
    }
unfolding sort_args
sort_args-flags b [] args h = refl
sort_args-flags true (f ∷ fs) args h = ap (put_flag f) (sort_args-flags false fs args h)
sort_args-flags false (f ∷ fs) args (open_, flag, h) =
    rw (open_, flag) (ap (put_flag f) (sort_args-flags (takes_value f) fs args h))

sort_args-positional :
    (ps : List Text)
    → All IsPositional ps
    → sort_args false ps ≡ record { flags = []; positional = ps; ended = false; rest = [] }
unfolding sort_args
sort_args-positional [] h = refl
sort_args-positional (p ∷ ps) ((open_, other), h) =
    rw (open_, other, no_value p other) (ap (put_positional p) (sort_args-positional ps h))

-- The same once more, by the state after the flags: a flag without its value takes the first other
-- argument, which is where it stands already.
relaid :
    (b : Bool) (fs ps : List Text)
    → All IsPositional ps
    → laid_out (record (sort_args b ps) { flags = fs ++ (sort_args b ps).flags }) ≡ fs ++ ps
unfolding sort_args
relaid false fs ps h = rw (sort_args-positional ps h, append-nil fs) refl
relaid true fs [] h = append-nil (fs ++ [])
relaid true fs (p ∷ ps) (_, h) = rw (sort_args-positional ps h) (append_assoc fs (p ∷ []) ps)

again : (s : Sorted) → Clean false s → laid_out (sort_args false (laid_out s)) ≡ laid_out s
unfolding sort_args text_eq
again s c = elim (Bool-cases s.ended) [
  | inl e ↦
      rw
        (
          e,
          sort_args-flags false s.flags (codes "--" ∷ (s.positional ++ s.rest)) c.flags,
          c.complete e,
          append-nil s.flags,
        )
        refl
  | inr e ↦
      rw (e, sort_args-flags false s.flags s.positional c.flags)
        (relaid (after_flags false s.flags) s.flags s.positional c.positional)
]

-- The reordering keeps every argument, as often as it occurs, and done twice it does what it does once.
pub reorder_args_settles :
    (args : List Text)
    → ((x : Text) → occurrences x (reorder_args args) ≡ occurrences x args)
      × (reorder_args (reorder_args args) ≡ reorder_args args)
unfolding reorder_args
reorder_args_settles args = (
  λ x. reorder_args-occurrences x args,
  again (sort_args false args) (sort_args-Clean false args),
)
