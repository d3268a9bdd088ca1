-- ===== src/Select/Selection/Failure.antt =====
-- src/select.rs: the errors of `select` and what each of them says of the input.
use pbpp.Prelude.{
  ℕ, zero, suc, ◌+◌, ◌≤◌, ◌<◌, ◌≡◌, ◌≢◌, ◌⊎◌, refl, inl, inr, Bool, true, false, Option, none, some,
  List, [], ◌∷◌, ◌++◌, arith, All, Bool-cases, ok, err, Result-cases, In, ◌↔◌,
}
use pbpp.Prelude.Int.{ℤ, pos}
use pbpp.Rules.{Rule, RuleSet}
use pbpp.Sema.Kind.{SymKind, kind_eq}
use pbpp.Sema.Symbols.{Sema, sym, sym_count, children, IsWellFormed}
use pbpp.Select.Mark.{
  Mark, unmarked, strength, SelectError, no_rules, dead_rule, enum_emptied, zero_value_dropped,
}
use pbpp.Select.Decide.{decide, evaluate_rules, is_none}
use pbpp.Select.Decide.Hits.{IsDead, evaluate_rules-IsLive, evaluate_rules-IsDead}
use pbpp.Select.Closure.{State, close}
use pbpp.Select.Closure.Errors.{IsCaused}
use pbpp.Select.Closure.Ends.{close-outcome}
use pbpp.Select.Selection.Enums.{IsKeptEnum, unmarked_of}
use pbpp.Select.Selection.{
  Selected, is_marked, is_zero, first_marked, check_enum, check_enums, check_values,
  check_enum_legality, select, select_by, select_rules, decisions, result,
}

-- The first of the list that is marked: all in front of it are not.
abbrev pub IsFirstMarked : (ℕ → Mark) → List ℕ → ℕ → Type 0
IsFirstMarked marks cs c =
    (before : List ℕ) × (after : List ℕ) × (cs ≡ before ++ c ∷ after)
    × All (λ x. marks x ≡ unmarked) before
    × (1 ≤ strength (marks c))

-- A kept enum of the input that is left with no value, or with a first value that is not zero.
abbrev pub IsEnumError : Sema → (ℕ → Mark) → SelectError → Type 0
IsEnumError sema marks e =
    (i : ℕ) × (i < sym_count sema)
    × IsKeptEnum sema marks i
    × ((e ≡ enum_emptied i) × All (λ c. marks c ≡ unmarked) (children sema i)
        ⊎ ((c : ℕ) × (e ≡ zero_value_dropped i c)
            × IsFirstMarked marks (children sema i) c
            × ((sym sema c).number ≢ some (pos 0))))

module _ (sema : Sema) (marks : ℕ → Mark) where
  kind_is_enum : (k : SymKind) → kind_eq k SymKind.enum ≡ true → k ≡ SymKind.enum
  unfolding kind_eq
  kind_is_enum SymKind.enum h = refl
  kind_is_enum _ h = cc

  is_marked-strength : (m : Mark) → is_marked m ≡ true → 1 ≤ strength m
  is_marked-strength m h = ground arith

  is_zero-false : (o : Option ℤ) → is_zero o ≡ false → o ≢ some (pos 0)
  is_zero-false o h same = let clash : is_zero (some (pos 0)) ≡ false = rw same at h in cc

  check_values-err :
      (i : ℕ) (o : Option ℕ) (e : SelectError)
      → check_values sema i o ≡ err e
      → (e ≡ enum_emptied i) × (o ≡ none)
        ⊎ ((c : ℕ) × (e ≡ zero_value_dropped i c)
            × (o ≡ some c)
            × (is_zero (sym sema c).number ≡ false))
  unfolding check_values
  check_values-err i none e h = inl (cc, refl)
  check_values-err i (some c) e h = elim (Bool-cases (is_zero (sym sema c).number)) [
    | inl z ↦ let clash : ok tt ≡ err e = rw z at h in cc
    | inr z ↦ let same : err (zero_value_dropped i c) ≡ err e = rw z at h in inr (c, cc, refl, z)
  ]

  first_marked-none :
      (cs : List ℕ) → first_marked marks cs ≡ none → All (λ c. marks c ≡ unmarked) cs
  unfolding first_marked
  first_marked-none [] h = tt
  first_marked-none (c ∷ cs) h = elim (Bool-cases (is_marked (marks c))) [
    | inl here ↦ let clash : some c ≡ none = rw here at h in cc
    | inr later ↦ (unmarked_of sema marks (marks c) later, first_marked-none cs (rw later at h))
  ]

  first_marked-some :
      (cs : List ℕ) (v : ℕ) → first_marked marks cs ≡ some v → IsFirstMarked marks cs v
  unfolding first_marked
  first_marked-some [] v h = cc
  first_marked-some (c ∷ cs) v h = elim (Bool-cases (is_marked (marks c))) [
    | inl here ↦
        let same : some c ≡ some v = rw here at h in
        let eq : c ≡ v = cc in ([], cs, rw eq, tt, rw eq at (is_marked-strength (marks c) here))
    | inr later ↦
        let (before, after, splits, none_before, is) = first_marked-some cs v (rw later at h) in
        (c ∷ before, after, rw splits, (unmarked_of sema marks (marks c) later, none_before), is)
  ]

  check_enum-err :
      (i : ℕ) (e : SelectError)
      → i < sym_count sema
      → check_enum sema marks i ≡ err e
      → IsEnumError sema marks e
  unfolding check_enum
  check_enum-err i e below h = elim (Bool-cases (kind_eq (sym sema i).kind SymKind.enum)) [
    | inr other ↦ let clash : ok tt ≡ err e = rw other at h in cc
    | inl enum ↦ elim (Bool-cases (is_marked (marks i))) [
      | inr low ↦ let clash : ok tt ≡ err e = rw (enum, low) at h in cc
      | inl marked ↦ elim (Bool-cases (is_none (sym sema i).file)) [
        | inl builtin ↦ let clash : ok tt ≡ err e = rw (enum, marked, builtin) at h in cc
        | inr file ↦ (
          i,
          below,
          (kind_is_enum (sym sema i).kind enum, file, is_marked-strength (marks i) marked),
          elim (check_values-err i (first_marked marks (children sema i)) e
              (rw (enum, marked, file) at h)) [
                | inl (is, gone) ↦ inl (is, first_marked-none (children sema i) gone)
                | inr (c, is, first, number) ↦ inr (
                  c,
                  is,
                  first_marked-some (children sema i) c first,
                  is_zero-false (sym sema c).number number,
                )
              ],
        )
      ]
    ]
  ]

  check_enums-err :
      (n i : ℕ) (e : SelectError)
      → i + n ≤ sym_count sema
      → check_enums sema marks n i ≡ err e
      → IsEnumError sema marks e
  unfolding check_enums
  check_enums-err zero i e room h = cc
  check_enums-err (suc n) i e room h = elim (Result-cases (check_enum sema marks i)) [
    | inl (u, fine) ↦ check_enums-err n (suc i) e (omega arith) (rw fine at h)
    | inr (x, fails) ↦
        let same : err x ≡ err e = rw fails at h in
        let eq : x ≡ e = cc in check_enum-err i e (omega arith) (rw eq at fails)
  ]

-- What an error of `select` says.
pub data IsFailure (sema : Sema) (rules : RuleSet) (e : SelectError) : Type 0 where
  -- There is no rule.
  empty : rules.rules ≡ [] → e ≡ no_rules → IsFailure sema rules e
  -- Rules take effect nowhere: the first of them, and the others.
  dead :
      (first : ℕ) (wkt hint : Bool) (others : List ℕ)
      → e ≡ dead_rule first wkt hint others
      → ((j : ℕ) → In j (first ∷ others) ↔ IsDead sema rules.rules j)
      → ((j : ℕ) → In j others → first < j)
      → IsFailure sema rules e
  -- A symbol to be kept refers to an excluded one.
  caused : IsCaused sema (decisions sema rules) e → IsFailure sema rules e
  -- The closure succeeds, and an enum would be left illegal.
  illegal_enum :
      (st : State)
      → close sema (decisions sema rules) ≡ ok st
      → IsEnumError sema st.marks e
      → IsFailure sema rules e

module _ (sema : Sema) (wf : IsWellFormed sema) (rules : RuleSet) where
  enums_outcome :
      (st : State)
      → close sema (decisions sema rules) ≡ ok st
      → ((sel : Selected) × (select_by sema (decisions sema rules) ≡ ok sel))
        ⊎ ((e : SelectError) × (select_by sema (decisions sema rules) ≡ err e)
            × IsFailure sema rules e)
  unfolding select_by check_enum_legality
  enums_outcome st closed = elim (Result-cases (check_enum_legality sema st.marks)) [
    | inl (u, fine) ↦ inl (result (decisions sema rules) st, rw (closed, fine))
    | inr (e, fails) ↦ inr (
      e,
      rw (closed, fails),
      illegal_enum st closed
          (check_enums-err sema st.marks (sym_count sema) 0 e (omega arith) fails),
    )
  ]

  by_outcome :
      ((sel : Selected) × (select_by sema (decisions sema rules) ≡ ok sel))
      ⊎ ((e : SelectError) × (select_by sema (decisions sema rules) ≡ err e)
          × IsFailure sema rules e)
  by_outcome = elim (close-outcome sema (decisions sema rules) wf) [
    | inl (st, closed) ↦ enums_outcome st closed
    | inr (e, fails, cause) ↦ inr (e, unfold select_by in rw fails, caused cause)
  ]

  rules_outcome :
      (rs : List Rule)
      → rules.rules ≡ rs
      → ((sel : Selected) × (select_rules sema rs ≡ ok sel))
        ⊎ ((e : SelectError) × (select_rules sema rs ≡ err e) × IsFailure sema rules e)
  unfolding select_rules
  rules_outcome [] none_given = inr (no_rules, refl, empty none_given refl)
  rules_outcome (r ∷ rs) given = elim (Result-cases (evaluate_rules sema (r ∷ rs))) [
    | inr (e, fails) ↦
        let (first, wkt, hint, others, is, all, least) =
          evaluate_rules-IsDead sema (r ∷ rs) e fails in
        inr (e, rw fails, dead first wkt hint others is (rw given all) least)
    | inl (direct, fine) ↦
        let by : decide sema direct ≡ decisions sema rules =
          rw ((evaluate_rules-IsLive sema (r ∷ rs) direct fine).0, given) in
        elim by_outcome [
          | inl (sel, done) ↦ inl (sel, rw (fine, by) done)
          | inr (e, fails, why) ↦ inr (e, rw (fine, by) fails, why)
        ]
  ]

  pub select-outcome :
      ((sel : Selected) × (select sema rules ≡ ok sel))
      ⊎ ((e : SelectError) × (select sema rules ≡ err e) × IsFailure sema rules e)
  unfolding select
  select-outcome = rules_outcome rules.rules refl
