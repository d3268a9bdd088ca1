-- ===== src/Select/Selection/Enums.antt =====
-- src/select.rs: enums stay legal.
use pbpp.Prelude.{
  ℕ, zero, suc, ◌+◌, ◌≤◌, ◌<◌, ◌≡◌, refl, inl, inr, true, false, Option, none, some, List, [], ◌∷◌,
  ◌++◌, arith, All, ltb, Bool-cases, ok, >>=-eq-ok,
}
use pbpp.Prelude.Int.{ℤ, pos, ℤ_eq_iff}
use pbpp.Sema.Kind.{SymKind, kind_eq}
use pbpp.Sema.Symbols.{Sema, sym, sym_count, children}
use pbpp.Select.Mark.{Mark, unmarked, strength}
use pbpp.Select.Decide.{is_none}
use pbpp.Select.Selection.{
  is_marked, first_marked, check_enum, check_enums, check_values, check_enum_legality, is_zero,
}

-- Some values in front are not marked, then comes a marked one, with the number zero.
pub record StartsWithZero (sema : Sema) (marks : ℕ → Mark) (cs : List ℕ) : Type 0 where
  pub before : List ℕ
  pub value : ℕ
  pub after : List ℕ
  pub splits : cs ≡ before ++ value ∷ after
  pub none_before : All (λ c. marks c ≡ unmarked) before
  pub marked : 1 ≤ strength (marks value)
  pub zero_number : (sym sema value).number ≡ some (pos 0)

module _ (sema : Sema) (marks : ℕ → Mark) where
  is_zero-eq : (o : Option ℤ) → is_zero o ≡ true → o ≡ some (pos 0)
  is_zero-eq none h = cc
  is_zero-eq (some n) h = rw ((ℤ_eq_iff n (pos 0)).0 h)

  pub unmarked_of : (m : Mark) → is_marked m ≡ false → m ≡ unmarked
  unmarked_of Mark.unmarked h = refl
  unmarked_of _ h = cc

  first_marked_lem :
      (cs : List ℕ) (v : ℕ)
      → first_marked marks cs ≡ some v
      → (sym sema v).number ≡ some (pos 0)
      → StartsWithZero sema marks cs
  unfolding first_marked
  first_marked_lem [] v e z = cc
  first_marked_lem (c ∷ cs) v e z = elim (Bool-cases (is_marked (marks c))) [
    | inl here ↦
        let same : some c ≡ some v = rw here at e in
        let eq : c ≡ v = cc in
        record {
          before = [];
          value = c;
          after = cs;
          splits = refl;
          none_before = tt;
          marked = ground arith;
          zero_number = rw eq z;
        }
    | inr later ↦
        let s = first_marked_lem cs v (rw later at e) z in
        record {
          before = c ∷ s.before;
          value = s.value;
          after = s.after;
          splits = rw (← s.splits);
          none_before = (unmarked_of (marks c) later, s.none_before);
          marked = s.marked;
          zero_number = s.zero_number;
        }
  ]

  check_values_lem :
      (sid : ℕ) (o : Option ℕ)
      → check_values sema sid o ≡ ok tt
      → (v : ℕ) × (o ≡ some v) × ((sym sema v).number ≡ some (pos 0))
  unfolding check_values
  check_values_lem sid none h = cc
  check_values_lem sid (some c) h = elim (Bool-cases (is_zero (sym sema c).number)) [
    | inl z ↦ (c, refl, is_zero-eq (sym sema c).number z)
    | inr other ↦ let clash = rw other at h in cc
  ]

  -- The enum is one of the input's, and it is kept.
  abbrev pub IsKeptEnum : ℕ → Type 0
  IsKeptEnum e =
      ((sym sema e).kind ≡ SymKind.enum)
      × (is_none (sym sema e).file ≡ false)
      × (1 ≤ strength (marks e))

  check_enum_lem :
      (e : ℕ)
      → check_enum sema marks e ≡ ok tt
      → IsKeptEnum e
      → StartsWithZero sema marks (children sema e)
  unfolding check_enum kind_eq
  check_enum_lem e h (kind, file, kept) =
      let marked : is_marked (marks e) ≡ true = ground arith in
      let values : check_values sema e (first_marked marks (children sema e)) ≡ ok tt =
        rw (kind, marked, file) at h in
      let (v, found, z) = check_values_lem e _ values in
      first_marked_lem (children sema e) v found z

  check_enums_lem :
      (n i : ℕ)
      → check_enums sema marks n i ≡ ok tt
      → (e : ℕ) → i ≤ e
      → e < i + n
      → IsKeptEnum e
      → StartsWithZero sema marks (children sema e)
  unfolding check_enums
  check_enums_lem zero i h e a b k = absurd (omega arith)
  check_enums_lem (suc n) i h e a b k =
      let (u, first, rest) =
        >>=-eq-ok (check_enum sema marks i) (λ _. check_enums sema marks n (suc i)) h in
      elim (Bool-cases (ltb i e)) [
        | inl above ↦ check_enums_lem n (suc i) rest e (ground arith) (omega arith) k
        | inr at ↦ let eq : i ≡ e = ground arith in check_enum_lem e (rw (← eq) first) k
      ]

  pub check_enum_legality_lem :
      check_enum_legality sema marks ≡ ok tt
      → (e : ℕ) → e < sym_count sema
      → IsKeptEnum e
      → StartsWithZero sema marks (children sema e)
  unfolding check_enum_legality
  check_enum_legality_lem h e b k =
      check_enums_lem (sym_count sema) 0 h e (omega arith) (omega arith) k
