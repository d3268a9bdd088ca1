-- ===== src/Tests/Selecting.antt =====
-- The selection on the sample table: its marks, and the theorems about it there.
use pbpp.Prelude.{
  ℕ, ◌≤◌, ◌≡◌, ◌↔◌, refl, Bool, true, false, none, some, [], ◌∷◌, arith, map, inl, Result, ok, err,
}
use pbpp.Rules.{RuleSet}
use pbpp.Rules.Glob.{glob}
use pbpp.Sema.Kind.{kind_eq, is_def, carries_refs}
use pbpp.Sema.Symbols.{Ref, sym, sym_count, children, refs, segs}
use pbpp.Select.Mark.{unmarked, required, explicit, strength, conflict, SelectError}
use pbpp.Select.Decide.{
  evaluate_rules, evaluate_from, apply_rules, apply_rule, rule_matches, decide,
}
use pbpp.Select.Decide.Inherit.{Encloses}
use pbpp.Select.Closure.{close, keep, process, excludes, conflict_error}
use pbpp.Select.Closure.Reached.{Offered, Reached}
use pbpp.Select.Closure.References.{HasCascade}
use pbpp.Select.Selection.{Selected, select, is_kept, decisions, check_enum_legality}
use pbpp.Select.Selection.Enums.{StartsWithZero}
use pbpp.Select.Selection.Correct.{
  IsDecided, decisions-IsDecided, select-Reached, select-cascade, select-is_kept, select-refs,
  select-StartsWithZero,
}
use pbpp.Tests.Sample.{sample, sample-IsWellFormed, sample_rules, conflicting_rules}

-- The line names all that a run of `select` calls.
ran : RuleSet → Result SelectError Selected
unfolding select close keep process check_enum_legality evaluate_rules evaluate_from apply_rules
    apply_rule rule_matches glob kind_eq is_def carries_refs sym sym_count children refs segs decide
    is_kept
ran rules = select sample rules

abbrev nothing : Selected
nothing = record {
  marks = λ _. unmarked;
  cascade_dropped = λ _. false;
  introduced_by = λ _. none;
  decided_by = λ _. none;
}

abbrev from_ok : Result SelectError Selected → Selected
from_ok (ok sel) = sel
from_ok (err e) = nothing

abbrev is_ok : Result SelectError Selected → Bool
is_ok (ok sel) = true
is_ok (err e) = false

ok_from_ok : (r : Result SelectError Selected) → is_ok r ≡ true → r ≡ ok (from_ok r)
ok_from_ok (ok sel) h = refl
ok_from_ok (err e) h = cc

abbrev sample_selected : Selected
sample_selected = from_ok (select sample sample_rules)

sample_marks :
    map sample_selected.marks (0 ∷ 1 ∷ 2 ∷ 3 ∷ 4 ∷ 5 ∷ 6 ∷ [])
    ≡ unmarked ∷ explicit ∷ explicit ∷ unmarked ∷ required ∷ explicit ∷ explicit ∷ []
unfolding ran
sample_marks = refl

sample_ok : select sample sample_rules ≡ ok sample_selected
unfolding ran
sample_ok = ok_from_ok (select sample sample_rules) refl

sample_kept : (is_kept sample_selected 2 ≡ true) × (sample_selected.marks 5 ≡ explicit)
unfolding ran
sample_kept = (refl, refl)

conflict_found :
    select sample conflicting_rules
    ≡ err (conflict 2 4 (record { start = 0; end = 0 }) [] (some 0) 1)
unfolding ran conflict_error
conflict_found = refl

decisions-IsDecided_example :
    IsDecided sample sample-IsWellFormed sample_rules 2 (decisions sample sample_rules 2)
unfolding sym_count
decisions-IsDecided_example =
    decisions-IsDecided sample sample-IsWellFormed sample_rules 2 (omega arith)

select-Reached_example :
    (2 ≤ strength (sample_selected.marks 4)) ↔ Reached sample (decisions sample sample_rules) 4
select-Reached_example =
    select-Reached sample sample-IsWellFormed sample_rules sample_selected 4 sample_ok

select-is_kept_example :
    (is_kept sample_selected 1 ≡ true)
    ↔ ((j : ℕ) × Encloses sample 1 j × Reached sample (decisions sample sample_rules) j)
select-is_kept_example =
    select-is_kept sample sample-IsWellFormed sample_rules sample_selected 1 sample_ok

select-cascade_example : (sample_selected.cascade_dropped 3 ≡ true) ↔ (
    Offered sample (decisions sample sample_rules) 3
    × HasCascade sample (decisions sample sample_rules) 3)
select-cascade_example =
    select-cascade sample sample-IsWellFormed sample_rules sample_selected 3 sample_ok

abbrev b_to_b : Ref
b_to_b = record { span = record { start = 0; end = 0 }; target = 4 }

select-refs_example :
    (is_kept sample_selected 4 ≡ true) × (excludes (decisions sample sample_rules 4) ≡ false)
unfolding sym refs carries_refs
select-refs_example =
    select-refs sample sample-IsWellFormed sample_rules sample_selected 2 b_to_b sample_ok
      sample_kept.0 refl refl (inl refl)

select-StartsWithZero_example : StartsWithZero sample sample_selected.marks (children sample 5)
unfolding sym sym_count
select-StartsWithZero_example =
    select-StartsWithZero sample sample-IsWellFormed sample_rules sample_selected 5 sample_ok
      (omega arith) (refl, refl, rw sample_kept.1 (omega arith))
