-- ===== src/Select/Selection.antt =====
-- src/select.rs: `select`, the check of enums, and `Selected` with its accessors.
pub mod Correct
pub mod Failure
pub mod Enums
use pbpp.Prelude.{
  ℕ, zero, suc, Bool, true, false, not, ◌&&◌, ◌||◌, Option, none, some, List, [], ◌∷◌,
  if◌then◌else◌, ltb, Result, ok, err, ◌>>=◌,
}
use pbpp.Prelude.Int.{ℤ, pos, ℤ_eq}
use pbpp.Rules.{Rule, RuleSet, Polarity}
use pbpp.Sema.Kind.{SymKind, kind_eq}
use pbpp.Sema.Symbols.{Sema, sym, sym_count, children}
use pbpp.Select.Mark.{
  Mark, unmarked, below, strength, SelectError, no_rules, enum_emptied, zero_value_dropped,
}
use pbpp.Select.Decide.{Decision, evaluate, evaluate_rules, decide, is_none}
use pbpp.Select.Closure.{State, close}

pub record Selected : Type 0 where
  pub marks : ℕ → Mark
  pub cascade_dropped : ℕ → Bool
  pub introduced_by : ℕ → Option ℕ
  pub decided_by : ℕ → Option ℕ

-- `> Mark::None`.
abbrev pub is_marked : Mark → Bool
is_marked m = ltb 0 (strength m)

unfoldable pub is_kept : Selected → ℕ → Bool
is_kept sel s = is_marked (sel.marks s) && not (sel.cascade_dropped s)

-- `children(sid).iter().find(|c| marks[c] > Mark::None)`.
unfoldable pub first_marked : (ℕ → Mark) → List ℕ → Option ℕ
first_marked marks [] = none
first_marked marks (c ∷ cs) = if is_marked (marks c) then some c else first_marked marks cs

abbrev pub is_zero : Option ℤ → Bool
is_zero none = false
is_zero (some n) = ℤ_eq n (pos 0)

pub check_values : Sema → ℕ → Option ℕ → Result SelectError (Unit {0})
check_values sema sid none = err (enum_emptied sid)
check_values sema sid (some c) =
    if is_zero (sym sema c).number then ok tt else err (zero_value_dropped sid c)

-- One round of the loop of `check_enum_legality`.
unfoldable pub check_enum : Sema → (ℕ → Mark) → ℕ → Result SelectError (Unit {0})
unfolding check_values first_marked
check_enum sema marks sid =
    if not (kind_eq (sym sema sid).kind SymKind.enum) || not (is_marked (marks sid))
    then ok tt
    else if is_none (sym sema sid).file
    then ok tt
    else check_values sema sid (first_marked marks (children sema sid))

unfoldable pub check_enums : Sema → (ℕ → Mark) → ℕ → ℕ → Result SelectError (Unit {0})
check_enums sema marks zero i = ok tt
check_enums sema marks (suc n) i = check_enum sema marks i >>= λ _. check_enums sema marks n (suc i)

unfoldable pub check_enum_legality : Sema → (ℕ → Mark) → Result SelectError (Unit {0})
unfolding check_enums check_enum
check_enum_legality sema marks = check_enums sema marks (sym_count sema) 0

abbrev rule_index : Decision → Option ℕ
rule_index none = none
rule_index (some (r, p)) = some r

abbrev result : (ℕ → Decision) → State → Selected
result decision st = record {
  marks = st.marks;
  cascade_dropped = st.cascade;
  introduced_by = st.introduced;
  decided_by = λ i. rule_index (decision i);
}

-- `select` from the decisions on.
unfoldable pub select_by : Sema → (ℕ → Decision) → Result SelectError Selected
select_by sema decision =
    close sema decision >>= λ st. check_enum_legality sema st.marks >>= λ _. ok (result decision st)

pub select_rules : Sema → List Rule → Result SelectError Selected
unfolding select_by
select_rules sema [] = err no_rules
select_rules sema (r ∷ rs) =
    evaluate_rules sema (r ∷ rs) >>= λ direct. select_by sema (decide sema direct)

unfoldable pub select : Sema → RuleSet → Result SelectError Selected
unfolding select_rules
select sema rules = select_rules sema rules.rules

-- The decisions that `select` computes from the rules.
abbrev pub decisions : Sema → RuleSet → ℕ → Decision
decisions sema rules = decide sema (evaluate sema rules.rules).direct
