-- ===== src/Select/Decide.antt =====
-- src/select.rs: `evaluate_rules` and the pass that hands decisions down the tree.
pub mod Inherit
pub mod Direct
pub mod Hits
use pbpp.Prelude.{
  ℕ, zero, suc, ◌+◌, ◌<◌, ◌≡◌, Bool, true, false, not, ◌&&◌, Option, none, some, List, [], ◌∷◌, ltb,
  ◌==◌, if◌then◌else◌, update, any, length, Result, ok, err, ◌>>=◌, take,
}
use pbpp.Text.{Text, text_eq}
use pbpp.Rules.{Polarity, Rule, RuleSet, PatSeg, lit, star, double_star}
use pbpp.Rules.Glob.{glob}
use pbpp.Sema.Kind.{SymKind, kind_eq}
use pbpp.Sema.Symbols.{Sema, Symbol, sym_count, sym, segs}
use pbpp.Select.Mark.{SelectError, no_rules, dead_rule}

-- A rule's index and its polarity.
abbrev pub Decision : Type 0
Decision = Option (ℕ × Polarity)

unfoldable pub rule_matches : Rule → SymKind → List Text → Bool
rule_matches rule kind path = elim rule.kind [
  | none ↦ glob rule.pattern path
  | some k ↦ kind_eq k kind && glob rule.pattern path
]

abbrev pub is_keep : Polarity → Bool
is_keep Polarity.keep = true
is_keep _ = false

abbrev pub is_none {ℓ} : {A : Type ℓ} → Option A → Bool
is_none none = true
is_none (some _) = false

-- The arrays of `evaluate_rules`.
pub record Evaluation : Type 0 where
  pub direct : ℕ → Decision
  pub hits : ℕ → ℕ
  pub wkt_only : ℕ → Bool

-- The body of the inner loop: rule `ri` at symbol `sid`.
unfoldable pub apply_rule : Sema → ℕ → ℕ → Rule → Evaluation → Evaluation
apply_rule sema sid ri rule e =
    if rule_matches rule (sym sema sid).kind (segs sema sid)
    then if is_none (sym sema sid).file && is_keep rule.polarity
      then record e { wkt_only = update e.wkt_only ri true }
      else record e {
        hits = update e.hits ri (e.hits ri + 1);
        direct = update e.direct sid (some (ri, rule.polarity));
      }
    else e

-- The inner loop, from rule `ri` on.
unfoldable pub apply_rules : Sema → ℕ → ℕ → List Rule → Evaluation → Evaluation
apply_rules sema sid ri [] e = e
apply_rules sema sid ri (rule ∷ rules) e =
    apply_rules sema sid (suc ri) rules (apply_rule sema sid ri rule e)

-- The outer loop: `n` symbols from `sid` on.
unfoldable pub evaluate_from : Sema → List Rule → ℕ → ℕ → Evaluation → Evaluation
evaluate_from sema rules zero sid e = e
evaluate_from sema rules (suc n) sid e =
    evaluate_from sema rules n (suc sid) (apply_rules sema sid 0 rules e)

abbrev pub no_evaluation : Evaluation
no_evaluation = record { direct = λ _. none; hits = λ _. 0; wkt_only = λ _. false }

unfoldable pub evaluate : Sema → List Rule → Evaluation
evaluate sema rules = evaluate_from sema rules (sym_count sema) 0 no_evaluation

-- The indices below `ri + n` whose count is zero, from `ri` on.
unfoldable pub dead_from : (ℕ → ℕ) → ℕ → ℕ → List ℕ
dead_from hits zero ri = []
dead_from hits (suc n) ri =
    let rest = dead_from hits n (suc ri) in if hits ri == 0 then ri ∷ rest else rest

-- `None` unless every segment is a literal.
literals : List PatSeg → Option (List Text)
literals [] = some []
literals (lit l ∷ pat) = elim (literals pat) [ none ↦ none | some ls ↦ some (l ∷ ls) ]
literals (star ∷ pat) = none
literals (double_star ∷ pat) = none

-- `segs.len() > lits.len() && segs[..lits.len()] == lits[..]`.
strictly_under : List Text → List Text → Bool
strictly_under [] [] = false
strictly_under [] (s ∷ ss) = true
strictly_under (l ∷ ls) [] = false
strictly_under (l ∷ ls) (s ∷ ss) = text_eq l s && strictly_under ls ss

any_symbol : (ℕ → Bool) → ℕ → Bool
any_symbol p zero = false
any_symbol p (suc n) = if p n then true else any_symbol p n

unfoldable pub prefix_of_some_symbol : List PatSeg → Sema → Bool
unfolding literals strictly_under any_symbol
prefix_of_some_symbol pat sema = elim (literals pat) [
  | none ↦ false
  | some lits ↦ any_symbol (λ i. strictly_under lits (segs sema i)) (sym_count sema)
]

abbrev pub pattern_of : List Rule → ℕ → List PatSeg
pattern_of [] i = []
pattern_of (r ∷ rs) zero = r.pattern
pattern_of (r ∷ rs) (suc i) = pattern_of rs i

unfoldable pub report_dead :
    Sema → List Rule → Evaluation → List ℕ → Result SelectError (ℕ → Decision)
report_dead sema rules e [] = ok e.direct
report_dead sema rules e (first ∷ others) = err (
    dead_rule first (e.wkt_only first) (prefix_of_some_symbol (pattern_of rules first) sema) others)

unfoldable pub evaluate_rules : Sema → List Rule → Result SelectError (ℕ → Decision)
unfolding evaluate report_dead dead_from
evaluate_rules sema rules =
    let e = evaluate sema rules in report_dead sema rules e (dead_from e.hits (length rules) 0)

-- Later rules override earlier ones, regardless of depth.
unfoldable pub combine : Decision → Decision → Decision
combine (some (own_rule, own)) (some (parent_rule, parent)) =
    if ltb own_rule parent_rule then some (parent_rule, parent) else some (own_rule, own)
combine d none = d
combine none p = p

unfoldable pub inherited : (ℕ → Decision) → Option ℕ → Decision
inherited decision none = none
inherited decision (some p) = decision p

-- The forward pass: `n` symbols from `i` on.
unfoldable pub decide_from : Sema → (ℕ → Decision) → ℕ → ℕ → (ℕ → Decision) → ℕ → Decision
decide_from sema direct zero i decision = decision
decide_from sema direct (suc n) i decision =
    decide_from sema direct n (suc i)
      (update decision i (combine (direct i) (inherited decision (sym sema i).parent)))

unfoldable pub decide : Sema → (ℕ → Decision) → ℕ → Decision
unfolding decide_from combine inherited
decide sema direct = decide_from sema direct (sym_count sema) 0 (λ _. none)
