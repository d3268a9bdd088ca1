-- ===== src/Pipeline/Outcome.antt =====
-- src/pipeline.rs: a pipeline that was built selects safely, whatever the rules.
use pbpp.Prelude.{
  ℕ, ◌≡◌, ap, subst, inl, inr, ◌⊎◌, true, false, List, Result, ok, err, ◌>>=◌, >>=-eq-ok, In,
}
use pbpp.Text.{Text}
use pbpp.Cst.{File}
use pbpp.FileSet.Parse.{parse}
use pbpp.Rules.{RuleSet}
use pbpp.Select.Decide.{is_none}
use pbpp.Select.Closure.{excludes}
use pbpp.Select.Selection.{Selected, is_kept, decisions}
use pbpp.Select.Mark.{SelectError}
use pbpp.Select.Selection.Correct.{select-refs}
use pbpp.Select.Selection.Failure.{IsFailure, select-outcome}
use pbpp.Sema.Kind.{carries_refs}
use pbpp.Sema.Symbols as Symbols
use pbpp.Sema.Symbols.{Sema, Ref, refs, IsWellFormed}
use pbpp.Sema.Build.{SemaError}
use pbpp.Sema.Analyze.{analyze}
use pbpp.Sema.Analyze.WellFormed.{analyze-IsWellFormed}
use pbpp.Pipeline.{Pipeline, of_set, of_sema, new, select}

-- The table of a pipeline is the analysis of its set.
new-analyze :
    {E : Type 0} (parse_file : Text → Result E File) (inputs : List (Text × Text)) (p : Pipeline)
    → new parse_file inputs ≡ ok p
    → analyze p.set ≡ ok p.sema
unfolding new
new-analyze {E} parse_file inputs p e =
    let (set, one, next) =
      >>=-eq-ok (of_set (parse parse_file inputs))
        (λ set. of_sema (analyze set) >>= λ sema. ok (record { set = set; sema = sema })) e in
    let (sema, two, last) =
      >>=-eq-ok (of_sema (analyze set)) (λ sema. ok (record { set = set; sema = sema })) next in
    let same : record { set = set; sema = sema } ≡ p = cc in
    subst (λ (q : Pipeline). analyze q.set ≡ ok q.sema) same (plain sema (analyze set) two)
  where
    plain : (sema : Sema) (r : Result SemaError Sema) → of_sema {E = E} r ≡ ok sema → r ≡ ok sema
    plain sema (ok s) e = let same : s ≡ sema = cc in ap ok same
    plain sema (err x) e = cc

-- Every field or method of the input that survives refers only to symbols that survive and that no
-- rule excludes.
abbrev pub IsClosed : Sema → RuleSet → Selected → Type 0
IsClosed sema rules sel =
    (i : ℕ) (r : Ref)
    → is_kept sel i ≡ true
    → carries_refs (Symbols.sym sema i).kind ≡ true
    → is_none (Symbols.sym sema i).file ≡ false
    → In r (refs sema i)
    → (is_kept sel r.target ≡ true) × (excludes (decisions sema rules r.target) ≡ false)

-- On a pipeline that was built from input texts, by whatever parser, a selection by any rules ends
-- with a result in which every surviving field or method of the input refers only to symbols that
-- survive and that no rule excludes, or with an error that holds of its input: a rule set without
-- rules, a rule that takes effect nowhere, a symbol to be kept whose reference goes to an excluded
-- target, or a kept enum of the input that would be left illegal.
pub new-select :
    {E : Type 0} (parse_file : Text → Result E File) (inputs : List (Text × Text)) (p : Pipeline)
    → new parse_file inputs ≡ ok p
    → (rules : RuleSet)
    → ((sel : Selected) × (select p rules ≡ ok sel) × IsClosed p.sema rules sel)
      ⊎ ((e : SelectError) × (select p rules ≡ err e) × IsFailure p.sema rules e)
unfolding select
new-select parse_file inputs p built rules =
    let wf = analyze-IsWellFormed p.set p.sema (new-analyze parse_file inputs p built) in
    elim (select-outcome p.sema wf rules) [
      | inl (sel, e) ↦ inl (
        sel,
        e,
        λ i r kept carries file m. select-refs p.sema wf rules sel i r e kept carries file m,
      )
      | inr failed ↦ inr failed
    ]
