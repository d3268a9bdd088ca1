-- ===== src/Pipeline.antt =====
-- src/pipeline.rs: `Pipeline`, from the input texts to a selection. The parser of one file is a
-- parameter.
pub mod Outcome
use pbpp.Prelude.{List, Result, ok, err, ◌>>=◌}
use pbpp.Text.{Text}
use pbpp.Cst.{File}
use pbpp.FileSet.{FileSet}
use pbpp.FileSet.Parse.{SetError, parse}
use pbpp.Rules.{RuleSet}
use pbpp.Select.Selection as Selection
use pbpp.Select.Selection.{Selected}
use pbpp.Select.Mark.{SelectError}
use pbpp.Sema.Symbols.{Sema}
use pbpp.Sema.Build.{SemaError}
use pbpp.Sema.Analyze.{analyze}

pub record Pipeline : Type 0 where
  pub set : FileSet
  pub sema : Sema

pub data PipelineError (E : Type 0) : Type 0 where
  in_set : SetError E → PipelineError E
  in_sema : SemaError → PipelineError E

abbrev pub of_set : {E A : Type 0} → Result (SetError E) A → Result (PipelineError E) A
of_set (ok a) = ok a
of_set (err e) = err (in_set e)

abbrev pub of_sema : {E A : Type 0} → Result SemaError A → Result (PipelineError E) A
of_sema (ok a) = ok a
of_sema (err e) = err (in_sema e)

-- `Pipeline::new`.
unfoldable pub new :
    {E : Type 0} → (Text → Result E File) → List (Text × Text) → Result (PipelineError E) Pipeline
unfolding parse analyze
new parse_file inputs = of_set (parse parse_file inputs) >>= λ set.
    of_sema (analyze set) >>= λ sema. ok (record { set = set; sema = sema })

-- `Pipeline::select`.
unfoldable pub select : Pipeline → RuleSet → Result SelectError Selected
unfolding Selection.select
select p rules = Selection.select p.sema rules
