-- ===== src/Tests/Pipelines.antt =====
-- A pipeline over one file with `message B {}`, read by a parser that knows this one text.
use pbpp.Prelude.{
  ◌≡◌, ◌⊎◌, refl, Bool, true, false, none, List, [], ◌∷◌, if◌then◌else◌, All, Result, ok, err,
}
use pbpp.Text.{Text, codes, text_eq}
use pbpp.Cst.{File}
use pbpp.FileSet.{SetFile, FileSet}
use pbpp.FileSet.Parse.{SetError, parse}
use pbpp.FileSet.Parse.Checked.{sources, outside, IsParsed, AllDistinct, parse-AllDistinct}
use pbpp.Fs.{check_import_path}
use pbpp.Rules.{RuleSet, Polarity, lit}
use pbpp.Select.Mark.{SelectError}
use pbpp.Select.Selection.{Selected}
use pbpp.Select.Selection.Failure.{IsFailure}
use pbpp.Sema.Symbols.{sym_count}
use pbpp.Pipeline.{Pipeline, PipelineError, new, select}
use pbpp.Pipeline.Outcome.{IsClosed, new-select}
use pbpp.Tests.Building.{file_of, message_b, table}

-- `package a; message B {}` is the only text that it reads.
abbrev parse_b : Text → Result Text File
parse_b src =
    if text_eq src (codes "message B {}")
    then ok (file_of (codes "") [] (message_b ∷ []) 3).cst
    else err src

abbrev inputs : List (Text × Text)
inputs =
    (codes "google/protobuf/any.proto", codes "") ∷ (codes "b.proto", codes "message B {}") ∷ []

abbrev set_of : Result (SetError Text) FileSet → FileSet
set_of (ok set) = set
set_of (err e) = record { files = [] }

abbrev b_file : SetFile
b_file = record {
  path = codes "b.proto";
  src = codes "message B {}";
  cst = (file_of (codes "") [] (message_b ∷ []) 3).cst;
}

abbrev b_set : FileSet
b_set = record { files = b_file ∷ [] }

set_parsed : parse parse_b inputs ≡ ok b_set
unfolding parse check_import_path text_eq
set_parsed = refl

parse-AllDistinct_example :
    (sources b_set.files ≡ outside inputs)
    × All (IsParsed parse_b) b_set.files
    × AllDistinct b_set.files
parse-AllDistinct_example = parse-AllDistinct parse_b inputs b_set set_parsed

succeeds : Result (PipelineError Text) Pipeline → Bool
succeeds (ok p) = true
succeeds (err e) = false

abbrev or_empty : Result (PipelineError Text) Pipeline → Pipeline
or_empty (ok p) = p
or_empty (err e) = record { set = b_set; sema = table }

unfoldable built : Pipeline
built = or_empty (new parse_b inputs)

or_empty_lem : (r : Result (PipelineError Text) Pipeline) → succeeds r ≡ true → r ≡ ok (or_empty r)
unfolding succeeds
or_empty_lem (ok p) h = refl
or_empty_lem (err e) h = cc

building_succeeds : succeeds (new parse_b inputs) ≡ true
unfolding succeeds new sym_count text_eq
building_succeeds = refl

built_lem : new parse_b inputs ≡ ok built
unfolding built
built_lem = or_empty_lem (new parse_b inputs) building_succeeds

abbrev keep_b : RuleSet
keep_b = record {
  rules =
      record {
        polarity = Polarity.keep;
        pattern = lit (codes "B") ∷ [];
        kind = none;
        raw = codes "+ B";
        span = none;
      }
      ∷ [];
  src = none;
}

new-select_example :
    ((sel : Selected) × (select built keep_b ≡ ok sel) × IsClosed built.sema keep_b sel)
    ⊎ ((e : SelectError) × (select built keep_b ≡ err e) × IsFailure built.sema keep_b e)
new-select_example = new-select parse_b inputs built built_lem keep_b
