-- ===== src/FileSet/Parse.antt =====
-- src/fileset.rs: `FileSet::parse`. The parser of one file (src/parse.rs) is a parameter.
pub mod Checked
use pbpp.Prelude.{ℕ, Bool, true, false, List, [], ◌∷◌, any, if◌then◌else◌, Result, ok, err, ◌>>=◌}
use pbpp.Text.{Text, text_eq}
use pbpp.Cst.{File}
use pbpp.Fs.{check_import_path}
use pbpp.Wkt.{is_google_protobuf_path}
use pbpp.FileSet.{SetFile, FileSet}

pub data SetError (E : Type 0) : Type 0 where
  bad_path duplicate_path : Text → SetError E
  -- The file, and what is wrong with its text.
  parse_error : Text → E → SetError E

abbrev pub of_path : {E A : Type 0} → Result Text A → Result (SetError E) A
of_path (ok a) = ok a
of_path (err path) = err (bad_path path)

abbrev pub in_file : {E A : Type 0} → Text → Result E A → Result (SetError E) A
in_file path (ok a) = ok a
in_file path (err e) = err (parse_error path e)

module _ {E : Type 0} (parse_file : Text → Result E File) where
  -- The loop over the inputs, pairs of a path and a text.
  unfoldable pub parse_each : List (Text × Text) → Result (SetError E) (List SetFile)
  unfolding check_import_path is_google_protobuf_path
  parse_each [] = ok []
  parse_each ((path, src) ∷ inputs) =
      let skipped = parse_each inputs in
      let taken = in_file path (parse_file src) >>= λ cst.
      parse_each inputs >>= λ files. ok (record { path = path; src = src; cst = cst } ∷ files) in
      of_path (check_import_path path) >>= λ checked.
      (if is_google_protobuf_path path then skipped else taken)

  -- The test for paths that are there twice.
  unfoldable pub check_unique : List Text → List SetFile → Result (SetError E) (Unit {0})
  unfolding text_eq
  check_unique seen [] = ok tt
  check_unique seen (f ∷ files) =
      let rest = check_unique (f.path ∷ seen) files in
      if any (λ p. text_eq p f.path) seen then err (duplicate_path f.path) else rest

  unfoldable pub parse : List (Text × Text) → Result (SetError E) FileSet
  unfolding parse_each check_unique
  parse inputs =
      parse_each inputs >>= λ files. check_unique [] files >>= λ u. ok (record { files = files })
