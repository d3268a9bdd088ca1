-- ===== src/FileSet/Parse/Checked.antt =====
-- src/fileset.rs: the set that `FileSet::parse` answers with.
use pbpp.Prelude.{
  ◌≡◌, ◌≢◌, ◌∙◌, refl, sym, ap, subst, inl, inr, true, false, Bool-cases, List, [], ◌∷◌, arith, any,
  In, All, if◌then◌else◌, Result, ok, err, ◌>>=◌, >>=-eq-ok,
}
use pbpp.Text.{Text, text_eq}
use pbpp.Text.Laws.{text_eq_refl}
use pbpp.Cst.{File}
use pbpp.Fs.{valid_import_path, check_import_path}
use pbpp.Wkt.{is_google_protobuf_path}
use pbpp.FileSet.{SetFile, FileSet}
use pbpp.FileSet.Parse.{
  SetError, bad_path, duplicate_path, of_path, in_file, parse_each, check_unique, parse,
}

-- The inputs outside `google/protobuf/`.
unfoldable pub outside : List (Text × Text) → List (Text × Text)
outside [] = []
outside ((path, src) ∷ inputs) =
    if is_google_protobuf_path path then outside inputs else (path, src) ∷ outside inputs

abbrev pub sources : List SetFile → List (Text × Text)
sources [] = []
sources (f ∷ files) = (f.path, f.src) ∷ sources files

-- No two files have one path.
abbrev pub AllDistinct : List SetFile → Type 0
AllDistinct [] = Unit
AllDistinct (f ∷ files) = All (λ (g : SetFile). f.path ≢ g.path) files × AllDistinct files

module _ {E : Type 0} (parse_file : Text → Result E File) where
  -- The path is valid, and the tree is the parse of the text.
  abbrev pub IsParsed : SetFile → Type 0
  IsParsed f = (valid_import_path f.path ≡ true) × (parse_file f.src ≡ ok f.cst)

  check_lem :
      (path : Text) (u : Unit {0})
      → of_path {E = E} (check_import_path path) ≡ ok u
      → valid_import_path path ≡ true
  unfolding check_import_path
  check_lem path u e = elim (Bool-cases (valid_import_path path)) [
    | inl valid ↦ valid
    | inr bad ↦
        let clash : ◌≡◌ {A = Result (SetError E) (Unit {0})} (err (bad_path path)) (ok u) =
          rw bad at e in
        cc
  ]

  in_file_lem :
      (path src : Text) (cst : File)
      → in_file path (parse_file src) ≡ ok cst
      → parse_file src ≡ ok cst
  in_file_lem path src cst e = plain (parse_file src) e
    where
      plain : (r : Result E File) → in_file path r ≡ ok cst → r ≡ ok cst
      plain (ok c) e = let same : c ≡ cst = cc in ap ok same
      plain (err x) e = cc

  parse_each-All :
      (inputs : List (Text × Text)) (files : List SetFile)
      → parse_each parse_file inputs ≡ ok files
      → (sources files ≡ outside inputs) × All IsParsed files
  unfolding parse_each outside
  parse_each-All [] files e =
      let same : [] ≡ files = cc in
      subst (λ (fs : List SetFile). (sources fs ≡ []) × All IsParsed fs) same (refl, tt)
  parse_each-All ((path, src) ∷ inputs) files e =
      let (u, checked, next) = >>=-eq-ok (of_path (check_import_path path)) _ e in
      let valid = check_lem path u checked in
      elim (Bool-cases (is_google_protobuf_path path)) [
        | inl google ↦ rw google (parse_each-All inputs files (rw google at next))
        | inr other ↦
            let (cst, parsed, more) =
              >>=-eq-ok (in_file path (parse_file src))
                (λ cst. parse_each parse_file inputs >>= λ fs.
                  ok (record { path = path; src = src; cst = cst } ∷ fs))
                (rw other at next) in
            let (rest, tail, last) =
              >>=-eq-ok (parse_each parse_file inputs)
                (λ fs. ok (record { path = path; src = src; cst = cst } ∷ fs)) more in
            let same : record { path = path; src = src; cst = cst } ∷ rest ≡ files = cc in
            let (all_in, all_parsed) = parse_each-All inputs rest tail in
            rw other (
              subst
                (λ (fs : List SetFile).
                  (sources fs ≡ (path, src) ∷ outside inputs) × All IsParsed fs)
                same
                (
                  ap (λ (l : List (Text × Text)). (path, src) ∷ l) all_in,
                  ((valid, in_file_lem path src cst parsed), all_parsed),
                ))
      ]

  seen_lem : (p : Text) (seen : List Text) → In p seen → any (λ q. text_eq q p) seen ≡ true
  seen_lem p [] m = absurd m
  seen_lem p (q ∷ seen) (inl e) = let same = text_eq_refl p in rw (sym e) (ground arith)
  seen_lem p (q ∷ seen) (inr m) = ground (arith, seen_lem p seen m)

  check_unique-AllDistinct :
      (seen : List Text) (files : List SetFile) (u : Unit {0})
      → check_unique parse_file seen files ≡ ok u
      → ((p : Text) → In p seen → All (λ (g : SetFile). p ≢ g.path) files) × AllDistinct files
  unfolding check_unique
  check_unique-AllDistinct seen [] u e = (λ p m. tt, tt)
  check_unique-AllDistinct seen (f ∷ files) u e =
      elim (Bool-cases (any (λ p. text_eq p f.path) seen)) [
        | inl twice ↦
            let clash : ◌≡◌ {A = Result (SetError E) (Unit {0})} (err (duplicate_path f.path))
                (ok u) =
              rw twice at e in
            cc
        | inr once ↦
            let (apart, distinct) =
              check_unique-AllDistinct (f.path ∷ seen) files u (rw once at e) in
            (
              λ p m. (
                λ same.
                    (let hit = seen_lem f.path seen (subst (λ (q : Text). In q seen) same m) in
                      let clash : true ≡ false = sym hit ∙ once in cc),
                apart p (inr m),
              ),
              (apart f.path (inl refl), distinct),
            )
      ]

  -- The set that is parsed holds, in their order, exactly the inputs outside `google/protobuf/`, each
  -- with a valid import path and the tree of its text, and no two of them have one path.
  pub parse-AllDistinct :
      (inputs : List (Text × Text)) (set : FileSet)
      → parse parse_file inputs ≡ ok set
      → (sources set.files ≡ outside inputs) × All IsParsed set.files × AllDistinct set.files
  unfolding parse
  parse-AllDistinct inputs set e =
      let (files, one, next) =
        >>=-eq-ok (parse_each parse_file inputs)
          (λ files. check_unique parse_file [] files >>= λ u. ok (record { files = files })) e in
      let (u, two, last) =
        >>=-eq-ok (check_unique parse_file [] files) (λ u. ok (record { files = files })) next in
      let same : record { files = files } ≡ set = cc in
      let (all_in, all_parsed) = parse_each-All inputs files one in
      let (apart, distinct) = check_unique-AllDistinct [] files u two in
      subst
        (λ (s : FileSet).
          (sources s.files ≡ outside inputs) × All IsParsed s.files × AllDistinct s.files)
        same (all_in, all_parsed, distinct)
