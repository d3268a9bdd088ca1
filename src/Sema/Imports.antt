-- ===== src/Sema/Imports.antt =====
-- src/sema.rs: `check_imports`. The hash sets are lists without order; the map from paths to files
-- is a search, in which the last of two files of one path wins.
pub mod Public
pub mod Rows
pub mod Written
pub mod Index
pub mod Lines
use pbpp.Prelude.{
  ℕ, zero, suc, Bool, true, false, Option, none, some, List, [], ◌∷◌, ◌++◌, if◌then◌else◌, ◌==◌,
  any, get_or, length, Result, ok, err, ◌>>=◌,
}
use pbpp.Text.{Text, text_eq}
use pbpp.Cst.{File, Item, Import, ImportKind}
use pbpp.FileSet.{SetFile, FileSet}
use pbpp.Wkt.{is_wkt_file}
use pbpp.Sema.Build.{SemaError, missing_import}

-- `path_to_idx.get`.
unfoldable pub index_from : Text → List SetFile → ℕ → Option ℕ
unfolding text_eq
index_from path [] i = none
index_from path (f ∷ fs) i = elim (index_from path fs (suc i)) [
  | some j ↦ some j
  | none ↦ if text_eq f.path path then some i else none
]

-- What one file imports: input files and well-known paths, and those of them imported publicly.
pub record Row : Type 0 where
  pub direct : List ℕ
  pub public : List ℕ
  pub direct_wkt : List Text
  pub public_wkt : List Text

abbrev pub no_imports : Row
no_imports = record { direct = []; public = []; direct_wkt = []; public_wkt = [] }

abbrev pub is_public : ImportKind → Bool
is_public ImportKind.plain = false
is_public ImportKind.public = true
is_public ImportKind.weak = false

abbrev pub push_if : {A : Type 0} → Bool → A → List A → List A
push_if true x xs = xs ++ x ∷ []
push_if false x xs = xs

unfoldable pub add_import : ℕ → Import → Option ℕ → Row → Result SemaError Row
unfolding is_wkt_file
add_import idx imp (some t) row = ok (record row {
  direct = row.direct ++ t ∷ [];
  public = push_if (is_public imp.kind) t row.public;
})
add_import idx imp none row =
    if is_wkt_file imp.path_inner
    then ok (record row {
      direct_wkt = row.direct_wkt ++ imp.path_inner ∷ [];
      public_wkt = push_if (is_public imp.kind) imp.path_inner row.public_wkt;
    })
    else err (missing_import idx imp.path_inner imp.path.span)

module _ (fileset : FileSet) where
  unfoldable pub read_imports : ℕ → List Item → Row → Result SemaError Row
  unfolding add_import index_from
  read_imports idx [] row = ok row
  read_imports idx (Item.import i ∷ is) row =
      add_import idx i (index_from i.path_inner fileset.files 0) row >>= read_imports idx is
  read_imports idx (Item.syntax x ∷ is) row = read_imports idx is row
  read_imports idx (Item.package_decl x ∷ is) row = read_imports idx is row
  read_imports idx (Item.option x ∷ is) row = read_imports idx is row
  read_imports idx (Item.message x ∷ is) row = read_imports idx is row
  read_imports idx (Item.enum x ∷ is) row = read_imports idx is row
  read_imports idx (Item.service x ∷ is) row = read_imports idx is row

  unfoldable pub read_rows : List SetFile → ℕ → Result SemaError (List Row)
  unfolding read_imports
  read_rows [] idx = ok []
  read_rows (f ∷ fs) idx = read_imports idx f.cst.top.items no_imports >>= λ row.
      read_rows fs (suc idx) >>= λ rows. ok (row ∷ rows)

abbrev pub row_of : List Row → ℕ → Row
row_of rows f = get_or rows f no_imports

abbrev pub Provided : Type 0
Provided = List ℕ × List Text

abbrev pub has_file : List ℕ → ℕ → Bool
has_file fs f = any (λ x. x == f) fs

abbrev pub reach_all : (ℕ → Provided → Provided) → List ℕ → Provided → Provided
reach_all call [] st = st
reach_all call (p ∷ ps) st = reach_all call ps (call p st)

-- `reach_pub`, with fuel: the files visited, and the well-known paths met.
unfoldable pub reach_pub : List Row → ℕ → ℕ → Provided → Provided
reach_pub rows zero f (files, wkts) = (files, wkts)
reach_pub rows (suc k) f (files, wkts) =
    let visited =
      reach_all (reach_pub rows k) (row_of rows f).public
        (f ∷ files, (row_of rows f).public_wkt ++ wkts) in
    if has_file files f then (files, wkts) else visited

-- A file is visited at most once, so as many calls deep as there are files are enough.
unfoldable pub provides_of : List Row → ℕ → Provided
unfolding reach_pub
provides_of rows f = reach_pub rows (length rows) f ([], [])

-- The provide sets of `n` files from `i` on.
unfoldable pub provide_sets : List Row → ℕ → ℕ → List Provided
unfolding provides_of
provide_sets rows zero i = []
provide_sets rows (suc n) i = provides_of rows i ∷ provide_sets rows n (suc i)

abbrev pub nothing_provided : Provided
nothing_provided = ([], [])

unfoldable pub extend : List Provided → List ℕ → Provided → Provided
extend provides [] seen = seen
extend provides (d ∷ ds) (files, wkts) =
    let (pf, pw) = get_or provides d nothing_provided in
    extend provides ds (pf ++ files, pw ++ wkts)

-- What is visible in a file: itself, its well-known imports, and what its imports provide.
unfoldable pub visible : List Row → List Provided → ℕ → Provided
unfolding extend
visible rows provides idx =
    extend provides (row_of rows idx).direct (idx ∷ [], (row_of rows idx).direct_wkt)
