-- ===== src/Sema/Imports/Rows.antt =====
-- src/sema.rs: the imports that `check_imports` reads name input files.
use pbpp.Prelude.{
  ℕ, zero, suc, ◌+◌, ◌<◌, ◌≡◌, refl, sym, subst, ap, ◌∙◌, inl, inr, Bool, true, false, Bool-cases,
  Option, none, some, List, [], ◌∷◌, arith, length, In, In-append, ok, ◌>>=◌, >>=-eq-ok,
}
use pbpp.Text.{Text}
use pbpp.Cst.{Item, Import}
use pbpp.FileSet.{SetFile, FileSet}
use pbpp.Wkt.{is_wkt_file}
use pbpp.Sema.Imports.{
  index_from, Row, no_imports, is_public, push_if, add_import, read_imports, read_rows, row_of,
}
use pbpp.Sema.Imports.Public.{IsClosedSet}

index_from-length :
    (path : Text) (fs : List SetFile) (i j : ℕ) → index_from path fs i ≡ some j → j < i + length fs
unfolding index_from
index_from-length path [] i j e = ground arith
index_from-length path (f ∷ fs) i j e = ground (arith, index_from-length path fs (suc i) j)

abbrev IsBelow : ℕ → List ℕ → Type 0
IsBelow n xs = (x : ℕ) → In x xs → x < n

push_if-IsBelow :
    (n : ℕ) (b : Bool) (t : ℕ) (xs : List ℕ) → t < n → IsBelow n xs → IsBelow n (push_if b t xs)
push_if-IsBelow n false t xs below h = h
push_if-IsBelow n true t xs below h = λ x m. elim ((In-append x xs (t ∷ [])).0 m) [
  | inl old ↦ h x old
  | inr (inl e) ↦ subst (λ (y : ℕ). y < n) (sym e) below
  | inr (inr none_left) ↦ absurd none_left
]

add_import-IsBelow :
    (n idx : ℕ) (imp : Import) (t : Option ℕ) (row row2 : Row)
    → ((j : ℕ) → t ≡ some j → j < n)
    → IsBelow n row.public
    → add_import idx imp t row ≡ ok row2
    → IsBelow n row2.public
unfolding add_import
add_import-IsBelow n idx imp (some j) row row2 below h e =
    let same : push_if (is_public imp.kind) j row.public ≡ row2.public = cc in
    subst (IsBelow n) same (push_if-IsBelow n (is_public imp.kind) j row.public (below j refl) h)
add_import-IsBelow n idx imp none row row2 below h e =
    elim (Bool-cases (is_wkt_file imp.path_inner)) [
      | inl known ↦ let same : row.public ≡ row2.public = ground arith in subst (IsBelow n) same h
      | inr unknown ↦ absurd (ground arith)
    ]

AllBelow-cons :
    (n : ℕ) (row : Row) (rows : List Row)
    → IsBelow n row.public
    → ((g : ℕ) → IsBelow n (row_of rows g).public)
    → (g : ℕ) → IsBelow n (row_of (row ∷ rows) g).public
AllBelow-cons n row rows one h zero = one
AllBelow-cons n row rows one h (suc g) = h g

module _ (fileset : FileSet) where
  read_imports-IsBelow :
      (idx : ℕ) (is : List Item) (row row2 : Row)
      → IsBelow (length fileset.files) row.public
      → read_imports fileset idx is row ≡ ok row2
      → IsBelow (length fileset.files) row2.public
  unfolding read_imports
  read_imports-IsBelow idx [] row row2 h e =
      let same : row.public ≡ row2.public = cc in subst (IsBelow (length fileset.files)) same h
  read_imports-IsBelow idx (Item.import i ∷ is) row row2 h e =
      let (mid, one, rest) =
        >>=-eq-ok (add_import idx i (index_from i.path_inner fileset.files 0) row)
          (read_imports fileset idx is) e in
      read_imports-IsBelow idx is mid row2
        (add_import-IsBelow (length fileset.files) idx i (index_from i.path_inner fileset.files 0)
          row mid (λ j found. omega (arith, index_from-length i.path_inner fileset.files 0 j found))
          h one)
        rest
  read_imports-IsBelow idx (Item.syntax x ∷ is) row row2 h e =
      read_imports-IsBelow idx is row row2 h e
  read_imports-IsBelow idx (Item.package_decl x ∷ is) row row2 h e =
      read_imports-IsBelow idx is row row2 h e
  read_imports-IsBelow idx (Item.option x ∷ is) row row2 h e =
      read_imports-IsBelow idx is row row2 h e
  read_imports-IsBelow idx (Item.message x ∷ is) row row2 h e =
      read_imports-IsBelow idx is row row2 h e
  read_imports-IsBelow idx (Item.enum x ∷ is) row row2 h e =
      read_imports-IsBelow idx is row row2 h e
  read_imports-IsBelow idx (Item.service x ∷ is) row row2 h e =
      read_imports-IsBelow idx is row row2 h e

  read_rows-IsBelow :
      (fs : List SetFile) (idx : ℕ) (rows : List Row)
      → read_rows fileset fs idx ≡ ok rows
      → (length rows ≡ length fs)
        × ((g : ℕ) → IsBelow (length fileset.files) (row_of rows g).public)
  unfolding read_rows
  read_rows-IsBelow [] idx rows e =
      let same : [] ≡ rows = cc in
      (
        ap length (sym same),
        subst (λ (rs : List Row). (g : ℕ) → IsBelow (length fileset.files) (row_of rs g).public)
            same (λ g x m. absurd m),
      )
  read_rows-IsBelow (f ∷ fs) idx rows e =
      let (row, one, more) =
        >>=-eq-ok (read_imports fileset idx f.cst.top.items no_imports)
          (λ r. read_rows fileset fs (suc idx) >>= λ rs. ok (r ∷ rs)) e in
      let (rest, tail, last) =
        >>=-eq-ok (read_rows fileset fs (suc idx)) (λ rs. ok (row ∷ rs)) more in
      let same : row ∷ rest ≡ rows = cc in
      let (lengths, below) = read_rows-IsBelow fs (suc idx) rest tail in
      let all : (g : ℕ) → IsBelow (length fileset.files) (row_of (row ∷ rest) g).public =
        AllBelow-cons (length fileset.files) row rest
          (read_imports-IsBelow idx f.cst.top.items no_imports row (λ x m. absurd m) one) below in
      (
        ap length (sym same) ∙ ap suc lengths,
        subst (λ (rs : List Row). (g : ℕ) → IsBelow (length fileset.files) (row_of rs g).public)
            same all,
      )

  -- The public imports of the rows that are read name input files, and there is a row for each.
  pub read_rows-IsClosedSet :
      (rows : List Row)
      → read_rows fileset fileset.files 0 ≡ ok rows
      → IsClosedSet rows × (length rows ≡ length fileset.files)
  read_rows-IsClosedSet rows e =
      let (lengths, below) = read_rows-IsBelow fileset.files 0 rows e in
      (λ g h m. subst (λ (n : ℕ). h < n) (sym lengths) (below g h m), lengths)
