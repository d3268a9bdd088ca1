-- ===== src/Sema/Imports/Lines.antt =====
-- src/sema.rs: what `check_imports` reads of the items of all files.
use pbpp.Prelude.{
  ℕ, zero, suc, ◌≡◌, ◌≢◌, refl, sym, subst, inl, inr, ◌↔◌, some, List, [], ◌∷◌, In, ok, ◌>>=◌,
  >>=-eq-ok, get_elem?,
}
use pbpp.Text.{Text}
use pbpp.Sema.Imports.Index.{HasPath, index_from-none, index_from-gone, index_from-IsIndex}
use pbpp.Cst.{Item, Import}
use pbpp.FileSet.{SetFile, FileSet}
use pbpp.Sema.Imports.{index_from, Row, no_imports, add_import, read_imports, read_rows, row_of}
use pbpp.Sema.Imports.Public.{Publishes, itself, onward}
use pbpp.Sema.Imports.Written.{
  ImportsFile, ImportsWkt, Reaches, here, along, IsAdded-skip, IsAdded-cons, ToFile, ToWkt, IsRead,
  IsOne, add_import-IsOne,
}

module _ (fileset : FileSet) where
  imports-cons :
      (i : Import) (is : List Item) (row mid row2 : Row)
      → IsOne fileset i row mid
      → IsRead fileset is mid row2
      → IsRead fileset (Item.import i ∷ is) row row2
  imports-cons i is row mid row2 one rest = record {
    files =
        IsAdded-cons (ToFile fileset) i is row.public mid.public row2.public one.files rest.files;
    wkts =
        IsAdded-cons (ToWkt fileset) i is row.public_wkt mid.public_wkt row2.public_wkt one.wkts
          rest.wkts;
  }

  imports-skip :
      (it : Item) (is : List Item) (row row2 : Row)
      → ((imp : Import) → Item.import imp ≢ it)
      → IsRead fileset is row row2
      → IsRead fileset (it ∷ is) row row2
  imports-skip it is row row2 other rest = record {
    files = λ g.
        let (to, back) = rest.files g in
        let (on, off) = IsAdded-skip (ToFile fileset g) it is other in
        (
          λ m. elim (to m) [ inl old ↦ inl old | inr new ↦ inr (on new) ],
          λ h. back (elim h [ inl old ↦ inl old | inr new ↦ inr (off new) ]),
        );
    wkts = λ w.
        let (to, back) = rest.wkts w in
        let (on, off) = IsAdded-skip (ToWkt fileset w) it is other in
        (
          λ m. elim (to m) [ inl old ↦ inl old | inr new ↦ inr (on new) ],
          λ h. back (elim h [ inl old ↦ inl old | inr new ↦ inr (off new) ]),
        );
  }

  read_imports-IsRead :
      (idx : ℕ) (is : List Item) (row row2 : Row)
      → read_imports fileset idx is row ≡ ok row2
      → IsRead fileset is row row2
  unfolding read_imports
  read_imports-IsRead idx [] row row2 e =
      let same : row ≡ row2 = cc in
      subst (IsRead fileset [] row) same (record {
        files = λ g. (λ m. inl m, λ h. elim h [ inl m ↦ m | inr (_, m, _, _) ↦ absurd m ]);
        wkts = λ w. (λ m. inl m, λ h. elim h [ inl m ↦ m | inr (_, m, _, _) ↦ absurd m ]);
      })
  read_imports-IsRead idx (Item.import i ∷ is) row row2 e =
      let (mid, one, rest) =
        >>=-eq-ok (add_import idx i (index_from i.path_inner fileset.files 0) row)
          (read_imports fileset idx is) e in
      imports-cons i is row mid row2
        (add_import-IsOne fileset idx i (index_from i.path_inner fileset.files 0) row mid refl one)
        (read_imports-IsRead idx is mid row2 rest)
  read_imports-IsRead idx (Item.syntax x ∷ is) row row2 e =
      imports-skip (Item.syntax x) is row row2 (λ imp p. cc) (read_imports-IsRead idx is row row2 e)
  read_imports-IsRead idx (Item.package_decl x ∷ is) row row2 e =
      imports-skip (Item.package_decl x) is row row2 (λ imp p. cc)
        (read_imports-IsRead idx is row row2 e)
  read_imports-IsRead idx (Item.option x ∷ is) row row2 e =
      imports-skip (Item.option x) is row row2 (λ imp p. cc) (read_imports-IsRead idx is row row2 e)
  read_imports-IsRead idx (Item.message x ∷ is) row row2 e =
      imports-skip (Item.message x) is row row2 (λ imp p. cc)
        (read_imports-IsRead idx is row row2 e)
  read_imports-IsRead idx (Item.enum x ∷ is) row row2 e =
      imports-skip (Item.enum x) is row row2 (λ imp p. cc) (read_imports-IsRead idx is row row2 e)
  read_imports-IsRead idx (Item.service x ∷ is) row row2 e =
      imports-skip (Item.service x) is row row2 (λ imp p. cc)
        (read_imports-IsRead idx is row row2 e)

  -- The items of the file `g` of a list, none behind its end.
  abbrev items_of : List SetFile → ℕ → List Item
  items_of [] g = []
  items_of (f ∷ fs) zero = f.cst.top.items
  items_of (f ∷ fs) (suc g) = items_of fs g

  In-items_of :
      (fs : List SetFile) (g : ℕ) (it : Item)
      → In it (items_of fs g) ↔ ((f : SetFile) × (get_elem? fs g ≡ some f) × In it f.cst.top.items)
  In-items_of [] g it = (λ m. absurd m, λ (f, e, m). cc)
  In-items_of (f ∷ fs) zero it = (
    λ m. (f, refl, m),
    λ (x, e, m). let same : x ≡ f = cc in subst (λ (y : SetFile). In it y.cst.top.items) same m,
  )
  In-items_of (f ∷ fs) (suc g) it = In-items_of fs g it

  read_rows-IsRead :
      (fs : List SetFile) (idx : ℕ) (rows : List Row)
      → read_rows fileset fs idx ≡ ok rows
      → (g : ℕ) → IsRead fileset (items_of fs g) no_imports (row_of rows g)
  unfolding read_rows
  read_rows-IsRead [] idx rows e g =
      let same : [] ≡ rows = cc in
      subst (λ (rs : List Row). IsRead fileset [] no_imports (row_of rs g)) same
        (read_imports-IsRead idx [] no_imports no_imports (unfold read_imports in refl))
  read_rows-IsRead (f ∷ fs) idx rows e g =
      let (row, one, more) =
        >>=-eq-ok (read_imports fileset idx f.cst.top.items no_imports)
          (λ r. read_rows fileset fs (suc idx) >>= λ rs. ok (r ∷ rs)) e in
      let (rest, tail, last) =
        >>=-eq-ok (read_rows fileset fs (suc idx)) (λ rs. ok (row ∷ rs)) more in
      let same : row ∷ rest ≡ rows = cc in
      subst (λ (rs : List Row). IsRead fileset (items_of (f ∷ fs) g) no_imports (row_of rs g)) same
        (at g row rest (read_imports-IsRead idx f.cst.top.items no_imports row one)
          (read_rows-IsRead fs (suc idx) rest tail))
    where
      at :
          (g : ℕ) (row : Row) (rest : List Row)
          → IsRead fileset f.cst.top.items no_imports row
          → ((h : ℕ) → IsRead fileset (items_of fs h) no_imports (row_of rest h))
          → IsRead fileset (items_of (f ∷ fs) g) no_imports (row_of (row ∷ rest) g)
      at zero row rest one later = one
      at (suc g) row rest one later = later g

  module _ (rows : List Row) (reads : read_rows fileset fileset.files 0 ≡ ok rows) where
    pub row_of-ImportsFile : (f g : ℕ) → In g (row_of rows f).public ↔ ImportsFile fileset f g
    row_of-ImportsFile f g =
        let read = read_rows-IsRead fileset.files 0 rows reads f in
        (
          λ m. elim ((read.files g).0 m) [
            | inl old ↦ absurd old
            | inr (imp, i, k, to) ↦
                let (file, got, i2) = (In-items_of fileset.files f (Item.import imp)).0 i in
                (imp, (file, got, i2, k), (index_from-IsIndex imp.path_inner fileset.files g).0 to)
          ],
          λ (imp, (file, got, i, k), index). (read.files g).1 (
              inr (
                imp,
                (In-items_of fileset.files f (Item.import imp)).1 (file, got, i),
                k,
                (index_from-IsIndex imp.path_inner fileset.files g).1 index,
              )),
        )

    pub row_of-ImportsWkt :
        (f : ℕ) (w : Text) → In w (row_of rows f).public_wkt ↔ ImportsWkt fileset f w
    row_of-ImportsWkt f w =
        let read = read_rows-IsRead fileset.files 0 rows reads f in
        (
          λ m. elim ((read.wkts w).0 m) [
            | inl old ↦ absurd old
            | inr (imp, i, k, (gone, is)) ↦
                let (file, got, i2) = (In-items_of fileset.files f (Item.import imp)).0 i in
                (
                  imp,
                  (file, got, i2, k),
                  is,
                  subst (λ (p : Text). (h : ℕ) → ¬ HasPath fileset.files p h) is
                      (index_from-none imp.path_inner fileset.files 0 gone),
                )
          ],
          λ (imp, (file, got, i, k), is, other). (read.wkts w).1 (
              inr (
                imp,
                (In-items_of fileset.files f (Item.import imp)).1 (file, got, i),
                k,
                (
                  index_from-gone imp.path_inner fileset.files
                      (subst (λ (p : Text). (h : ℕ) → ¬ HasPath fileset.files p h) (sym is) other),
                  is,
                ),
              )),
        )

    pub Publishes-Reaches : (f g : ℕ) → Publishes rows f g ↔ Reaches fileset f g
    Publishes-Reaches f g = (to g, back g)
      where
        to : (g : ℕ) → Publishes rows f g → Reaches fileset f g
        to g itself = here
        to g (onward {g = m} p i) = along (to m p) ((row_of-ImportsFile m g).0 i)

        back : (g : ℕ) → Reaches fileset f g → Publishes rows f g
        back g here = itself
        back g (along {g = m} p i) = onward (back m p) ((row_of-ImportsFile m g).1 i)
