-- ===== src/Sema/Imports/Written.antt =====
-- src/sema.rs: the rows that `check_imports` reads hold the public imports as they are written.
use pbpp.Prelude.{
  ℕ, ◌≡◌, ◌≢◌, ◌∙◌, ◌⊎◌, refl, sym, subst, ap, inl, inr, ◌↔◌, true, Bool-cases, Option, none, some,
  List, [], ◌∷◌, ◌++◌, arith, In, In-append, ok, get_elem?,
}
use pbpp.Text.{Text}
use pbpp.Sema.Imports.Index.{HasPath, IsIndex}
use pbpp.Cst.{Item, Import, ImportKind}
use pbpp.FileSet.{SetFile, FileSet}
use pbpp.Wkt.{is_wkt_file}
use pbpp.Sema.Imports.{index_from, Row, is_public, push_if, add_import}

module _ (fileset : FileSet) where
  -- The file `f` has the line, and it is an `import public`.
  abbrev pub ImportsPublicly : ℕ → Import → Type 0
  ImportsPublicly f imp =
      (file : SetFile) × (get_elem? fileset.files f ≡ some file)
      × In (Item.import imp) file.cst.top.items
      × (imp.kind ≡ ImportKind.public)

  abbrev pub ImportsFile : ℕ → ℕ → Type 0
  ImportsFile f g = (imp : Import) × ImportsPublicly f imp × IsIndex fileset.files imp.path_inner g

  -- A path that is none of an input file.
  abbrev pub ImportsWkt : ℕ → Text → Type 0
  ImportsWkt f w =
      (imp : Import) × ImportsPublicly f imp
      × (imp.path_inner ≡ w)
      × ((k : ℕ) → ¬ HasPath fileset.files w k)

  -- The file `f` itself, and those along chains of `import public` lines.
  pub data Reaches (f : ℕ) : ℕ → Type 0 where
    here : Reaches f f
    along : {g h : ℕ} → Reaches f g → ImportsFile g h → Reaches f h

is_public_iff : (k : ImportKind) → (is_public k ≡ true) ↔ (k ≡ ImportKind.public)
is_public_iff ImportKind.plain = (λ e. cc, λ e. cc)
is_public_iff ImportKind.public = (λ e. refl, λ e. refl)
is_public_iff ImportKind.weak = (λ e. cc, λ e. cc)

-- A public import among the items, of which `P` holds.
abbrev pub IsAdded : (Import → Type 0) → List Item → Type 0
IsAdded P is = (imp : Import) × In (Item.import imp) is × (imp.kind ≡ ImportKind.public) × P imp

pub IsAdded-skip :
    (P : Import → Type 0) (it : Item) (is : List Item)
    → ((imp : Import) → Item.import imp ≢ it)
    → IsAdded P is ↔ IsAdded P (it ∷ is)
IsAdded-skip P it is other = (
  λ (imp, m, k, p). (imp, inr m, k, p),
  λ (imp, m, k, p). elim m [ inl e ↦ absurd (other imp e) | inr later ↦ (imp, later, k, p) ],
)

-- The list after one import: what was in it before, and what the import adds.
pub IsAdded-cons :
    {A : Type 0} (P : A → Import → Type 0) (i : Import) (is : List Item) (old mid new : List A)
    → ((x : A) → In x mid ↔ (In x old ⊎ ((i.kind ≡ ImportKind.public) × P x i)))
    → ((x : A) → In x new ↔ (In x mid ⊎ IsAdded (P x) is))
    → (x : A) → In x new ↔ (In x old ⊎ IsAdded (P x) (Item.import i ∷ is))
IsAdded-cons P i is old mid new one rest x = (
  λ m. elim ((rest x).0 m) [
    | inr (imp, m, k, p) ↦ inr (imp, inr m, k, p)
    | inl in_mid ↦ elim ((one x).0 in_mid) [
      | inl before ↦ inl before
      | inr (k, p) ↦ inr (i, inl refl, k, p)
    ]
  ],
  λ h. elim h [
    | inl before ↦ (rest x).1 (inl ((one x).1 (inl before)))
    | inr (imp, inr m, k, p) ↦ (rest x).1 (inr (imp, m, k, p))
    | inr (imp, inl e, k, p) ↦
        let same : imp ≡ i = cc in
        let now = subst (λ (y : Import). (y.kind ≡ ImportKind.public) × P x y) same (k, p) in
        (rest x).1 (inl ((one x).1 (inr now)))
  ],
)

push_if_iff :
    {A : Type 0} (k : ImportKind) (x y : A) (xs : List A)
    → In y (push_if (is_public k) x xs) ↔ (In y xs ⊎ ((k ≡ ImportKind.public) × (x ≡ y)))
push_if_iff ImportKind.plain x y xs = (λ m. inl m, λ h. elim h [ inl m ↦ m | inr (e, _) ↦ cc ])
push_if_iff ImportKind.weak x y xs = (λ m. inl m, λ h. elim h [ inl m ↦ m | inr (e, _) ↦ cc ])
push_if_iff ImportKind.public x y xs = (
  λ m. elim ((In-append y xs (x ∷ [])).0 m) [
    | inl old ↦ inl old
    | inr (inl e) ↦ inr (refl, sym e)
    | inr (inr none_left) ↦ absurd none_left
  ],
  λ h. (In-append y xs (x ∷ [])).1 (elim h [ inl m ↦ inl m | inr (_, e) ↦ inr (inl (sym e)) ]),
)

module _ (fileset : FileSet) where
  abbrev pub ToFile : ℕ → Import → Type 0
  ToFile g imp = index_from imp.path_inner fileset.files 0 ≡ some g

  abbrev pub ToWkt : Text → Import → Type 0
  ToWkt w imp = (index_from imp.path_inner fileset.files 0 ≡ none) × (imp.path_inner ≡ w)

  pub record IsRead (is : List Item) (row row2 : Row) : Type 0 where
    pub files : (g : ℕ) → In g row2.public ↔ (In g row.public ⊎ IsAdded (ToFile g) is)
    pub wkts : (w : Text) → In w row2.public_wkt ↔ (In w row.public_wkt ⊎ IsAdded (ToWkt w) is)

  pub record IsOne (i : Import) (row row2 : Row) : Type 0 where
    pub files :
        (g : ℕ) → In g row2.public ↔ (In g row.public ⊎ ((i.kind ≡ ImportKind.public) × ToFile g i))
    pub wkts :
        (w : Text)
        → In w row2.public_wkt ↔ (In w row.public_wkt ⊎ ((i.kind ≡ ImportKind.public) × ToWkt w i))

  pub add_import-IsOne :
      (idx : ℕ) (i : Import) (t : Option ℕ) (row row2 : Row)
      → index_from i.path_inner fileset.files 0 ≡ t
      → add_import idx i t row ≡ ok row2
      → IsOne i row row2
  unfolding add_import
  add_import-IsOne idx i (some j) row row2 is e =
      let same : record row {
        direct = row.direct ++ j ∷ [];
        public = push_if (is_public i.kind) j row.public;
      }
          ≡ row2 =
        cc in
      subst (IsOne i row) same (record {
        files = λ g.
            let (to, back) = push_if_iff i.kind j g row.public in
            (
              λ m. elim (to m) [ inl old ↦ inl old | inr (k, at) ↦ inr (k, is ∙ ap some at) ],
              λ h. back (elim h [
                | inl old ↦ inl old
                | inr (k, there) ↦ let eq : some j ≡ some g = sym is ∙ there in inr (k, cc)
              ]),
            );
        wkts = λ w. (
          λ m. inl m,
          λ h. elim h [
            | inl m ↦ m
            | inr (_, (gone, _)) ↦ let clash : some j ≡ none = sym is ∙ gone in cc
          ],
        );
      })
  add_import-IsOne idx i none row row2 is e = elim (Bool-cases (is_wkt_file i.path_inner)) [
    | inr unknown ↦ absurd (ground arith)
    | inl known ↦
        let same : ok (record row {
          direct_wkt = row.direct_wkt ++ i.path_inner ∷ [];
          public_wkt = push_if (is_public i.kind) i.path_inner row.public_wkt;
        })
            ≡ ok row2 =
          rw known at e in
        let eq : record row {
          direct_wkt = row.direct_wkt ++ i.path_inner ∷ [];
          public_wkt = push_if (is_public i.kind) i.path_inner row.public_wkt;
        }
            ≡ row2 =
          cc in
        subst (IsOne i row) eq (record {
          files = λ g. (
            λ m. inl m,
            λ h. elim h [
              | inl m ↦ m
              | inr (_, there) ↦ let clash : none ≡ some g = sym is ∙ there in cc
            ],
          );
          wkts = λ w.
              let (to, back) = push_if_iff i.kind i.path_inner w row.public_wkt in
              (
                λ m. elim (to m) [ inl old ↦ inl old | inr (k, at) ↦ inr (k, (is, at)) ],
                λ h. back (elim h [ inl old ↦ inl old | inr (k, (_, at)) ↦ inr (k, at) ]),
              );
        })
  ]
