-- ===== src/Sema/Analyze/Provides.antt =====
-- src/sema.rs: the provide sets of the table that `analyze` answers with.
use pbpp.Prelude.{
  ℕ, zero, suc, ◌+◌, ◌<◌, ◌≡◌, refl, subst, ◌↔◌, List, arith, length, get_or, In, ok,
}
use pbpp.Text.{Text}
use pbpp.FileSet.{FileSet}
use pbpp.Sema.Symbols.{Sema}
use pbpp.Sema.Children.{build_children}
use pbpp.Sema.Imports.{Row, nothing_provided, provides_of, provide_sets}
use pbpp.Sema.Imports.Public.{provides_of-Publishes}
use pbpp.Sema.Imports.Written.{Reaches, ImportsWkt}
use pbpp.Sema.Imports.Lines.{row_of-ImportsWkt, Publishes-Reaches}
use pbpp.Sema.Imports.Rows.{read_rows-IsClosedSet}
use pbpp.Sema.Resolve.Owned.{resolve_refs-same}
use pbpp.Sema.Analyze.{analyze}
use pbpp.Sema.Analyze.WellFormed.{Steps, analyze-Steps, Steps-Built, provided, seen_in}

get_or-provide_sets :
    (rows : List Row) (n i t : ℕ)
    → t < n
    → get_or (provide_sets rows n i) t nothing_provided ≡ provides_of rows (i + t)
unfolding provide_sets
get_or-provide_sets rows zero i t l = absurd (omega arith)
get_or-provide_sets rows (suc n) i zero l = let e : i + 0 ≡ i = omega arith in rw e
get_or-provide_sets rows (suc n) i (suc t) l =
    let e : i + suc t ≡ suc i + t = omega arith in
    rw e (get_or-provide_sets rows n (suc i) t (omega (arith, l)))

Steps-provides :
    (fileset : FileSet) (sema : Sema) (s : Steps fileset sema)
    → sema.provides ≡ provide_sets s.rows (length fileset.files) 0
unfolding build_children
Steps-provides fileset sema s =
    let built = Steps-Built fileset sema s in
    let before = provided fileset (build_children s.collected) s.rows in
    let (rs, off, same) =
      resolve_refs-same fileset (seen_in fileset s.rows) before s.resolved built.0.in_order
        s.resolves in
    subst (λ (x : Sema). x.provides ≡ provide_sets s.rows (length fileset.files) 0) s.answer
      (subst (λ (x : Sema). x.provides ≡ provide_sets s.rows (length fileset.files) 0) same refl)

-- After an analysis that succeeds, the provide set of an input file holds exactly the files that it
-- reaches along `import public` lines, itself among them, and exactly the paths that are of no input
-- file and that one of these files imports publicly; the lines may run in cycles, and a path that
-- several files have means the last of them.
pub analyze-Publishes :
    (fileset : FileSet) (sema : Sema)
    → analyze fileset ≡ ok sema
    → (f : ℕ) → f < length fileset.files
    → (let set = get_or sema.provides f nothing_provided in
        ((g : ℕ) → In g set.0 ↔ Reaches fileset f g)
        × ((w : Text) → In w set.1 ↔ ((g : ℕ) × Reaches fileset f g × ImportsWkt fileset g w)))
analyze-Publishes fileset sema e f l =
    let s = analyze-Steps fileset sema e in
    let (closed, lengths) = read_rows-IsClosedSet fileset s.rows s.reads in
    let same = get_or-provide_sets s.rows (length fileset.files) 0 f l in
    let front : 0 + f ≡ f = omega arith in
    let (files, wkts) = provides_of-Publishes s.rows f closed (omega (arith, l, lengths)) in
    let reaches = Publishes-Reaches fileset s.rows s.reads f in
    let imports = row_of-ImportsWkt fileset s.rows s.reads in
    rw (Steps-provides fileset sema s) (
      rw same (
        rw front (
          λ g. (λ m. (reaches g).0 ((files g).0 m), λ r. (files g).1 ((reaches g).1 r)),
          λ w. (
            λ m. let (g, p, i) = (wkts w).0 m in (g, (reaches g).0 p, (imports g w).0 i),
            λ (g, r, i). (wkts w).1 (g, (reaches g).1 r, (imports g w).1 i),
          ),
        )))
