-- ===== src/Sema/Analyze/WellFormed.antt =====
-- src/sema.rs: the table that `analyze` answers with is well formed.
use pbpp.Prelude.{
  ℕ, ◌+◌, ◌-◌, ◌^◌, ◌<◌, ◌≡◌, sym, subst, inl, inr, true, Bool-cases, some, List, [], arith, ltb,
  leb, length, In, Result, ok, err, ◌>>=◌, >>=-eq-ok,
}
use pbpp.FileSet.{FileSet}
use pbpp.Wkt.{types}
use pbpp.Sema.Kind.{is_def}
use pbpp.Sema.Symbols as Symbols
use pbpp.Sema.Symbols.{Sema, Ref, blank_symbol, sym_count, children, refs, IsWellFormed}
use pbpp.Sema.Build.{SemaError, too_large, Builder, add_wkt_builtins, node}
use pbpp.Sema.Build.Walk.{collect_symbols}
use pbpp.Sema.Build.Invariant.{at, get_or-behind}
use pbpp.Sema.Build.Register.{Built}
use pbpp.Sema.Build.Files.{collect_symbols-Built}
use pbpp.Sema.Analyze.Builtins.{add_wkt_builtins-Built}
use pbpp.Sema.Children.{build_children}
use pbpp.Sema.Children.Arena.{kids, In-kids}
use pbpp.Sema.Children.Layout.{build_children-kids, build_children-behind}
use pbpp.Sema.Imports.{Row, Provided, read_rows, provide_sets}
use pbpp.Sema.Resolve.{resolve_refs}
use pbpp.Sema.Resolve.Targets.{resolve_one-IsNamed}
use pbpp.Sema.Resolve.Rows.{own}
use pbpp.Sema.Resolve.Owned.{resolve_refs-own, resolve_refs-behind, resolve_refs-same, Resolved-In}
use pbpp.Sema.Analyze.{node_total, start, visible_sets, check_imports, analyze}

-- The builder with the provide sets of `rows`, after the children are laid out.
abbrev pub provided : FileSet → Builder → List Row → Builder
provided fileset b rows = record b {
  sema = record b.sema { provides = provide_sets rows (length fileset.files) 0 };
}

-- What is visible in each file.
abbrev pub seen_in : FileSet → List Row → List Provided
seen_in fileset rows =
    visible_sets rows (provide_sets rows (length fileset.files) 0) (length fileset.files) 0

check_imports-read :
    (fileset : FileSet) (b b' : Builder) (seen : List Provided)
    → check_imports fileset b ≡ ok (seen, b')
    → (rows : List Row) × (read_rows fileset fileset.files 0 ≡ ok rows)
      × (seen_in fileset rows ≡ seen)
      × (provided fileset b rows ≡ b')
unfolding check_imports
check_imports-read fileset b b' seen e =
    let (rows, one, last) =
      >>=-eq-ok (read_rows fileset fileset.files 0)
        (λ (rows : List Row). ok (seen_in fileset rows, provided fileset b rows)) e in
    (rows, one, cc, cc)

-- The steps of an analysis that succeeds.
pub record Steps (fileset : FileSet) (sema : Sema) : Type 0 where
  pub collected : Builder
  pub rows : List Row
  pub resolved : Builder
  pub fits : node_total fileset.files + length types < 2 ^ 32 - 1
  pub collects : collect_symbols fileset (add_wkt_builtins start) ≡ ok collected
  pub reads : read_rows fileset fileset.files 0 ≡ ok rows
  pub resolves :
      resolve_refs fileset (seen_in fileset rows) (provided fileset (build_children collected) rows)
      ≡ ok resolved
  pub answer : resolved.sema ≡ sema

Steps-of :
    (fileset : FileSet) (sema : Sema) (b b' b'' : Builder) (seen : List Provided)
    → node_total fileset.files + length types < 2 ^ 32 - 1
    → collect_symbols fileset (add_wkt_builtins start) ≡ ok b
    → check_imports fileset (build_children b) ≡ ok (seen, b')
    → resolve_refs fileset seen b' ≡ ok b''
    → b''.sema ≡ sema
    → Steps fileset sema
Steps-of fileset sema b b' b'' seen fits one two three last =
    let (rows, reads, same_seen, same_b) =
      check_imports-read fileset (build_children b) b' seen two in
    record {
      collected = b;
      rows = rows;
      resolved = b'';
      fits = fits;
      collects = one;
      reads = reads;
      resolves =
          subst
            (λ (s : List Provided).
              resolve_refs fileset s (provided fileset (build_children b) rows) ≡ ok b'')
            (sym same_seen)
            (subst (λ (c : Builder). resolve_refs fileset seen c ≡ ok b'') (sym same_b) three);
      answer = last;
    }

pub analyze-Steps :
    (fileset : FileSet) (sema : Sema) → analyze fileset ≡ ok sema → Steps fileset sema
unfolding analyze
analyze-Steps fileset sema e =
    elim (Bool-cases (leb (2 ^ 32 - 1) (node_total fileset.files + length types))) [
      | inl over ↦
          let clash : ◌≡◌ {A = Result SemaError Sema} (err too_large) (ok sema) = rw over at e in cc
      | inr small ↦
          let (b, one, e1) =
            >>=-eq-ok (collect_symbols fileset (add_wkt_builtins start))
              (λ b. check_imports fileset (build_children b) >>= λ (seen, b').
                resolve_refs fileset seen b' >>= λ b''. ok b''.sema)
              (rw small at e) in
          let ((seen, b'), two, e2) =
            >>=-eq-ok (check_imports fileset (build_children b))
              (λ (seen, b'). resolve_refs fileset seen b' >>= λ b''. ok b''.sema) e1 in
          let (b'', three, e3) = >>=-eq-ok (resolve_refs fileset seen b') (λ b''. ok b''.sema) e2 in
          Steps-of fileset sema b b' b'' seen (ground arith) one two three cc
    ]

pub Steps-Built : (fileset : FileSet) (sema : Sema) (s : Steps fileset sema) → Built s.collected
Steps-Built fileset sema s =
    collect_symbols-Built fileset (add_wkt_builtins start) s.collected add_wkt_builtins-Built
      s.collects

-- The fields of the invariant that speak of the symbols and their children.
module _ (b : Builder) (built : Built b) (rs : List Ref) (off : List ℕ) (ps : List Provided) where
  abbrev table : Sema
  table = record (build_children b).sema { provides = ps; refs_arena = rs; refs_off = off }

  known : (i p : ℕ) → (at b.sema.symbols i).parent ≡ some p → p < length b.sema.symbols
  known i p e = elim (Bool-cases (ltb i (length b.sema.symbols))) [
    | inl inside ↦ let before = (built.0.tree i p e).0 in ground arith
    | inr beyond ↦
        let blank : at b.sema.symbols i ≡ blank_symbol =
          get_or-behind b.sema.symbols i blank_symbol (ground arith) in
        let clash : blank_symbol.parent ≡ some p = rw blank at e in cc
  ]

  children-parent :
      (i c : ℕ)
      → In c (children table i)
      → (c < length b.sema.symbols) × ((at b.sema.symbols c).parent ≡ some i)
  unfolding children
  children-parent i c m = elim (Bool-cases (ltb i (length b.sema.symbols))) [
    | inl inside ↦
        let m2 : In c (kids i b.sema.symbols 0) =
          subst (In c) (build_children-kids b i known (ground arith)) m in
        let (t, same, l, parent) = In-kids i b.sema.symbols 0 c m2 in
        let e : t ≡ c = omega (arith, same) in
        subst (λ (x : ℕ). (x < length b.sema.symbols) × ((at b.sema.symbols x).parent ≡ some i)) e
          (l, parent)
    | inr beyond ↦
        let m2 : In c [] = subst (In c) (build_children-behind b i known (ground arith)) m in
        absurd m2
  ]

-- The targets of the references.
refs-target :
    (fileset : FileSet) (visible : List Provided) (b b' : Builder)
    → Built b
    → resolve_refs fileset visible b ≡ ok b'
    → (i : ℕ) (r : Ref) → In r (refs b'.sema i)
    → (r.target < length b.sema.symbols) × (is_def (at b.sema.symbols r.target).kind ≡ true)
unfolding sym_count node Symbols.sym
refs-target fileset visible b b' built e i r m = elim (Bool-cases (ltb i (sym_count b.sema))) [
  | inl inside ↦
      let (p, one) =
        Resolved-In fileset visible b.sema (own i b.pending) (refs b'.sema i) r
          (resolve_refs-own fileset visible b b' built.0.in_order e i (ground arith)) m in
      let ((n, named), def) = resolve_one-IsNamed fileset visible b.sema p r.target one in
      (built.0.defined n r.target named, def)
  | inr beyond ↦
      let m2 : In r [] =
        subst (In r) (resolve_refs-behind fileset visible b b' built.0.in_order e i (ground arith))
          m in
      absurd m2
]

resolved-IsWellFormed :
    (fileset : FileSet) (visible : List Provided) (b b' : Builder) (ps : List Provided)
    → Built b
    → resolve_refs fileset visible
        (record (build_children b) { sema = record (build_children b).sema { provides = ps } })
      ≡ ok b'
    → IsWellFormed b'.sema
unfolding sym_count Symbols.sym build_children children
resolved-IsWellFormed fileset visible b b' ps built e =
    let before : Builder = record (build_children b) {
      sema = record (build_children b).sema { provides = ps };
    } in
    let (rs, off, same) = resolve_refs-same fileset visible before b' built.0.in_order e in
    let targets : (i : ℕ) (r : Ref)
        → In r (refs (table b built rs off ps) i)
        → (r.target < length b.sema.symbols) × (is_def (at b.sema.symbols r.target).kind ≡ true) =
      λ i r m.
        refs-target fileset visible before b' built e i r
          (subst (λ (x : Sema). In r (refs x i)) same m) in
    let whole : IsWellFormed (table b built rs off ps) = record {
      parent_lt = λ i p h. (built.0.tree i p h).0;
      child_parent = λ i c m. (children-parent b built rs off ps i c m).1;
      child_lt = λ i c m. (children-parent b built rs off ps i c m).0;
      target_lt = λ i r m. (targets i r m).0;
      parent_is_def = λ i p h. (built.0.tree i p h).1;
      target_is_def = λ i r m. (targets i r m).1;
    } in
    subst IsWellFormed same whole

-- The table that an analysis answers with is well formed: parents come before their children and
-- are definitions, the children of a symbol are symbols of the table that name it as their parent,
-- and every reference that is resolved has a definition of the table as its target.
pub analyze-IsWellFormed :
    (fileset : FileSet) (sema : Sema) → analyze fileset ≡ ok sema → IsWellFormed sema
analyze-IsWellFormed fileset sema e =
    let s = analyze-Steps fileset sema e in
    let built = Steps-Built fileset sema s in
    subst IsWellFormed s.answer (
      resolved-IsWellFormed fileset (seen_in fileset s.rows) s.collected s.resolved
        (provide_sets s.rows (length fileset.files) 0) built s.resolves)
