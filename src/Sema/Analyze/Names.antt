-- ===== src/Sema/Analyze/Names.antt =====
-- src/sema.rs: the names in the table that `analyze` answers with.
use pbpp.Prelude.{
  ◌≢◌, ◌++◌, suc, Bool, false, arith, ℕ, ◌<◌, ◌≡◌, ◌↔◌, subst, some, List, [], ◌∷◌, length, ok,
}
use pbpp.Text.{Text, split}
use pbpp.Text.Laws.{AllFree}
use pbpp.Sema.Lookup.{lookup_fq}
use pbpp.Sema.Lookup.Agrees.{lookup_fq-segs, lookup_fq-fq}
use pbpp.Cst.Nodes.{Word}
use pbpp.FileSet.{FileSet}
use pbpp.Sema.Symbols.{Sema, sym_count, segs, fq}
use pbpp.Sema.Build.{ns_root}
use pbpp.Sema.Build.Names.{Trail, top}
use pbpp.Sema.Children.{build_children}
use pbpp.Sema.Resolve.{descend_syms, found, pass, lookup}
use pbpp.Sema.Resolve.Steps.{judge_at-descend_syms}
use pbpp.Sema.Resolve.Innermost.{outward, outward-below, lookup-IsFirst}
use pbpp.Sema.Resolve.Rule.{IsInnermost, lookup-IsInnermost}
use pbpp.Sema.Resolve.Owned.{resolve_refs-same}
use pbpp.Sema.Resolve.ByName.{IsNameTable, texts, segs_unique, Trail-any, descend_syms-segs}
use pbpp.Sema.Analyze.{analyze}
use pbpp.Sema.Analyze.WellFormed.{analyze-Steps, Steps-Built, provided, seen_in}

pub analyze-IsNameTable :
    (fileset : FileSet) (sema : Sema) → analyze fileset ≡ ok sema → IsNameTable sema
unfolding build_children
analyze-IsNameTable fileset sema e =
    let s = analyze-Steps fileset sema e in
    let built = Steps-Built fileset sema s in
    let before = provided fileset (build_children s.collected) s.rows in
    let (rs, off, same) =
      resolve_refs-same fileset (seen_in fileset s.rows) before s.resolved built.0.in_order
        s.resolves in
    subst IsNameTable s.answer (subst IsNameTable same (record { tree = built.1; names = built.2 }))

-- In the table of a successful analysis no two symbols have the same fully-qualified name.
pub analyze_unique :
    (fileset : FileSet) (sema : Sema)
    → analyze fileset ≡ ok sema
    → (i j : ℕ) → i < sym_count sema
    → j < sym_count sema
    → segs sema i ≡ segs sema j
    → i ≡ j
analyze_unique fileset sema e = segs_unique sema (analyze-IsNameTable fileset sema e)

-- In the table of a successful analysis, descending from the root along the segments of a path finds
-- a symbol exactly if the segments are that symbol's fully-qualified name.
pub analyze-descend_syms :
    (fileset : FileSet) (sema : Sema)
    → analyze fileset ≡ ok sema
    → (ws : List Word) (id : ℕ)
    → (descend_syms sema ns_root ws ≡ some id) ↔ ((id < sym_count sema) × (segs sema id ≡ texts ws))
analyze-descend_syms fileset sema e ws id =
    descend_syms-segs sema ns_root id [] ws (analyze-IsNameTable fileset sema e) top

-- In the table of a successful analysis, the lookup of a relative path gives a symbol exactly if the
-- innermost scope around the start with an anchor leads to it by the rest of the path: an anchor is
-- a package or a definition of the first word's name, and for a path of one word a type, or any
-- name where only messages are looked for. The lookup always comes to a verdict.
pub analyze-IsInnermost :
    (fileset : FileSet) (sema : Sema)
    → analyze fileset ≡ ok sema
    → (message_only : Bool) (first : Word) (rest : List Word) (start : ℕ)
    → start < length sema.ns_nodes
    → ((id : ℕ)
        → (lookup sema false message_only start (first ∷ rest) ≡ found id)
          ↔ ((t : ℕ) × IsInnermost sema message_only first rest start id t))
      × (lookup sema false message_only start (first ∷ rest) ≢ pass)
analyze-IsInnermost fileset sema e message_only first rest start l =
    lookup-IsInnermost sema message_only start first rest (analyze-IsNameTable fileset sema e).tree
      l

-- In the table of a successful analysis, what the lookup of a relative path finds is named by the
-- names of a scope around the start, followed by the words of the path.
pub analyze-lookup_name :
    (fileset : FileSet) (sema : Sema)
    → analyze fileset ≡ ok sema
    → (message_only : Bool) (first : Word) (rest : List Word) (start id : ℕ)
    → start < length sema.ns_nodes
    → lookup sema false message_only start (first ∷ rest) ≡ found id
    → (t : ℕ) × (us : List Text) × Trail sema.ns_nodes (outward sema t start) us
      × (segs sema id ≡ us ++ texts (first ∷ rest))
analyze-lookup_name fileset sema e message_only first rest start id l hit =
    let h = analyze-IsNameTable fileset sema e in
    let (t, (passed, named)) =
      ((lookup-IsFirst sema message_only start first rest h.tree l).0 id).0 hit in
    let (us, way) =
      Trail-any sema h.tree (suc (outward sema t start)) (outward sema t start) (omega arith)
        (outward-below sema h.tree t start l (λ u below. (passed u below).0)) in
    let found_there =
      judge_at-descend_syms sema message_only first rest (outward sema t start) id named in
    (
      t,
      us,
      way,
      ((descend_syms-segs sema (outward sema t start) id us (first ∷ rest) h way).0 found_there).1,
    )

-- In the table of a successful analysis, looking a dotted name up gives a symbol exactly if the
-- pieces of the name are the symbol's segments.
pub analyze-lookup_fq :
    (fileset : FileSet) (sema : Sema)
    → analyze fileset ≡ ok sema
    → (name : Text) (id : ℕ)
    → (lookup_fq sema name ≡ some id) ↔ ((id < sym_count sema) × (segs sema id ≡ split b'.' name))
analyze-lookup_fq fileset sema e = lookup_fq-segs sema (analyze-IsNameTable fileset sema e)

-- In the table of a successful analysis, looking the dotted name of a symbol up gives the symbol
-- back, if it has segments and none of them holds a dot.
pub analyze-lookup_fq-fq :
    (fileset : FileSet) (sema : Sema)
    → analyze fileset ≡ ok sema
    → (id : ℕ) (s : Text) (ss : List Text) → id < sym_count sema
    → segs sema id ≡ s ∷ ss
    → AllFree b'.' (s ∷ ss)
    → lookup_fq sema (fq sema id) ≡ some id
analyze-lookup_fq-fq fileset sema e = lookup_fq-fq sema (analyze-IsNameTable fileset sema e)
