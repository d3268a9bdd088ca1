-- ===== src/Sema/Analyze.antt =====
-- src/sema.rs: `analyze`, from a set of files to its symbol table.
pub mod Builtins
pub mod WellFormed
pub mod Provides
pub mod Names
use pbpp.Prelude.{
  ℕ, zero, suc, ◌+◌, ◌-◌, ◌^◌, Bool, true, false, Option, none, some, List, [], ◌∷◌, if◌then◌else◌,
  leb, length, Result, ok, err, ◌>>=◌,
}
use pbpp.FileSet.{SetFile, FileSet}
use pbpp.Wkt.{types}
use pbpp.Sema.Symbols.{Sema}
use pbpp.Sema.Build.{SemaError, too_large, Builder, ns_root, add_wkt_builtins}
use pbpp.Sema.Build.Walk.{collect_symbols}
use pbpp.Sema.Children.{build_children}
use pbpp.Sema.Imports.{Row, Provided, read_rows, provide_sets, visible}
use pbpp.Sema.Resolve.{resolve_refs}

-- The nodes of the set, added up.
unfoldable pub node_total : List SetFile → ℕ
node_total [] = 0
node_total (f ∷ fs) = f.cst.node_count + node_total fs

-- The builder that `analyze` starts with.
abbrev pub start : Builder
start = record {
  sema = record {
    symbols = [];
    seg_arena = [];
    ns_nodes = record { parent = ns_root; name = []; sym = none } ∷ [];
    ns_index = [];
    file_top = [];
    node_sym = [];
    children_arena = [];
    children_off = [];
    refs_arena = [];
    refs_off = [];
    provides = [];
  };
  pending = [];
}

-- What is visible in `n` files from `i` on.
unfoldable pub visible_sets : List Row → List Provided → ℕ → ℕ → List Provided
unfolding visible
visible_sets rows provides zero i = []
visible_sets rows provides (suc n) i =
    visible rows provides i ∷ visible_sets rows provides n (suc i)

-- The visibility of each file, and the builder with the provide sets.
unfoldable pub check_imports : FileSet → Builder → Result SemaError (List Provided × Builder)
unfolding read_rows provide_sets visible_sets
check_imports fileset b = read_rows fileset fileset.files 0 >>= λ rows.
    (let provides = provide_sets rows (length fileset.files) 0 in
      ok (
        visible_sets rows provides (length fileset.files) 0,
        record b { sema = record b.sema { provides = provides } },
      ))

unfoldable pub analyze : FileSet → Result SemaError Sema
unfolding add_wkt_builtins collect_symbols build_children check_imports resolve_refs node_total
analyze fileset =
    if leb (2 ^ 32 - 1) (node_total fileset.files + length types)
    then err too_large
    else (collect_symbols fileset (add_wkt_builtins start) >>= λ b.
        check_imports fileset (build_children b) >>= λ (seen, b').
        resolve_refs fileset seen b' >>= λ b''. ok b''.sema)
