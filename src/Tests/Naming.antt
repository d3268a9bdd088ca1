-- ===== src/Tests/Naming.antt =====
-- Names in the table of the three files: `a.A.b` refers to `B`, which stands in `a.B`.
use pbpp.Prelude.{◌≡◌, ◌≢◌, refl, ◌↔◌, ◌<◌, ℕ, false, some, List, [], ◌∷◌, ◌++◌, length, arith}
use pbpp.Text.{Text, codes, split}
use pbpp.Sema.Lookup.{lookup_fq}
use pbpp.Cst.Nodes.{Word}
use pbpp.Sema.Symbols.{sym_count, segs, fq}
use pbpp.Sema.Build.{ns_root}
use pbpp.Sema.Build.Names.{Trail}
use pbpp.Sema.Analyze.{analyze}
use pbpp.Sema.Analyze.Names.{
  analyze-lookup_fq, analyze-lookup_fq-fq, analyze_unique, analyze-descend_syms,
  analyze-IsInnermost, analyze-lookup_name,
}
use pbpp.Sema.Resolve.{descend_syms, found, pass, lookup}
use pbpp.Sema.Resolve.ByName.{texts}
use pbpp.Sema.Resolve.Innermost.{outward}
use pbpp.Sema.Resolve.Rule.{IsInnermost}
use pbpp.Tests.Building.{word, three_files, table, analyzed}

symbols_counted : sym_count table ≡ 33
unfolding table analyze sym_count
symbols_counted = refl

nodes_counted : length table.ns_nodes ≡ 37
unfolding table analyze sym_count
nodes_counted = refl

abbrev path_b : List Word
path_b = word (codes "a") ∷ word (codes "B") ∷ []

analyze_unique_example : ◌≡◌ {A = ℕ} 32 32
analyze_unique_example =
    analyze_unique three_files table analyzed 32 32 (omega (arith, symbols_counted))
      (omega (arith, symbols_counted)) refl

analyze-descend_syms_example :
    (descend_syms table ns_root path_b ≡ some 32)
    ↔ ((32 < sym_count table) × (segs table 32 ≡ texts path_b))
analyze-descend_syms_example = analyze-descend_syms three_files table analyzed path_b 32

-- The lookup from inside `a.A` passes that scope and finds `B` one level out.
found_outside : lookup table false false 34 (word (codes "B") ∷ []) ≡ found 32
unfolding table analyze sym_count lookup
found_outside = refl

analyze-IsInnermost_example :
    ((id : ℕ)
      → (lookup table false false 34 (word (codes "B") ∷ []) ≡ found id)
        ↔ ((t : ℕ) × IsInnermost table false (word (codes "B")) [] 34 id t))
    × (lookup table false false 34 (word (codes "B") ∷ []) ≢ pass)
analyze-IsInnermost_example =
    analyze-IsInnermost three_files table analyzed false (word (codes "B")) [] 34
      (omega (arith, nodes_counted))

analyze-lookup_name_example :
    (t : ℕ) × (us : List Text) × Trail table.ns_nodes (outward table t 34) us
    × (segs table 32 ≡ us ++ texts (word (codes "B") ∷ []))
analyze-lookup_name_example =
    analyze-lookup_name three_files table analyzed false (word (codes "B")) [] 34 32
      (omega (arith, nodes_counted)) found_outside

analyze-lookup_fq_example :
    (lookup_fq table (codes "a.B") ≡ some 32)
    ↔ ((32 < sym_count table) × (segs table 32 ≡ split b'.' (codes "a.B")))
analyze-lookup_fq_example = analyze-lookup_fq three_files table analyzed (codes "a.B") 32

segments_of_b : segs table 32 ≡ codes "a" ∷ codes "B" ∷ []
unfolding table analyze sym_count segs
segments_of_b = refl

analyze-lookup_fq-fq_example : lookup_fq table (fq table 32) ≡ some 32
analyze-lookup_fq-fq_example =
    analyze-lookup_fq-fq three_files table analyzed 32 (codes "a") (codes "B" ∷ [])
      (omega (arith, symbols_counted)) segments_of_b ((refl, tt), ((refl, tt), tt))
