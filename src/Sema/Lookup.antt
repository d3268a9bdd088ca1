-- ===== src/Sema/Lookup.antt =====
-- src/sema.rs: `Sema::lookup_fq`, which scans the namespace nodes.
pub mod Agrees
use pbpp.Prelude.{ℕ, suc, Option, none, some, List, [], ◌∷◌, ◌&&◌, ◌==◌, if◌then◌else◌, drop}
use pbpp.Text.{Text, text_eq, split}
use pbpp.Sema.Symbols.{Sema, NsNode}
use pbpp.Sema.Build.{ns_root, node}

-- The first of the nodes, numbered from `i` on, with the parent and the name.
unfoldable pub scan : List NsNode → ℕ → ℕ → Text → Option ℕ
unfolding text_eq
scan [] i parent name = none
scan (n ∷ ns) i parent name =
    if n.parent == parent && text_eq n.name name then some i else scan ns (suc i) parent name

-- The loop over the segments; the root itself is not addressable.
unfoldable pub scan_down : Sema → ℕ → List Text → Option ℕ
unfolding scan
scan_down sema ns [] = some ns
scan_down sema ns (s ∷ ss) = elim (scan (drop 1 sema.ns_nodes) 1 ns s) [
  | none ↦ none
  | some next ↦ scan_down sema next ss
]

unfoldable pub lookup_fq : Sema → Text → Option ℕ
unfolding scan_down split node
lookup_fq sema fq = elim (scan_down sema ns_root (split b'.' fq)) [
  | none ↦ none
  | some ns ↦ (node sema ns).sym
]
