-- ===== src/Tests/Resolving.antt =====
-- The references and the children of a table of `message A { A b = 1; A c = 2; }`.
use pbpp.Prelude.{
  ◌≡◌, refl, ◌<◌, ℕ, zero, suc, false, Option, none, some, List, [], ◌∷◌, ok, arith, get_or,
}
use pbpp.Prelude.Int.{pos}
use pbpp.Text.{Text, codes}
use pbpp.FileSet.{FileSet}
use pbpp.Sema.Kind.{SymKind}
use pbpp.Sema.Symbols.{NsNode, Symbol, blank_symbol, sym_count, children, refs}
use pbpp.Sema.Build.{Builder, PendingRef}
use pbpp.Sema.Children.{build_children}
use pbpp.Sema.Children.Arena.{kids}
use pbpp.Sema.Children.Layout.{build_children-kids}
use pbpp.Sema.Imports.{Provided}
use pbpp.Sema.Resolve.{resolve_refs}
use pbpp.Sema.Resolve.Rows.{own, Resolved}
use pbpp.Sema.Resolve.Owned.{resolve_refs-own}
use pbpp.Tests.Sample.{sample, entry}
use pbpp.Tests.Building.{file_of, word, path_at}

abbrev named_node : ℕ → Text → Option ℕ → NsNode
named_node parent name symbol = record { parent = parent; name = name; sym = symbol }

abbrev at_node : ℕ → Symbol → Symbol
at_node n s = record s { ns = n }

abbrev waiting : ℕ → PendingRef
waiting owner = record { owner = owner; file = 0; path = path_at 0; message_only = false }

abbrev two_fields : Builder
two_fields = record {
  sema = record sample {
    symbols =
        at_node 1 (entry SymKind.message 0 1 (some 0) none none none)
        ∷ at_node 2 (entry SymKind.field 1 2 (some 0) (some 0) (some (pos 1)) none)
        ∷ at_node 3 (entry SymKind.field 3 2 (some 0) (some 0) (some (pos 2)) none)
        ∷ [];
    ns_nodes =
        named_node 0 [] none
        ∷ named_node 0 (codes "A") (some 0)
        ∷ named_node 1 (codes "b") (some 1)
        ∷ named_node 1 (codes "c") (some 2)
        ∷ [];
    ns_index = ((1, codes "c"), 3) ∷ ((1, codes "b"), 2) ∷ ((0, codes "A"), 1) ∷ [];
  };
  pending = waiting 1 ∷ waiting 2 ∷ [];
}

parents_known : (i q : ℕ) → (get_or two_fields.sema.symbols i blank_symbol).parent ≡ some q → q < 3
parents_known zero q e = cc
parents_known (suc zero) q e = let h : 0 ≡ q = cc in omega (arith, h)
parents_known (suc (suc zero)) q e = let h : 0 ≡ q = cc in omega (arith, h)
parents_known (suc (suc (suc i))) q e = cc

build_children-kids_example :
    children (build_children two_fields).sema 0 ≡ kids 0 two_fields.sema.symbols 0
build_children-kids_example = build_children-kids two_fields 0 parents_known (omega arith)

both_are_children : kids 0 two_fields.sema.symbols 0 ≡ 1 ∷ 2 ∷ []
both_are_children = refl

abbrev one_file : FileSet
one_file = record { files = file_of (codes "m.proto") (word (codes "A") ∷ []) [] 3 ∷ [] }

abbrev sees_itself : List Provided
sees_itself = (0 ∷ [], []) ∷ []

abbrev two_resolved : Builder
two_resolved = record {
  sema = record two_fields.sema {
    refs_arena =
        record { span = (path_at 0).span; target = 0 }
        ∷ record { span = (path_at 0).span; target = 0 }
        ∷ [];
    refs_off = 0 ∷ 0 ∷ 1 ∷ 2 ∷ [];
  };
  pending = [];
}

resolves : resolve_refs one_file sees_itself two_fields ≡ ok two_resolved
unfolding resolve_refs sym_count
resolves = refl

resolve_refs-own_example :
    Resolved one_file sees_itself two_fields.sema
      (own 1 two_fields.pending)
      (refs two_resolved.sema 1)
unfolding sym_count
resolve_refs-own_example =
    resolve_refs-own one_file sees_itself two_fields two_resolved ((omega arith, tt), (tt, tt))
      resolves 1 (omega arith)
