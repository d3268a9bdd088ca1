-- ===== src/Tests/Importing.antt =====
-- The sample table over two files: its message B stands in file 1.
use pbpp.Prelude.{◌≡◌, refl, ◌↔◌, ◌<◌, ℕ, false, true, none, some, [], ◌∷◌, In}
use pbpp.Prelude.Int.{pos}
use pbpp.Text.{codes}
use pbpp.Cst.{ImportKind}
use pbpp.Sema.Kind.{SymKind}
use pbpp.Sema.Symbols.{Sema, sym, sym_count, refs}
use pbpp.Select.Mark.{explicit}
use pbpp.Select.Selection.{Selected, is_kept}
use pbpp.Prune.Imports.{needed_providers, import_survives}
use pbpp.Prune.Imports.Needed.{Needs, needed_providers-Needs}
use pbpp.Tests.Sample.{sample, entry}

abbrev two_files : Sema
two_files = record sample {
  symbols =
      entry SymKind.message 0 3 none none none (some (codes "google/protobuf/any.proto"))
      ∷ entry SymKind.message 3 2 (some 0) none none none
      ∷ entry SymKind.field 5 3 (some 0) (some 1) (some (pos 1)) none
      ∷ entry SymKind.field 8 3 (some 0) (some 1) (some (pos 2)) none
      ∷ entry SymKind.message 11 2 (some 1) none none none
      ∷ entry SymKind.enum 13 2 (some 0) none none none
      ∷ entry SymKind.enum_value 15 3 (some 0) (some 5) (some (pos 0)) none
      ∷ [];
  provides = (0 ∷ [], []) ∷ (1 ∷ [], []) ∷ [];
}

abbrev all_kept : Selected
all_kept = record {
  marks = λ s. explicit;
  cascade_dropped = λ s. false;
  introduced_by = λ s. none;
  decided_by = λ s. none;
}

first_needs_second : (needed_providers two_files all_kept 0).files ≡ 1 ∷ []
unfolding needed_providers is_kept sym sym_count refs
first_needs_second = refl

import_kept :
    import_survives two_files
      (λ _. true)
      (λ _. some 1)
      (needed_providers two_files all_kept 0)
      (codes "b.proto")
      ImportKind.plain
    ≡ true
unfolding import_survives needed_providers is_kept sym sym_count refs
import_kept = refl

needed_providers-Needs_example :
    In 1 (needed_providers two_files all_kept 0).files
    ↔ ((i : ℕ) × (i < sym_count two_files) × Needs two_files all_kept 0 1 i)
needed_providers-Needs_example = needed_providers-Needs two_files all_kept 0 1
