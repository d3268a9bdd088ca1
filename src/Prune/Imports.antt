-- ===== src/Prune/Imports.antt =====
-- src/prune.rs: which files the kept symbols need, and which import lines survive. The hash sets
-- are lists without order, and the map from paths to files is a function.
pub mod Needed
use pbpp.Prelude.{
  ℕ, zero, suc, Bool, true, false, not, ◌&&◌, ◌||◌, Option, none, some, List, [], ◌∷◌,
  if◌then◌else◌, ◌==◌, get_or, any, update,
}
use pbpp.Text.{Text, text_eq}
use pbpp.Cst.{ImportKind}
use pbpp.Sema.Symbols.{Sema, Ref, sym, sym_count, children, refs}
use pbpp.Select.Selection.{Selected, is_kept}

-- The files and the well-known paths that a file's kept symbols refer to.
pub record Providers : Type 0 where
  pub files : List ℕ
  pub wkts : List Text

abbrev pub nothing : Providers
nothing = record { files = []; wkts = [] }

abbrev text_of : Option Text → Text
text_of none = []
text_of (some t) = t

-- One reference of a kept symbol in file `sf`: what it adds to that file's providers.
unfoldable pub provider : ℕ → Option ℕ → Option Text → Providers → Providers
provider sf none wkt p = record p { wkts = text_of wkt ∷ p.wkts }
provider sf (some tf) wkt p = if tf == sf then p else record p { files = tf ∷ p.files }

unfoldable pub add_refs : Sema → ℕ → List Ref → Providers → Providers
unfolding provider
add_refs sema sf [] p = p
add_refs sema sf (r ∷ rs) p =
    add_refs sema sf rs (provider sf (sym sema r.target).file (sym sema r.target).wkt_path p)

-- One round of the loop of `needed_providers`: the symbol `i`, of the file that it names.
unfoldable pub add_symbol : Sema → Selected → ℕ → Option ℕ → (ℕ → Providers) → ℕ → Providers
unfolding add_refs
add_symbol sema sel i none needed = needed
add_symbol sema sel i (some sf) needed =
    if is_kept sel i then update needed sf (add_refs sema sf (refs sema i) (needed sf)) else needed

unfoldable pub add_symbols : Sema → Selected → ℕ → ℕ → (ℕ → Providers) → ℕ → Providers
unfolding add_symbol
add_symbols sema sel zero i needed = needed
add_symbols sema sel (suc n) i needed =
    add_symbols sema sel n (suc i) (add_symbol sema sel i (sym sema i).file needed)

unfoldable pub needed_providers : Sema → Selected → ℕ → Providers
unfolding add_symbols
needed_providers sema sel = add_symbols sema sel (sym_count sema) 0 (λ _. nothing)

abbrev pub has_file : List ℕ → ℕ → Bool
has_file fs f = any (λ x. x == f) fs

abbrev pub has_text : List Text → Text → Bool
has_text ts t = any (λ x. text_eq x t) ts

abbrev pub is_public : ImportKind → Bool
is_public ImportKind.plain = false
is_public ImportKind.public = true
is_public ImportKind.weak = false

abbrev provides_of : Sema → ℕ → List ℕ × List Text
provides_of sema t = get_or sema.provides t ([], [])

module _ (sema : Sema) (kept_files : ℕ → Bool) where
  abbrev serves : List ℕ × List Text → Providers → Bool
  serves (files, wkts) needed =
      any (λ f. has_file needed.files f) files || any (λ w. has_text needed.wkts w) wkts

  survives : Option ℕ → Providers → Text → ImportKind → Bool
  survives (some t) needed path kind =
      if not (kept_files t)
      then false
      else if is_public kind
      then true
      else serves (provides_of sema t) needed
  survives none needed path kind = is_public kind || has_text needed.wkts path

  -- `import_survives`: the line `import <kind> <path>` in a file that needs `needed`.
  unfoldable pub import_survives : (Text → Option ℕ) → Providers → Text → ImportKind → Bool
  unfolding survives text_eq
  import_survives path_to_idx needed path kind = survives (path_to_idx path) needed path kind
