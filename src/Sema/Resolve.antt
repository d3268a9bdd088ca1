-- ===== src/Sema/Resolve.antt =====
-- src/sema.rs: resolution of the references that wait. The texts of the errors are not made.
pub mod Steps
pub mod Targets
pub mod Rows
pub mod Owned
pub mod ByName
pub mod Innermost
pub mod Rule
use pbpp.Prelude.{
  ℕ, zero, suc, ◌^◌, Bool, true, false, ◌||◌, Option, none, some, List, [], ◌∷◌, ◌++◌,
  if◌then◌else◌, ◌==◌, any, leb, get_elem?, get_or, length, Result, ok, err, ◌>>=◌,
}
use pbpp.Text.{Text, text_eq}
use pbpp.Cst.{File}
use pbpp.Cst.Nodes.{Word, slice}
use pbpp.FileSet.{SetFile, FileSet}
use pbpp.Sema.Kind.{SymKind, is_def}
use pbpp.Sema.Symbols.{Sema, Symbol, Ref, sym, sym_count}
use pbpp.Sema.Build.{
  SemaError, too_large, unresolved, wrong_kind, not_visible, PendingRef, Builder, ns_root, node,
  ns_child,
}
use pbpp.Sema.Imports.{Provided, nothing_provided, has_file}

-- The loop of `Sema::descend_syms`.
unfoldable pub descend : Sema → ℕ → List Word → Option ℕ
unfolding ns_child
descend sema ns [] = some ns
descend sema ns (w ∷ ws) = elim (ns_child sema ns w.text) [
  | none ↦ none
  | some next ↦ descend sema next ws
]

unfoldable pub descend_syms : Sema → ℕ → List Word → Option ℕ
unfolding descend node
descend_syms sema base ws = elim (descend sema base ws) [
  | none ↦ none
  | some ns ↦ (node sema ns).sym
]

-- What one scope says of a path: the symbol, a miss that is final, or nothing.
pub data Verdict : Type 0 where
  found : ℕ → Verdict
  missed : Option ℕ → Verdict
  pass : Verdict

-- `matches!(kind, Message | Enum)`.
unfoldable pub is_type : SymKind → Bool
is_type SymKind.message = true
is_type SymKind.enum = true
is_type _ = false

abbrev pub final : Option ℕ → Option ℕ → Verdict
final anchor none = missed anchor
final anchor (some id) = found id

module _ (sema : Sema) (message_only : Bool) where
  -- The node `ns` that the first segment named, the rest of the path, and the node's symbol.
  unfoldable pub judge : List Word → ℕ → Option ℕ → Verdict
  unfolding descend_syms is_def is_type
  judge (w ∷ ws) ns none = final (some ns) (descend_syms sema ns (w ∷ ws))
  judge (w ∷ ws) ns (some id) =
      if is_def (sym sema id).kind then final (some ns) (descend_syms sema ns (w ∷ ws)) else pass
  judge [] ns (some id) = if message_only || is_type (sym sema id).kind then found id else pass
  judge [] ns none = if message_only then missed none else pass

  -- The body of the loop at the scope `base`.
  unfoldable pub judge_at : Word → List Word → ℕ → Verdict
  unfolding judge ns_child node
  judge_at first rest base = elim (ns_child sema base first.text) [
    | none ↦ pass
    | some ns ↦ judge rest ns (node sema ns).sym
  ]

  -- The loop, with fuel: from the scope `base` outwards.
  unfoldable pub climb : Word → List Word → ℕ → ℕ → Verdict
  unfolding judge_at node
  climb first rest zero base = pass
  climb first rest (suc k) base =
      let outer = climb first rest k (node sema base).parent in
      elim (judge_at first rest base) [
        | found id ↦ found id
        | missed anchor ↦ missed anchor
        | pass ↦ if base == ns_root then missed none else outer
      ]

module _ (fileset : FileSet) where
  unfoldable pub path_words : PendingRef → List Word
  unfolding slice
  path_words p = elim (get_elem? fileset.files p.file) [
    | none ↦ []
    | some f ↦ slice p.path.segs f.cst.segs
  ]

module _ (sema : Sema) where
  -- The namespace node of the owner's enclosing definition.
  unfoldable pub start_of : Option ℕ → ℕ
  unfolding sym
  start_of none = ns_root
  start_of (some parent) = (sym sema parent).ns

  unfoldable pub start_ns : PendingRef → ℕ
  unfolding start_of sym
  start_ns p = start_of (sym sema p.owner).parent

  -- Node ids fall along parents, so the id of the first scope bounds the climb.
  unfoldable pub lookup : Bool → Bool → ℕ → List Word → Verdict
  unfolding descend_syms climb
  lookup true message_only start ws = final none (descend_syms sema ns_root ws)
  lookup false message_only start [] = missed none
  lookup false message_only start (first ∷ rest) =
      climb sema message_only first rest (suc start) start

abbrev pub settle : PendingRef → Verdict → Result SemaError ℕ
settle p (found id) = ok id
settle p (missed anchor) = err (unresolved p.file p.path.span anchor)
settle p pass = err (unresolved p.file p.path.span none)

abbrev pub ok_kind : Bool → SymKind → Bool
ok_kind true SymKind.message = true
ok_kind true _ = false
ok_kind false kind = is_type kind

-- What the file sees: a symbol of a file with its file, a well-known type with its path.
unfoldable pub sees : Provided → Option ℕ → Option Text → Bool
unfolding text_eq
sees seen (some target_file) wkt_path = has_file seen.0 target_file
sees seen none (some path) = any (λ w. text_eq w path) seen.1
sees seen none none = false

module _ (fileset : FileSet) (visible : List Provided) (sema : Sema) where
  unfoldable pub resolve_path : PendingRef → Result SemaError ℕ
  unfolding lookup start_ns path_words
  resolve_path p =
      settle p
        (lookup sema p.path.leading_dot p.message_only (start_ns sema p) (path_words fileset p))

  unfoldable pub resolve_one : PendingRef → Result SemaError ℕ
  unfolding resolve_path sees sym is_type
  resolve_one p = resolve_path p >>= λ target.
      if ok_kind p.message_only (sym sema target).kind
      then (if sees (get_or visible p.file nothing_provided) (sym sema target).file
            (sym sema target).wkt_path
          then ok target
          else err (not_visible p.file p.path.span target))
      else err (wrong_kind p.file p.path.span target)

  -- The inner loop: the references of the owner `i`, behind those resolved before.
  unfoldable pub take_refs :
      ℕ → List PendingRef → List Ref → Result SemaError (List Ref × List PendingRef)
  unfolding resolve_one
  take_refs i [] refs = ok (refs, [])
  take_refs i (p ∷ ps) refs =
      let taken = resolve_one p >>= λ target.
      take_refs i ps (refs ++ record { span = p.path.span; target = target } ∷ []) in
      if p.owner == i then taken else ok (refs, p ∷ ps)

  -- The outer loop: `n` owners from `i` on.
  unfoldable pub resolve_rows :
      ℕ → ℕ → List PendingRef → List Ref → List ℕ → Result SemaError (List Ref × List ℕ)
  unfolding take_refs
  resolve_rows zero i pending refs off = ok (refs, off ++ length refs ∷ [])
  resolve_rows (suc n) i pending refs off =
      if leb (2 ^ 32) (length refs)
      then err too_large
      else (take_refs i pending refs >>= λ (refs', rest).
          resolve_rows n (suc i) rest refs' (off ++ length refs ∷ []))

unfoldable pub resolve_refs : FileSet → List Provided → Builder → Result SemaError Builder
unfolding resolve_rows
resolve_refs fileset visible b =
    resolve_rows fileset visible b.sema (sym_count b.sema) 0 b.pending [] [] >>= λ (refs, off).
    ok (record { sema = record b.sema { refs_arena = refs; refs_off = off }; pending = [] })
