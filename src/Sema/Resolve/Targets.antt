-- ===== src/Sema/Resolve/Targets.antt =====
-- src/sema.rs: what a reference that is resolved names.
use pbpp.Prelude.{
  ℕ, zero, suc, ◌≡◌, ◌∙◌, refl, ap, subst, inl, inr, get_or, Bool, true, false, Bool-cases, Option,
  none, some, List, [], ◌∷◌, ◌==◌, if◌then◌else◌, ok, err, >>=-eq-ok,
}
use pbpp.Cst.Nodes.{Word}
use pbpp.FileSet.{FileSet}
use pbpp.Sema.Kind.{SymKind, is_def}
use pbpp.Sema.Symbols as Symbols
use pbpp.Sema.Symbols.{Sema, sym_count}
use pbpp.Sema.Build.{wrong_kind, not_visible, PendingRef, ns_root, node}
use pbpp.Sema.Imports.{Provided, nothing_provided}
use pbpp.Sema.Resolve.Steps.{final-found, judge_at-descend_syms}
use pbpp.Sema.Resolve.{
  descend, descend_syms, Verdict, found, missed, pass, is_type, judge_at, climb, lookup, start_ns,
  path_words, settle, resolve_path, ok_kind, sees, resolve_one,
}

-- The symbol is defined at some namespace node.
abbrev pub IsNamed : Sema → ℕ → Type 0
IsNamed sema id = (n : ℕ) × ((node sema n).sym ≡ some id)

descend_syms-IsNamed :
    (sema : Sema) (ns id : ℕ) (ws : List Word) → descend_syms sema ns ws ≡ some id → IsNamed sema id
unfolding descend_syms
descend_syms-IsNamed sema ns id ws e = at_end (descend sema ns ws) e
  where
    at_end :
        (o : Option ℕ)
        → elim o [ none ↦ none | some n ↦ (node sema n).sym ] ≡ some id
        → IsNamed sema id
    at_end none e = cc
    at_end (some n) e = (n, e)

judge_at-IsNamed :
    (sema : Sema) (message_only : Bool) (first : Word) (rest : List Word) (base id : ℕ)
    → judge_at sema message_only first rest base ≡ found id
    → IsNamed sema id
judge_at-IsNamed sema m first rest base id e =
    descend_syms-IsNamed sema base id (first ∷ rest)
      (judge_at-descend_syms sema m first rest base id e)

climb-IsNamed :
    (sema : Sema) (message_only : Bool) (first : Word) (rest : List Word) (k base id : ℕ)
    → climb sema message_only first rest k base ≡ found id
    → IsNamed sema id
unfolding climb
climb-IsNamed sema m first rest zero base id e = cc
climb-IsNamed sema m first rest (suc k) base id e =
    named (climb-IsNamed sema m first rest k (node sema base).parent id)
      (judge_at sema m first rest base) refl e
  where
    named :
        (climb sema m first rest k (node sema base).parent ≡ found id → IsNamed sema id)
        → (v : Verdict) → judge_at sema m first rest base ≡ v
        → elim v [
          | found id ↦ found id
          | missed anchor ↦ missed anchor
          | pass ↦
              if base == ns_root
              then missed none
              else climb sema m first rest k (node sema base).parent
        ]
          ≡ found id
        → IsNamed sema id
    named outward (found x) here e = judge_at-IsNamed sema m first rest base id (here ∙ e)
    named outward (missed anchor) here e = cc
    named outward pass here e = elim (Bool-cases (base == ns_root)) [
      | inl root ↦ let clash : missed none ≡ found id = rw root at e in cc
      | inr inside ↦ outward (rw inside at e)
    ]

lookup-IsNamed :
    (sema : Sema) (dot message_only : Bool) (start id : ℕ) (ws : List Word)
    → lookup sema dot message_only start ws ≡ found id
    → IsNamed sema id
unfolding lookup
lookup-IsNamed sema true m start id ws e =
    descend_syms-IsNamed sema ns_root id ws (final-found none (descend_syms sema ns_root ws) id e)
lookup-IsNamed sema false m start id [] e = cc
lookup-IsNamed sema false m start id (w ∷ ws) e = climb-IsNamed sema m w ws (suc start) start id e

settle-found : (p : PendingRef) (v : Verdict) (id : ℕ) → settle p v ≡ ok id → v ≡ found id
settle-found p (found x) id e = cc
settle-found p (missed anchor) id e = cc
settle-found p pass id e = cc

ok_kind-is_def :
    (message_only : Bool) (kind : SymKind) → ok_kind message_only kind ≡ true → is_def kind ≡ true
unfolding is_def is_type
ok_kind-is_def true SymKind.message e = refl
ok_kind-is_def true SymKind.enum e = cc
ok_kind-is_def true SymKind.service e = cc
ok_kind-is_def true SymKind.field e = cc
ok_kind-is_def true SymKind.enum_value e = cc
ok_kind-is_def true SymKind.method e = cc
ok_kind-is_def false SymKind.message e = refl
ok_kind-is_def false SymKind.enum e = refl
ok_kind-is_def false SymKind.service e = cc
ok_kind-is_def false SymKind.field e = cc
ok_kind-is_def false SymKind.enum_value e = cc
ok_kind-is_def false SymKind.method e = cc

module _ (fileset : FileSet) (visible : List Provided) (sema : Sema) where
  abbrev IsFit : PendingRef → ℕ → Type 0
  IsFit p id =
      (ok_kind p.message_only (Symbols.sym sema id).kind ≡ true)
      × (sees (get_or visible p.file nothing_provided) (Symbols.sym sema id).file
            (Symbols.sym sema id).wkt_path
          ≡ true)

  -- What `resolve_one` answers is what the path names, of the right kind, and visible.
  pub resolve_one-IsFit :
      (p : PendingRef) (id : ℕ)
      → resolve_one fileset visible sema p ≡ ok id
      → (resolve_path fileset visible sema p ≡ ok id) × IsFit p id
  unfolding resolve_one
  resolve_one-IsFit p id e =
      let (t, one, rest) = >>=-eq-ok (resolve_path fileset visible sema p) _ e in
      elim (Bool-cases (ok_kind p.message_only (Symbols.sym sema t).kind)) [
        | inr other ↦
            let clash : err (wrong_kind p.file p.path.span t) ≡ ok id = rw other at rest in cc
        | inl kind ↦
            elim (Bool-cases (
              sees (get_or visible p.file nothing_provided) (Symbols.sym sema t).file
                (Symbols.sym sema t).wkt_path)) [
                  | inr hidden ↦
                      let clash : err (not_visible p.file p.path.span t) ≡ ok id =
                        rw hidden at (rw kind at rest) in
                      cc
                  | inl seen ↦
                      let same_ok : ok t ≡ ok id = rw seen at (rw kind at rest) in
                      let same : t ≡ id = cc in
                      (one ∙ ap ok same, subst (IsFit p) same (kind, seen))
                ]
      ]

  pub resolve_one-IsNamed :
      (p : PendingRef) (id : ℕ)
      → resolve_one fileset visible sema p ≡ ok id
      → IsNamed sema id × (is_def (Symbols.sym sema id).kind ≡ true)
  unfolding resolve_path
  resolve_one-IsNamed p id e =
      let (path, (kind, seen)) = resolve_one-IsFit p id e in
      let v =
        lookup sema p.path.leading_dot p.message_only (start_ns sema p) (path_words fileset p) in
      (
        lookup-IsNamed sema p.path.leading_dot p.message_only (start_ns sema p) id
            (path_words fileset p) (settle-found p v id path),
        ok_kind-is_def p.message_only (Symbols.sym sema id).kind kind,
      )
