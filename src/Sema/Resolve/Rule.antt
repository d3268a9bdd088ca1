-- ===== src/Sema/Resolve/Rule.antt =====
-- src/sema.rs: the scoping rule that the lookup of `resolve_path` follows, and the scope it takes.
use pbpp.Prelude.{
  ℕ, ◌<◌, ◌≡◌, ◌≢◌, ◌∙◌, ◌⊎◌, refl, sym, ap, inl, inr, ◌↔◌, Bool, true, false, Bool-cases, ◌||◌,
  Option, none, some, List, [], ◌∷◌, arith, length,
}
use pbpp.Cst.Nodes.{Word}
use pbpp.Sema.Kind.{SymKind, is_def}
use pbpp.Sema.Symbols as Symbols
use pbpp.Sema.Symbols.{Sema}
use pbpp.Sema.Build.{ns_root, node, find_ns, ns_child}
use pbpp.Sema.Build.Names.{IsTree}
use pbpp.Sema.Resolve.{
  Verdict, found, missed, pass, final, is_type, judge, judge_at, descend, descend_syms, lookup,
}
use pbpp.Sema.Resolve.Steps.{final-found}
use pbpp.Sema.Resolve.Innermost.{outward, lookup-IsFirst}

-- A message or an enum.
abbrev pub IsType : SymKind → Type 0
IsType k = (k ≡ SymKind.message) ⊎ (k ≡ SymKind.enum)

-- A message, an enum or a service.
abbrev pub IsDef : SymKind → Type 0
IsDef k = IsType k ⊎ (k ≡ SymKind.service)

is_type_iff : (k : SymKind) → (is_type k ≡ true) ↔ IsType k
unfolding is_type
is_type_iff SymKind.message = (λ e. inl refl, λ h. refl)
is_type_iff SymKind.enum = (λ e. inr refl, λ h. refl)
is_type_iff SymKind.service = (λ e. cc, λ h. ground arith)
is_type_iff SymKind.field = (λ e. cc, λ h. ground arith)
is_type_iff SymKind.enum_value = (λ e. cc, λ h. ground arith)
is_type_iff SymKind.method = (λ e. cc, λ h. ground arith)

is_def_iff : (k : SymKind) → (is_def k ≡ true) ↔ IsDef k
unfolding is_def
is_def_iff SymKind.message = (λ e. inl (inl refl), λ h. refl)
is_def_iff SymKind.enum = (λ e. inl (inr refl), λ h. refl)
is_def_iff SymKind.service = (λ e. inr refl, λ h. refl)
is_def_iff SymKind.field = (λ e. cc, λ h. ground arith)
is_def_iff SymKind.enum_value = (λ e. cc, λ h. ground arith)
is_def_iff SymKind.method = (λ e. cc, λ h. ground arith)

final_iff : (o anchor : Option ℕ) (id : ℕ) → (final anchor o ≡ found id) ↔ (o ≡ some id)
final_iff none anchor id = (λ e. cc, λ e. cc)
final_iff (some x) anchor id =
    (λ e. final-found anchor (some x) id e, λ e. let same : x ≡ id = cc in rw same)

descend_syms-empty : (sema : Sema) (ns : ℕ) → descend_syms sema ns [] ≡ (node sema ns).sym
unfolding descend_syms descend
descend_syms-empty sema ns = refl

module _ (sema : Sema) (message_only : Bool) where
  -- The name `ns`, whose symbol is `o`, stops the search for a path of which `rest` is left: a
  -- longer path at a package or at a definition, and a single word at a type, or at any name where
  -- only messages are looked for.
  unfoldable pub Stops : Option ℕ → List Word → Type 0
  Stops none (w ∷ ws) = Unit
  Stops (some id) (w ∷ ws) = IsDef (Symbols.sym sema id).kind
  Stops none [] = message_only ≡ true
  Stops (some id) [] = (message_only ≡ true) ⊎ IsType (Symbols.sym sema id).kind

  module _ (first : Word) (rest : List Word) where
    -- The first word is a name in the scope `base` that stops the search.
    abbrev pub IsAnchor : ℕ → ℕ → Type 0
    IsAnchor base ns = (ns_child sema base first.text ≡ some ns) × Stops (node sema ns).sym rest

    -- The innermost scope around `start` with a name that stops the search is `t` levels out, and
    -- the rest of the path leads from that name to the symbol.
    abbrev pub IsInnermost : ℕ → ℕ → ℕ → Type 0
    IsInnermost start id t =
        ((u : ℕ)
          → u < t
          → (outward sema u start ≢ ns_root) × ((ns : ℕ) → ¬ IsAnchor (outward sema u start) ns))
        × ((ns : ℕ) × IsAnchor (outward sema t start) ns × (descend_syms sema ns rest ≡ some id))

  Stops-single :
      (k : SymKind) → (message_only || is_type k ≡ true) ↔ ((message_only ≡ true) ⊎ IsType k)
  Stops-single k = elim (Bool-cases message_only) [
    | inl all ↦ (λ e. inl all, λ h. rw all)
    | inr types ↦ (
      λ e. inr ((is_type_iff k).0 (rw types at e)),
      λ h. elim h [
        | inl all ↦ let clash : true ≡ false = sym all ∙ types in cc
        | inr type ↦ rw types ((is_type_iff k).1 type)
      ],
    )
  ]

  unfoldable judged : List Word → Option ℕ → Verdict
  judged rest none = pass
  judged rest (some ns) = judge sema message_only rest ns (node sema ns).sym

  final-not-pass : (anchor o : Option ℕ) → final anchor o ≢ pass
  final-not-pass anchor none e = cc
  final-not-pass anchor (some id) e = cc

  judge-Stops :
      (rest : List Word) (ns : ℕ) (o : Option ℕ)
      → Stops o rest
      → judge sema message_only rest ns o ≢ pass
  unfolding judge Stops
  judge-Stops (w ∷ ws) ns none h e = final-not-pass (some ns) (descend_syms sema ns (w ∷ ws)) e
  judge-Stops (w ∷ ws) ns (some id) h e =
      final-not-pass (some ns) (descend_syms sema ns (w ∷ ws))
        (rw ((is_def_iff (Symbols.sym sema id).kind).1 h) at e)
  judge-Stops [] ns none h e = let clash : missed none ≡ pass = rw h at e in cc
  judge-Stops [] ns (some id) h e =
      let clash : found id ≡ pass = rw ((Stops-single (Symbols.sym sema id).kind).1 h) at e in cc

  judge-passes :
      (rest : List Word) (ns : ℕ) (o : Option ℕ)
      → ¬ Stops o rest
      → judge sema message_only rest ns o ≡ pass
  unfolding judge Stops
  judge-passes (w ∷ ws) ns none h = absurd (h tt)
  judge-passes (w ∷ ws) ns (some id) h = elim (Bool-cases (is_def (Symbols.sym sema id).kind)) [
    | inl def ↦ absurd (h ((is_def_iff (Symbols.sym sema id).kind).0 def))
    | inr other ↦ rw other
  ]
  judge-passes [] ns none h = elim (Bool-cases message_only) [
    | inl all ↦ absurd (h all)
    | inr types ↦ rw types
  ]
  judge-passes [] ns (some id) h =
      elim (Bool-cases (message_only || is_type (Symbols.sym sema id).kind)) [
        | inl stops ↦ absurd (h ((Stops-single (Symbols.sym sema id).kind).0 stops))
        | inr other ↦ rw other
      ]

  judge-found :
      (rest : List Word) (ns id : ℕ) (o : Option ℕ)
      → (node sema ns).sym ≡ o
      → Stops o rest
      → (judge sema message_only rest ns o ≡ found id) ↔ (descend_syms sema ns rest ≡ some id)
  unfolding judge Stops
  judge-found (w ∷ ws) ns id none e h = final_iff (descend_syms sema ns (w ∷ ws)) (some ns) id
  judge-found (w ∷ ws) ns id (some s) e h =
      rw ((is_def_iff (Symbols.sym sema s).kind).1 h)
        (final_iff (descend_syms sema ns (w ∷ ws)) (some ns) id)
  judge-found [] ns id none e h = rw (h, descend_syms-empty sema ns, e) ((λ x. cc), (λ x. cc))
  judge-found [] ns id (some s) e h =
      rw ((Stops-single (Symbols.sym sema s).kind).1 h, descend_syms-empty sema ns, e)
        ((λ x. let same : s ≡ id = cc in rw same), (λ x. let same : s ≡ id = cc in rw same))

  Stops-cases : (o : Option ℕ) (rest : List Word) → Stops o rest ⊎ (¬ Stops o rest)
  unfolding Stops
  Stops-cases none (w ∷ ws) = inl tt
  Stops-cases (some id) (w ∷ ws) = elim (Bool-cases (is_def (Symbols.sym sema id).kind)) [
    | inl def ↦ inl ((is_def_iff (Symbols.sym sema id).kind).0 def)
    | inr other ↦ inr (λ h.
        let clash : true ≡ false = sym ((is_def_iff (Symbols.sym sema id).kind).1 h) ∙ other in cc)
  ]
  Stops-cases none [] = elim (Bool-cases message_only) [
    | inl all ↦ inl all
    | inr types ↦ inr (λ h. let clash : true ≡ false = sym h ∙ types in cc)
  ]
  Stops-cases (some id) [] =
      elim (Bool-cases (message_only || is_type (Symbols.sym sema id).kind)) [
        | inl stops ↦ inl ((Stops-single (Symbols.sym sema id).kind).0 stops)
        | inr other ↦ inr (λ h.
            let clash : true ≡ false =
              sym ((Stops-single (Symbols.sym sema id).kind).1 h) ∙ other in
            cc)
      ]

  module _ (first : Word) (rest : List Word) (base : ℕ) where
    judge_at-child :
        (o : Option ℕ)
        → ns_child sema base first.text ≡ o
        → judge_at sema message_only first rest base ≡ judged rest o
    unfolding judge_at ns_child judged
    judge_at-child o e = opened (find_ns sema.ns_index base first.text) ∙ ap (judged rest) e
      where
        opened :
            (p : Option ℕ)
            → elim p [ none ↦ pass | some ns ↦ judge sema message_only rest ns (node sema ns).sym ]
              ≡ judged rest p
        opened none = refl
        opened (some ns) = refl

    judge_at-none :
        ns_child sema base first.text ≡ none → judge_at sema message_only first rest base ≡ pass
    unfolding judged
    judge_at-none e = judge_at-child none e

    judge_at-some :
        (ns : ℕ)
        → ns_child sema base first.text ≡ some ns
        → judge_at sema message_only first rest base
          ≡ judge sema message_only rest ns (node sema ns).sym
    unfolding judged
    judge_at-some ns e = judge_at-child (some ns) e

    judge_at-pass :
        (judge_at sema message_only first rest base ≡ pass)
        ↔ ((ns : ℕ) → ¬ IsAnchor first rest base ns)
    judge_at-pass = by (ns_child sema base first.text) refl
      where
        by :
            (o : Option ℕ)
            → ns_child sema base first.text ≡ o
            → (judge_at sema message_only first rest base ≡ pass)
              ↔ ((ns : ℕ) → ¬ IsAnchor first rest base ns)
        by none e = (
          λ p ns (here, stops). let clash : none ≡ some ns = sym e ∙ here in cc,
          λ h. judge_at-none e,
        )
        by (some m) e = (
          λ p ns (here, stops).
              let same : some m ≡ some ns = sym e ∙ here in
              let eq : ns ≡ m = cc in
              judge-Stops rest m (node sema m).sym (rw eq at stops) (sym (judge_at-some m e) ∙ p),
          λ h. judge_at-some m e ∙ judge-passes rest m (node sema m).sym (λ stops. h m (e, stops)),
        )

    judge_at-found :
        (id : ℕ)
        → (judge_at sema message_only first rest base ≡ found id)
          ↔ ((ns : ℕ) × IsAnchor first rest base ns × (descend_syms sema ns rest ≡ some id))
    judge_at-found id = (by (ns_child sema base first.text) refl, back)
      where
        by :
            (o : Option ℕ)
            → ns_child sema base first.text ≡ o
            → judge_at sema message_only first rest base ≡ found id
            → (ns : ℕ) × IsAnchor first rest base ns × (descend_syms sema ns rest ≡ some id)
        by none e p = let clash : pass ≡ found id = sym (judge_at-none e) ∙ p in cc
        by (some m) e p =
            let judges = sym (judge_at-some m e) ∙ p in
            elim (Stops-cases (node sema m).sym rest) [
              | inl stops ↦
                  (m, (e, stops), (judge-found rest m id (node sema m).sym refl stops).0 judges)
              | inr passes ↦
                  let clash : pass ≡ found id =
                    sym (judge-passes rest m (node sema m).sym passes) ∙ judges in
                  cc
            ]

        back :
            (ns : ℕ) × IsAnchor first rest base ns × (descend_syms sema ns rest ≡ some id)
            → judge_at sema message_only first rest base ≡ found id
        back (ns, (here, stops), way) =
            judge_at-some ns here ∙ (judge-found rest ns id (node sema ns).sym refl stops).1 way

-- A relative lookup gives a symbol exactly if the innermost scope around the start with a name that
-- stops the search leads to it; and it always comes to a verdict.
pub lookup-IsInnermost :
    (sema : Sema) (message_only : Bool) (start : ℕ) (first : Word) (rest : List Word)
    → IsTree sema.ns_nodes sema.ns_index
    → start < length sema.ns_nodes
    → ((id : ℕ)
        → (lookup sema false message_only start (first ∷ rest) ≡ found id)
          ↔ ((t : ℕ) × IsInnermost sema message_only first rest start id t))
      × (lookup sema false message_only start (first ∷ rest) ≢ pass)
lookup-IsInnermost sema message_only start first rest tree l =
    let (finds, ends) = lookup-IsFirst sema message_only start first rest tree l in
    let at = λ (t : ℕ). outward sema t start in
    (
      λ id. (
        λ hit.
            let (t, (passed, named)) = (finds id).0 hit in
            (
              t,
              (
                λ u below. (
                  (passed u below).0,
                  (judge_at-pass sema message_only first rest (at u)).0 (passed u below).1,
                ),
                (judge_at-found sema message_only first rest (at t) id).0 named,
              ),
            ),
        λ (t, (passed, named)). (finds id).1 (
          t,
          (
            λ u below. (
              (passed u below).0,
              (judge_at-pass sema message_only first rest (at u)).1 (passed u below).1,
            ),
            (judge_at-found sema message_only first rest (at t) id).1 named,
          ),
        ),
      ),
      ends,
    )
