-- ===== src/Sema/Resolve/Steps.antt =====
-- src/sema.rs: single steps of a descent and of the loop of `resolve_path`.
use pbpp.Prelude.{
  ℕ, suc, ◌≡◌, ◌∙◌, refl, sym, ap, inl, inr, ◌⊎◌, Bool, true, false, Bool-cases, ◌||◌, Option, none,
  some, List, [], ◌∷◌, ◌==◌, if◌then◌else◌,
}
use pbpp.Cst.Nodes.{Word}
use pbpp.Sema.Kind.{is_def}
use pbpp.Sema.Symbols as Symbols
use pbpp.Sema.Symbols.{Sema}
use pbpp.Sema.Build.{ns_root, node, find_ns, ns_child}
use pbpp.Sema.Resolve.{
  descend, descend_syms, final, Verdict, found, missed, pass, is_type, judge, judge_at, climb,
}

module _ (sema : Sema) where
  unfoldable pub after : Option ℕ → List Word → Option ℕ
  after none ws = none
  after (some next) ws = descend sema next ws

  pub descend-after :
      (m : ℕ) (w : Word) (ws : List Word) (o : Option ℕ)
      → find_ns sema.ns_index m w.text ≡ o
      → descend sema m (w ∷ ws) ≡ after o ws
  unfolding after descend ns_child
  descend-after m w ws o e =
      opened (find_ns sema.ns_index m w.text) ∙ ap (λ (p : Option ℕ). after p ws) e
    where
      opened :
          (p : Option ℕ) → elim p [ none ↦ none | some next ↦ descend sema next ws ] ≡ after p ws
      opened none = refl
      opened (some c) = refl

unfoldable pub named_at : Sema → Option ℕ → Option ℕ
named_at sema none = none
named_at sema (some n) = (node sema n).sym

pub descend_syms-named_at :
    (sema : Sema) (m : ℕ) (ws : List Word) (o : Option ℕ)
    → descend sema m ws ≡ o
    → descend_syms sema m ws ≡ named_at sema o
unfolding descend_syms named_at
descend_syms-named_at sema m ws o e = opened (descend sema m ws) ∙ ap (named_at sema) e
  where
    opened : (p : Option ℕ) → elim p [ none ↦ none | some n ↦ (node sema n).sym ] ≡ named_at sema p
    opened none = refl
    opened (some n) = refl

-- The first step of a descent.
pub descend_syms-cons :
    (sema : Sema) (m c : ℕ) (w : Word) (ws : List Word)
    → find_ns sema.ns_index m w.text ≡ some c
    → descend_syms sema m (w ∷ ws) ≡ descend_syms sema c ws
unfolding after
descend_syms-cons sema m c w ws e =
    descend_syms-named_at sema m (w ∷ ws) (descend sema c ws) (descend-after sema m w ws (some c) e)
    ∙ sym (descend_syms-named_at sema c ws (descend sema c ws) refl)

pub final-found : (anchor o : Option ℕ) (id : ℕ) → final anchor o ≡ found id → o ≡ some id
final-found anchor none id e = cc
final-found anchor (some x) id e = cc

judge-descend_syms :
    (sema : Sema) (message_only : Bool) (rest : List Word) (ns id : ℕ) (o : Option ℕ)
    → (node sema ns).sym ≡ o
    → judge sema message_only rest ns o ≡ found id
    → descend_syms sema ns rest ≡ some id
unfolding judge
judge-descend_syms sema m (w ∷ ws) ns id none here e =
    final-found (some ns) (descend_syms sema ns (w ∷ ws)) id e
judge-descend_syms sema m (w ∷ ws) ns id (some s) here e =
    elim (Bool-cases (is_def (Symbols.sym sema s).kind)) [
      | inl def ↦ final-found (some ns) (descend_syms sema ns (w ∷ ws)) id (rw def at e)
      | inr other ↦ let clash : pass ≡ found id = rw other at e in cc
    ]
judge-descend_syms sema m [] ns id (some s) here e =
    elim (Bool-cases (m || is_type (Symbols.sym sema s).kind)) [
      | inl type ↦
          let same : found s ≡ found id = rw type at e in
          let named : (node sema ns).sym ≡ some id = cc in unfold descend_syms descend in named
      | inr other ↦ let clash : pass ≡ found id = rw other at e in cc
    ]
judge-descend_syms sema m [] ns id none here e = elim (Bool-cases m) [
  | inl all ↦ let clash : missed none ≡ found id = rw all at e in cc
  | inr types ↦ let clash : pass ≡ found id = rw types at e in cc
]

-- What the body of the loop finds is what a descent from the scope finds.
pub judge_at-descend_syms :
    (sema : Sema) (message_only : Bool) (first : Word) (rest : List Word) (base id : ℕ)
    → judge_at sema message_only first rest base ≡ found id
    → descend_syms sema base (first ∷ rest) ≡ some id
unfolding judge_at ns_child
judge_at-descend_syms sema m first rest base id e =
    opened (find_ns sema.ns_index base first.text) refl e
  where
    opened :
        (o : Option ℕ)
        → find_ns sema.ns_index base first.text ≡ o
        → elim o [ none ↦ pass | some ns ↦ judge sema m rest ns (node sema ns).sym ] ≡ found id
        → descend_syms sema base (first ∷ rest) ≡ some id
    opened none here e = cc
    opened (some ns) here e =
        descend_syms-cons sema base ns first rest here
        ∙ judge-descend_syms sema m rest ns id (node sema ns).sym refl e

pub Verdict-cases :
    (v : Verdict)
    → ((id : ℕ) × (v ≡ found id)) ⊎ (((anchor : Option ℕ) × (v ≡ missed anchor)) ⊎ (v ≡ pass))
Verdict-cases (found id) = inl (id, refl)
Verdict-cases (missed anchor) = inr (inl (anchor, refl))
Verdict-cases pass = inr (inr refl)

module _ (sema : Sema) (message_only : Bool) (first : Word) (rest : List Word) where
  unfoldable pub next : ℕ → ℕ → Verdict → Verdict
  next k base (found id) = found id
  next k base (missed anchor) = missed anchor
  next k base pass =
      if base == ns_root
      then missed none
      else climb sema message_only first rest k (node sema base).parent

  pub climb-next :
      (k base : ℕ) (v : Verdict)
      → judge_at sema message_only first rest base ≡ v
      → climb sema message_only first rest (suc k) base ≡ next k base v
  unfolding climb next
  climb-next k base v e = opened (judge_at sema message_only first rest base) ∙ ap (next k base) e
    where
      opened :
          (w : Verdict)
          → elim w [
            | found id ↦ found id
            | missed anchor ↦ missed anchor
            | pass ↦
                if base == ns_root
                then missed none
                else climb sema message_only first rest k (node sema base).parent
          ]
            ≡ next k base w
      opened (found id) = refl
      opened (missed anchor) = refl
      opened pass = refl

  pub next-root : (k base : ℕ) → (base == ns_root) ≡ true → next k base pass ≡ missed none
  unfolding next
  next-root k base e = rw e refl

  pub next-inside :
      (k base : ℕ)
      → (base == ns_root) ≡ false
      → next k base pass ≡ climb sema message_only first rest k (node sema base).parent
  unfolding next
  next-inside k base e = rw e refl
