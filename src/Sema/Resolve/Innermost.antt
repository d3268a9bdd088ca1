-- ===== src/Sema/Resolve/Innermost.antt =====
-- src/sema.rs: the lookup of `resolve_path` takes the innermost scope that decides.
use pbpp.Prelude.{
  ℕ, zero, suc, ◌<◌, ◌≡◌, ◌≢◌, ◌∙◌, refl, sym, inl, inr, ◌↔◌, Bool, false, Bool-cases, none, List,
  ◌∷◌, arith, ◌==◌, length,
}
use pbpp.Cst.Nodes.{Word}
use pbpp.Sema.Symbols.{Sema}
use pbpp.Sema.Build.{ns_root, node}
use pbpp.Sema.Build.Names.{IsTree}
use pbpp.Sema.Resolve.Steps.{Verdict-cases, next, climb-next, next-root, next-inside}
use pbpp.Sema.Resolve.{Verdict, found, missed, pass, judge_at, climb, lookup}

-- The node `t` levels out from a node.
unfoldable pub outward : Sema → ℕ → ℕ → ℕ
unfolding node
outward sema zero base = base
outward sema (suc t) base = outward sema t (node sema base).parent

module _ (sema : Sema) (message_only : Bool) (first : Word) (rest : List Word) where
  abbrev body : ℕ → Verdict
  body base = judge_at sema message_only first rest base

  -- The scope `t` levels out from `base` names the symbol, and each further in passes.
  abbrev pub IsFirst : ℕ → ℕ → ℕ → Type 0
  IsFirst base id t =
      ((u : ℕ) → u < t → (outward sema u base ≢ ns_root) × (body (outward sema u base) ≡ pass))
      × (body (outward sema t base) ≡ found id)

  module _ (tree : IsTree sema.ns_nodes sema.ns_index) where
    parent-below :
        (base : ℕ)
        → (base == ns_root) ≡ false
        → base < length sema.ns_nodes
        → (node sema base).parent < base
    unfolding node
    parent-below base inside l = tree.parent_lt base (ground arith) l

    climb-ends :
        (k base : ℕ)
        → base < k
        → base < length sema.ns_nodes
        → climb sema message_only first rest k base ≢ pass
    climb-ends zero base fuel l e = absurd (omega arith)
    climb-ends (suc k) base fuel l e = elim (Verdict-cases (body base)) [
      | inl (id, v) ↦
          let clash : found id ≡ pass =
            unfold next in
            (sym (climb-next sema message_only first rest k base (found id) v) ∙ e) in
          cc
      | inr (inl (anchor, v)) ↦
          let clash : missed anchor ≡ pass =
            unfold next in
            (sym (climb-next sema message_only first rest k base (missed anchor) v) ∙ e) in
          cc
      | inr (inr v) ↦ elim (Bool-cases (base == ns_root)) [
        | inl root ↦
            let clash : missed none ≡ pass =
              sym (next-root sema message_only first rest k base root)
              ∙ sym (climb-next sema message_only first rest k base pass v)
              ∙ e in
            cc
        | inr inside ↦
            let lower = parent-below base inside l in
            climb-ends k (node sema base).parent (omega (arith, lower)) (omega (arith, lower)) (
              sym (next-inside sema message_only first rest k base inside)
              ∙ sym (climb-next sema message_only first rest k base pass v)
              ∙ e)
      ]
    ]

    passed_on :
        (base id t : ℕ)
        → base ≢ ns_root
        → body base ≡ pass
        → ((u : ℕ)
            → u < t
            → (outward sema u (node sema base).parent ≢ ns_root)
              × (body (outward sema u (node sema base).parent) ≡ pass))
        → (u : ℕ) → u < suc t
        → (outward sema u base ≢ ns_root) × (body (outward sema u base) ≡ pass)
    unfolding outward
    passed_on base id t inside v passed zero l = (inside, v)
    passed_on base id t inside v passed (suc u) l = passed u (omega (arith, l))

    climb-IsFirst :
        (k base id : ℕ)
        → base < k
        → base < length sema.ns_nodes
        → climb sema message_only first rest k base ≡ found id
        → (t : ℕ) × IsFirst base id t
    unfolding outward
    climb-IsFirst zero base id fuel l e = absurd (omega arith)
    climb-IsFirst (suc k) base id fuel l e = elim (Verdict-cases (body base)) [
      | inl (x, v) ↦
          let same : found x ≡ found id =
            unfold next in (sym (climb-next sema message_only first rest k base (found x) v) ∙ e) in
          (0, (λ u below. absurd (omega arith), v ∙ same))
      | inr (inl (anchor, v)) ↦
          let clash : missed anchor ≡ found id =
            unfold next in
            (sym (climb-next sema message_only first rest k base (missed anchor) v) ∙ e) in
          cc
      | inr (inr v) ↦ elim (Bool-cases (base == ns_root)) [
        | inl root ↦
            let clash : missed none ≡ found id =
              sym (next-root sema message_only first rest k base root)
              ∙ sym (climb-next sema message_only first rest k base pass v)
              ∙ e in
            cc
        | inr inside ↦
            let lower = parent-below base inside l in
            let (t, (passed, hit)) =
              climb-IsFirst k (node sema base).parent id (omega (arith, lower))
                (omega (arith, lower))
                (sym (next-inside sema message_only first rest k base inside)
                  ∙ sym (climb-next sema message_only first rest k base pass v)
                  ∙ e) in
            (suc t, (passed_on base id t (λ e0. absurd (ground arith)) v passed, hit))
      ]
    ]

    IsFirst-climb :
        (k base id t : ℕ)
        → base < k
        → base < length sema.ns_nodes
        → IsFirst base id t
        → climb sema message_only first rest k base ≡ found id
    unfolding outward
    IsFirst-climb zero base id t fuel l h = absurd (omega arith)
    IsFirst-climb (suc k) base id zero fuel l (passed, hit) =
        climb-next sema message_only first rest k base (found id) hit ∙ (unfold next in refl)
    IsFirst-climb (suc k) base id (suc t) fuel l (passed, hit) =
        let (inner, v) = passed 0 (omega arith) in
        let inside : (base == ns_root) ≡ false = ground arith in
        let lower = parent-below base inside l in
        climb-next sema message_only first rest k base pass v
        ∙ next-inside sema message_only first rest k base inside
        ∙ IsFirst-climb k (node sema base).parent id t (omega (arith, lower)) (omega (arith, lower))
            ((λ u below. passed (suc u) (omega arith)), hit)

-- Outside the root, the levels further out are nodes.
pub outward-below :
    (sema : Sema)
    → IsTree sema.ns_nodes sema.ns_index
    → (t base : ℕ) → base < length sema.ns_nodes
    → ((u : ℕ) → u < t → outward sema u base ≢ ns_root)
    → outward sema t base < length sema.ns_nodes
unfolding outward node
outward-below sema tree zero base l inside = l
outward-below sema tree (suc t) base l inside =
    let pos = inside 0 (omega arith) in
    let lower = tree.parent_lt base (ground arith) l in
    outward-below sema tree t (node sema base).parent (omega (arith, lower))
      (λ u below. inside (suc u) (omega arith))

-- A relative lookup gives a symbol exactly if a scope around the start names it and all scopes
-- further in pass; and it always comes to a verdict.
pub lookup-IsFirst :
    (sema : Sema) (message_only : Bool) (start : ℕ) (first : Word) (rest : List Word)
    → IsTree sema.ns_nodes sema.ns_index
    → start < length sema.ns_nodes
    → ((id : ℕ)
        → (lookup sema false message_only start (first ∷ rest) ≡ found id)
          ↔ ((t : ℕ) × IsFirst sema message_only first rest start id t))
      × (lookup sema false message_only start (first ∷ rest) ≢ pass)
unfolding lookup
lookup-IsFirst sema message_only start first rest tree l = (
  λ id. (
    climb-IsFirst sema message_only first rest tree (suc start) start id (omega arith) l,
    λ (t, h).
        IsFirst-climb sema message_only first rest tree (suc start) start id t (omega arith) l h,
  ),
  climb-ends sema message_only first rest tree (suc start) start (omega arith) l,
)
