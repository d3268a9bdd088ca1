-- ===== src/Sema/Resolve/ByName.antt =====
-- src/sema.rs: `descend_syms` finds a symbol by its name.
use mathlib.Core.List.{append_assoc}
use pbpp.Prelude.{
  ◌+◌, ℕ, zero, suc, ◌<◌, ◌≡◌, ◌∙◌, refl, sym, ap, subst, inl, inr, ◌⊎◌, ◌↔◌, Option, none, some,
  List, [], ◌∷◌, ◌++◌, arith, length, append_nil,
}
use pbpp.Text.{Text}
use pbpp.Cst.Nodes.{Word}
use pbpp.Sema.Symbols as Symbols
use pbpp.Sema.Symbols.{Sema, NsNode, slice, sym_count, segs}
use pbpp.Sema.Build.{node, find_ns}
use pbpp.Sema.Build.Invariant.{at, node_at}
use pbpp.Sema.Build.Names.{
  Trail, top, under, IsTree, Trail-unique, Trail-names, snoc-injective, snoc_some,
}
use pbpp.Sema.Build.Naming.{IsNamed}
use pbpp.Sema.Resolve.Steps.{after, descend-after, named_at, descend_syms-named_at}
use pbpp.Sema.Resolve.{descend, descend_syms}

-- The namespace tree of the table is a tree, and the segments of each symbol are the way to its
-- node.
pub record IsNameTable (sema : Sema) : Type 0 where
  pub tree : IsTree sema.ns_nodes sema.ns_index
  pub names : IsNamed sema.symbols sema.seg_arena sema.ns_nodes

abbrev pub texts : List Word → List Text
texts [] = []
texts (w ∷ ws) = w.text ∷ texts ws

-- Two symbols with the same segments are one.
pub segs_unique :
    (sema : Sema)
    → IsNameTable sema
    → (i j : ℕ) → i < sym_count sema
    → j < sym_count sema
    → segs sema i ≡ segs sema j
    → i ≡ j
unfolding sym_count segs Symbols.sym
segs_unique sema h i j li lj same =
    let (fi, wi, si) = h.names.named i li in
    let (fj, wj, sj) = h.names.named j lj in
    let nodes : (at sema.symbols i).ns ≡ (at sema.symbols j).ns =
      Trail-unique sema.ns_index h.tree (subst (Trail sema.ns_nodes (at sema.symbols i).ns) same wi)
        wj in
    let both : some i ≡ some j =
      sym si ∙ ap (λ (n : ℕ). (node_at sema.ns_nodes n).sym) nodes ∙ sj in
    cc

last_cases :
    {A : Type 0} (xs : List A) → (xs ≡ []) ⊎ ((init : List A) × (x : A) × (xs ≡ init ++ x ∷ []))
last_cases [] = inl refl
last_cases (x ∷ xs) = elim (last_cases xs) [
  | inl e ↦ inr ([], x, ap (λ l. x ∷ l) e)
  | inr (init, y, e) ↦ inr (x ∷ init, y, ap (λ l. x ∷ l) e)
]

-- On the way to a node there is a node for each front part of its names.
Trail-front :
    {ns : List NsNode} {n : ℕ} {us : List Text} (ts rest : List Text)
    → Trail ns n us
    → us ≡ ts ++ rest
    → (c : ℕ) × Trail ns c ts
Trail-front [] rest top e = (0, top)
Trail-front (t ∷ ts) rest top e = cc
Trail-front {ns} {n} ts rest (under {ts = before} pos l way same) e = elim (last_cases rest) [
  | inl none_left ↦
      let whole : ts ≡ before ++ (node_at ns n).name ∷ [] =
        sym (append_nil ts) ∙ sym (ap (λ r. ts ++ r) none_left) ∙ sym e ∙ same in
      (n, under pos l way whole)
  | inr (init, x, split) ↦
      let (shorter, last) =
        snoc-injective before (ts ++ init) (node_at ns n).name x
          (sym same ∙ e ∙ ap (λ r. ts ++ r) split ∙ sym (append_assoc ts init (x ∷ []))) in
      Trail-front ts init way shorter
]

module _ (sema : Sema) (tree : IsTree sema.ns_nodes sema.ns_index) where
  -- One step down, by the index and by the names.
  child-Trail :
      (m c : ℕ) (us : List Text) (t : Text)
      → Trail sema.ns_nodes m us
      → find_ns sema.ns_index m t ≡ some c
      → Trail sema.ns_nodes c (us ++ t ∷ [])
  child-Trail m c us t way found =
      let (pos, l, parent, name) = tree.listed m c t found in
      under pos l (subst (λ (p : ℕ). Trail sema.ns_nodes p us) (sym parent) way)
        (ap (λ (x : Text). us ++ x ∷ []) (sym name))

  Trail-child :
      (m c : ℕ) (us : List Text) (t : Text)
      → Trail sema.ns_nodes m us
      → Trail sema.ns_nodes c (us ++ t ∷ [])
      → find_ns sema.ns_index m t ≡ some c
  Trail-child m c us t way down = below c (us ++ t ∷ []) down refl
    where
      below :
          (c : ℕ) (vs : List Text)
          → Trail sema.ns_nodes c vs
          → vs ≡ us ++ t ∷ []
          → find_ns sema.ns_index m t ≡ some c
      below c vs top e = absurd (snoc_some us t e)
      below c vs (under {ts = before} pos l front same) e =
          let (equal, name) =
            snoc-injective before us (node_at sema.ns_nodes c).name t (sym same ∙ e) in
          let parent : (node_at sema.ns_nodes c).parent ≡ m =
            Trail-unique sema.ns_index tree
              (subst (Trail sema.ns_nodes (node_at sema.ns_nodes c).parent) equal front) way in
          subst (λ (p : ℕ). find_ns sema.ns_index p t ≡ some c) parent
            (subst (λ (x : Text). find_ns sema.ns_index (node_at sema.ns_nodes c).parent x ≡ some c)
              name (tree.found_at c pos l))

  -- The node that is reached has the words behind the start's names.
  pub descend-Trail :
      (m n : ℕ) (us : List Text) (ws : List Word)
      → Trail sema.ns_nodes m us
      → descend sema m ws ≡ some n
      → Trail sema.ns_nodes n (us ++ texts ws)
  unfolding descend after
  descend-Trail m n us [] way e =
      let same : m ≡ n = cc in
      subst (λ (k : ℕ). Trail sema.ns_nodes k (us ++ [])) same
        (subst (Trail sema.ns_nodes m) (sym (append_nil us)) way)
  descend-Trail m n us (w ∷ ws) way e =
      down (find_ns sema.ns_index m w.text) refl (sym (descend-after sema m w ws _ refl) ∙ e)
        (λ c way2 e2. descend-Trail c n (us ++ w.text ∷ []) ws way2 e2)
    where
      down :
          (o : Option ℕ)
          → find_ns sema.ns_index m w.text ≡ o
          → after sema o ws ≡ some n
          → ((c : ℕ)
              → Trail sema.ns_nodes c (us ++ w.text ∷ [])
              → descend sema c ws ≡ some n
              → Trail sema.ns_nodes n ((us ++ w.text ∷ []) ++ texts ws))
          → Trail sema.ns_nodes n (us ++ w.text ∷ texts ws)
      down none found e2 ih = cc
      down (some c) found e2 ih =
          subst (Trail sema.ns_nodes n) (append_assoc us (w.text ∷ []) (texts ws))
            (ih c (child-Trail m c us w.text way found) e2)

  -- A node with these names is reached.
  pub Trail-descend :
      (m n : ℕ) (us : List Text) (ws : List Word)
      → Trail sema.ns_nodes m us
      → Trail sema.ns_nodes n (us ++ texts ws)
      → descend sema m ws ≡ some n
  unfolding descend after
  Trail-descend m n us [] way there =
      ap some
        (Trail-unique sema.ns_index tree way (subst (Trail sema.ns_nodes n) (append_nil us) there))
  Trail-descend m n us (w ∷ ws) way there =
      let e = sym (append_assoc us (w.text ∷ []) (texts ws)) in
      let (c, down) = Trail-front (us ++ w.text ∷ []) (texts ws) there e in
      let hit = Trail-child m c us w.text way down in
      descend-after sema m w ws (some c) hit
      ∙ Trail-descend c n (us ++ w.text ∷ []) ws down (subst (Trail sema.ns_nodes n) e there)

-- Every node has a way.
pub Trail-any :
    (sema : Sema)
    → IsTree sema.ns_nodes sema.ns_index
    → (k n : ℕ) → n < k
    → n < length sema.ns_nodes
    → (us : List Text) × Trail sema.ns_nodes n us
Trail-any sema tree zero n fuel l = absurd (omega arith)
Trail-any sema tree (suc k) zero fuel l = ([], top)
Trail-any sema tree (suc k) (suc n) fuel l =
    let lower = tree.parent_lt (suc n) (omega arith) l in
    let (us, way) =
      Trail-any sema tree k (node_at sema.ns_nodes (suc n)).parent (omega (arith, lower, fuel))
        (omega (arith, lower, l)) in
    (us ++ (node_at sema.ns_nodes (suc n)).name ∷ [], under (omega arith) l way refl)

-- Descending from a node with the names `us` finds exactly the symbol whose segments are `us` and
-- the words.
pub descend_syms-segs :
    (sema : Sema) (m id : ℕ) (us : List Text) (ws : List Word)
    → IsNameTable sema
    → Trail sema.ns_nodes m us
    → (descend_syms sema m ws ≡ some id) ↔ ((id < sym_count sema) × (segs sema id ≡ us ++ texts ws))
unfolding sym_count segs Symbols.sym
descend_syms-segs sema m id us ws h way = (
  λ e. found (descend sema m ws) refl (sym (descend_syms-named_at sema m ws _ refl) ∙ e),
  λ (l, same).
      let (fits, there, named) = h.names.named id l in
      let hit =
        Trail-descend sema h.tree m (at sema.symbols id).ns us ws way
          (subst (Trail sema.ns_nodes (at sema.symbols id).ns) same there) in
      descend_syms-named_at sema m ws (some (at sema.symbols id).ns) hit
      ∙ (unfold named_at node in named),
)
  where
    found :
        (o : Option ℕ)
        → descend sema m ws ≡ o
        → named_at sema o ≡ some id
        → (id < length sema.symbols)
          × (slice sema.seg_arena
                (at sema.symbols id).seg_start
                ((at sema.symbols id).seg_start + (at sema.symbols id).seg_len)
              ≡ us ++ texts ws)
    found none e named = let clash : none ≡ some id = unfold named_at in named in cc
    found (some n) e named =
        let here : (node_at sema.ns_nodes n).sym ≡ some id = unfold named_at node in named in
        let (l, at_n) = h.names.back n id here in
        let (fits, there, mine) = h.names.named id l in
        (
          l,
          Trail-names
              (subst
                (λ (k : ℕ). Trail sema.ns_nodes k (
                  slice sema.seg_arena (at sema.symbols id).seg_start
                    ((at sema.symbols id).seg_start + (at sema.symbols id).seg_len)))
                at_n there)
              (descend-Trail sema h.tree m n us ws way e),
        )
