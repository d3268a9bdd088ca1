-- ===== src/Sema/Build/Names.antt =====
-- src/sema.rs: the tree of namespace nodes, and the names of the symbols that stand at its nodes.
use pbpp.Prelude.{
  ℕ, ◌≤◌, ◌<◌, ◌≡◌, ◌≢◌, ◌∙◌, refl, sym, ap, subst, inl, inr, true, ◌&&◌, Bool-cases, Option, none,
  some, List, [], ◌∷◌, ◌++◌, arith, ◌==◌, ltb, ◌⊎◌, set, length, length-set, length-append,
}
use pbpp.Text.{Text, text_eq}
use pbpp.Text.Laws.{text_eq_iff, text_eq_refl}
use pbpp.Sema.Symbols.{NsNode, blank_node}
use pbpp.Sema.Build.{find_ns}
use pbpp.Sema.Build.Invariant.{node_at, get_or-before, get_or-last, get_or-write}

-- The names on the way from the root to a node.
pub data Trail (ns : List NsNode) : ℕ → List Text → Type 0 where
  top : Trail ns 0 []
  under :
      {n : ℕ} {ts us : List Text}
      → 0 < n
      → n < length ns
      → Trail ns (node_at ns n).parent ts
      → us ≡ ts ++ (node_at ns n).name ∷ []
      → Trail ns n us

-- The nodes have only been added to, or given symbols.
pub record Extends (ns ns' : List NsNode) : Type 0 where
  pub more_nodes : length ns ≤ length ns'
  pub same_parent : (n : ℕ) → n < length ns → (node_at ns' n).parent ≡ (node_at ns n).parent
  pub same_name : (n : ℕ) → n < length ns → (node_at ns' n).name ≡ (node_at ns n).name

pub Extends-self : (ns : List NsNode) → Extends ns ns
Extends-self ns = record {
  more_nodes = omega arith;
  same_parent = λ n l. refl;
  same_name = λ n l. refl;
}

pub Extends-trans : (a b c : List NsNode) → Extends a b → Extends b c → Extends a c
Extends-trans a b c g h = record {
  more_nodes = omega (arith, g.more_nodes, h.more_nodes);
  same_parent = λ n l. h.same_parent n (omega (arith, g.more_nodes)) ∙ g.same_parent n l;
  same_name = λ n l. h.same_name n (omega (arith, g.more_nodes)) ∙ g.same_name n l;
}

pub Trail-Extends :
    {ns ns' : List NsNode} {n : ℕ} {ts : List Text}
    → Extends ns ns'
    → Trail ns n ts
    → Trail ns' n ts
Trail-Extends e top = top
Trail-Extends {ns} {ns'} e (under {n = n} {ts = ts} pos l t same) =
    under pos (omega (arith, e.more_nodes))
      (subst (λ (p : ℕ). Trail ns' p ts) (sym (e.same_parent n l)) (Trail-Extends e t))
      (same ∙ ap (λ (x : Text). ts ++ x ∷ []) (sym (e.same_name n l)))

pub Extends-snoc : (ns : List NsNode) (x : NsNode) → Extends ns (ns ++ x ∷ [])
Extends-snoc ns x = record {
  more_nodes = rw (length-append ns (x ∷ [])) (omega arith);
  same_parent = λ n l. ap (λ (y : NsNode). y.parent) (get_or-before ns (x ∷ []) n blank_node l);
  same_name = λ n l. ap (λ (y : NsNode). y.name) (get_or-before ns (x ∷ []) n blank_node l);
}

abbrev pub with_sym : List NsNode → ℕ → Option ℕ → NsNode
with_sym ns k o = record (node_at ns k) { sym = o }

module _ {A : Type 0} where
  pub snoc_some : (xs : List A) (x : A) → [] ≢ xs ++ x ∷ []
  snoc_some [] x e = cc
  snoc_some (y ∷ xs) x e = cc

  pub snoc-injective :
      (xs ys : List A) (x y : A) → xs ++ x ∷ [] ≡ ys ++ y ∷ [] → (xs ≡ ys) × (x ≡ y)
  snoc-injective [] [] x y e = (refl, cc)
  snoc-injective [] (z ∷ ys) x y e =
      let tails : [] ≡ ys ++ y ∷ [] = cc in absurd (snoc_some ys y tails)
  snoc-injective (z ∷ xs) [] x y e =
      let tails : xs ++ x ∷ [] ≡ [] = cc in absurd (snoc_some xs x (sym tails))
  snoc-injective (z ∷ xs) (w ∷ ys) x y e =
      let tails : xs ++ x ∷ [] ≡ ys ++ y ∷ [] = cc in
      let (same, last) = snoc-injective xs ys x y tails in (cc, last)

pub Extends-set :
    (ns : List NsNode) (k : ℕ) (o : Option ℕ) → Extends ns (set ns k (with_sym ns k o))
Extends-set ns k o = record {
  more_nodes = rw (length-set ns k (with_sym ns k o)) (omega arith);
  same_parent = λ n l. elim (get_or-write ns k n (with_sym ns k o) blank_node) [
    | inl old ↦ ap (λ (y : NsNode). y.parent) old
    | inr (here, new) ↦
        ap (λ (y : NsNode). y.parent) new ∙ ap (λ (m : ℕ). (node_at ns m).parent) (sym here)
  ];
  same_name = λ n l. elim (get_or-write ns k n (with_sym ns k o) blank_node) [
    | inl old ↦ ap (λ (y : NsNode). y.name) old
    | inr (here, new) ↦
        ap (λ (y : NsNode). y.name) new ∙ ap (λ (m : ℕ). (node_at ns m).name) (sym here)
  ];
}

-- The index finds exactly the nodes by their parents and names, and a parent comes before its
-- children.
pub record IsTree (ns : List NsNode) (index : List ((ℕ × Text) × ℕ)) : Type 0 where
  pub root : 0 < length ns
  pub parent_lt : (n : ℕ) → 0 < n → n < length ns → (node_at ns n).parent < n
  pub listed :
      (p n : ℕ) (t : Text)
      → find_ns index p t ≡ some n
      → (0 < n) × (n < length ns) × ((node_at ns n).parent ≡ p) × ((node_at ns n).name ≡ t)
  pub found_at :
      (n : ℕ)
      → 0 < n
      → n < length ns
      → find_ns index (node_at ns n).parent (node_at ns n).name ≡ some n

-- Two nodes with the same names on their way are one.
pub Trail-unique :
    {ns : List NsNode} {n m : ℕ} {ts : List Text} (index : List ((ℕ × Text) × ℕ))
    → IsTree ns index
    → Trail ns n ts
    → Trail ns m ts
    → n ≡ m
Trail-unique index tree top top = refl
Trail-unique index tree top (under pos l t same) = absurd (snoc_some _ _ same)
Trail-unique index tree (under pos l t same) top = absurd (snoc_some _ _ same)
Trail-unique {ns} index tree (under {n = n} {ts = ts} pos l t same)
      (under {n = m} {ts = ts2} pos2 l2 t2 same2) =
    let (before, name) =
      snoc-injective ts ts2 (node_at ns n).name (node_at ns m).name (sym same ∙ same2) in
    let parent : (node_at ns n).parent ≡ (node_at ns m).parent =
      Trail-unique index tree (subst (Trail ns (node_at ns n).parent) before t) t2 in
    let key : find_ns index (node_at ns n).parent (node_at ns n).name ≡ some m =
      subst (λ (p : ℕ). find_ns index p (node_at ns n).name ≡ some m) (sym parent)
        (subst (λ (x : Text). find_ns index (node_at ns m).parent x ≡ some m) (sym name)
          (tree.found_at m pos2 l2)) in
    let both : some n ≡ some m = sym (tree.found_at n pos l) ∙ key in cc

-- A node has one way.
pub Trail-names :
    {ns : List NsNode} {n : ℕ} {ts us : List Text} → Trail ns n ts → Trail ns n us → ts ≡ us
Trail-names top top = refl
Trail-names top (under pos l t same) = absurd (omega (arith, pos))
Trail-names (under pos l t same) top = absurd (omega (arith, pos))
Trail-names {ns} {n} (under pos l t same) (under pos2 l2 t2 same2) =
    same ∙ ap (λ (vs : List Text). vs ++ (node_at ns n).name ∷ []) (Trail-names t t2) ∙ sym same2

pub snoc_cases :
    {A : Type 0} (xs : List A) (x : A) (n : ℕ)
    → n < length (xs ++ x ∷ [])
    → (n < length xs) ⊎ (n ≡ length xs)
snoc_cases xs x n l = elim (Bool-cases (ltb n (length xs))) [
  | inl below ↦ inl (ground arith)
  | inr above ↦ let size = length-append xs (x ∷ []) in inr (ground arith)
]

pub key_same : (p q : ℕ) (t u : Text) → (p == q && text_eq t u) ≡ true → (p ≡ q) × (t ≡ u)
key_same p q t u e = elim (Bool-cases (text_eq t u)) [
  | inl same ↦ (ground arith, (text_eq_iff t u).0 same)
  | inr other ↦ absurd (ground arith)
]

pub key_self : (p : ℕ) (t : Text) → (p == p && text_eq t t) ≡ true
key_self p t = let same = text_eq_refl t in ground arith

-- A new node keeps the tree.
pub new_node-IsTree :
    (ns : List NsNode) (index : List ((ℕ × Text) × ℕ)) (p : ℕ) (t : Text)
    → IsTree ns index
    → p < length ns
    → find_ns index p t ≡ none
    → IsTree (ns ++ record { parent = p; name = t; sym = none } ∷ []) (((p, t), length ns) ∷ index)
unfolding find_ns
new_node-IsTree ns index p t tree inside missing =
    let x : NsNode = record { parent = p; name = t; sym = none } in
    let bound = length-append ns (x ∷ []) in
    let last = get_or-last ns x blank_node in
    record {
      root = omega (arith, bound);
      parent_lt = λ n pos l. elim (snoc_cases ns x n l) [
        | inl below ↦
            subst (λ (y : NsNode). y.parent < n)
              (sym (get_or-before ns (x ∷ []) n blank_node below)) (tree.parent_lt n pos below)
        | inr here ↦
            subst (λ (m : ℕ). (node_at (ns ++ x ∷ []) m).parent < m) (sym here)
              (subst (λ (y : NsNode). y.parent < length ns) (sym last) inside)
      ];
      listed = λ q n u e. elim (Bool-cases (p == q && text_eq t u)) [
        | inl same ↦
            let (same_p, same_t) = key_same p q t u same in
            let hit : some (length ns) ≡ some n = rw same at e in
            let here : length ns ≡ n = cc in
            let whole : (node_at (ns ++ x ∷ []) n) ≡ x =
              subst (λ (m : ℕ). node_at (ns ++ x ∷ []) m ≡ x) here last in
            (
              omega (arith, here, tree.root),
              omega (arith, here, bound),
              ap (λ (y : NsNode). y.parent) whole ∙ same_p,
              ap (λ (y : NsNode). y.name) whole ∙ same_t,
            )
        | inr other ↦
            let (pos, l, parent, name) = tree.listed q n u (rw other at e) in
            let old = get_or-before ns (x ∷ []) n blank_node l in
            (
              pos,
              omega (arith, l, bound),
              ap (λ (y : NsNode). y.parent) old ∙ parent,
              ap (λ (y : NsNode). y.name) old ∙ name,
            )
      ];
      found_at = λ n pos l. elim (snoc_cases ns x n l) [
        | inl below ↦
            let old = get_or-before ns (x ∷ []) n blank_node below in
            let hit = tree.found_at n pos below in
            rw old
              (elim (Bool-cases (p == (node_at ns n).parent && text_eq t (node_at ns n).name)) [
                | inl same ↦
                    let (same_p, same_t) =
                      key_same p (node_at ns n).parent t (node_at ns n).name same in
                    let clash : none ≡ some n = sym missing ∙ rw same_p (rw same_t hit) in cc
                | inr other ↦ rw other hit
              ])
        | inr here ↦ rw here (rw last (rw (key_self p t) refl))
      ];
    }

-- A symbol at a node changes nothing of the tree.
pub set-IsTree :
    (ns : List NsNode) (index : List ((ℕ × Text) × ℕ)) (k : ℕ) (o : Option ℕ)
    → IsTree ns index
    → IsTree (set ns k (with_sym ns k o)) index
set-IsTree ns index k o tree =
    let ext = Extends-set ns k o in
    let size = length-set ns k (with_sym ns k o) in
    record {
      root = omega (arith, size, tree.root);
      parent_lt = λ n pos l.
          let old : n < length ns = omega (arith, size, l) in
          subst (λ (p : ℕ). p < n) (sym (ext.same_parent n old)) (tree.parent_lt n pos old);
      listed = λ p n t e.
          let (pos, l, parent, name) = tree.listed p n t e in
          (pos, omega (arith, size, l), ext.same_parent n l ∙ parent, ext.same_name n l ∙ name);
      found_at = λ n pos l.
          let old : n < length ns = omega (arith, size, l) in
          subst (λ (p : ℕ). find_ns index p (node_at (set ns k (with_sym ns k o)) n).name ≡ some n)
            (sym (ext.same_parent n old))
            (subst (λ (t : Text). find_ns index (node_at ns n).parent t ≡ some n)
              (sym (ext.same_name n old)) (tree.found_at n pos old));
    }
