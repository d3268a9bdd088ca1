-- ===== src/Sema/Build/Invariant.antt =====
-- src/sema.rs: what holds of the builder between two registrations.
use pbpp.Prelude.{
  ℕ, zero, suc, ◌≤◌, ◌<◌, ◌≡◌, refl, sym, ◌∙◌, inl, inr, ◌⊎◌, true, Option, none, some, List, [],
  ◌∷◌, ◌++◌, arith, get_or, set, length, length-append, ltb, ◌==◌, Bool-cases, In, In-append, All,
}
use pbpp.Sema.Kind.{is_def}
use pbpp.Sema.Symbols.{Symbol, NsNode, blank_symbol, blank_node}
use pbpp.Sema.Build.{PendingRef}

module _ {A : Type 0} where
  pub get_or-before :
      (xs ys : List A) (i : ℕ) (d : A) → i < length xs → get_or (xs ++ ys) i d ≡ get_or xs i d
  get_or-before [] ys i d h = absurd (omega arith)
  get_or-before (x ∷ xs) ys zero d h = refl
  get_or-before (x ∷ xs) ys (suc i) d h = get_or-before xs ys i d (omega arith)

  pub get_or-last : (xs : List A) (y d : A) → get_or (xs ++ y ∷ []) (length xs) d ≡ y
  get_or-last [] y d = refl
  get_or-last (x ∷ xs) y d = get_or-last xs y d

  pub get_or-behind : (xs : List A) (i : ℕ) (d : A) → length xs ≤ i → get_or xs i d ≡ d
  get_or-behind [] i d h = refl
  get_or-behind (x ∷ xs) zero d h = absurd (omega arith)
  get_or-behind (x ∷ xs) (suc i) d h = get_or-behind xs i d (omega arith)

  -- What is read of a list with one element more.
  pub get_or-snoc :
      (xs : List A) (y : A) (i : ℕ) (d : A)
      → ((i < length xs) × (get_or (xs ++ y ∷ []) i d ≡ get_or xs i d))
        ⊎ (((i ≡ length xs) × (get_or (xs ++ y ∷ []) i d ≡ y)) ⊎ (get_or (xs ++ y ∷ []) i d ≡ d))
  get_or-snoc xs y i d = elim (Bool-cases (ltb i (length xs))) [
    | inl below ↦ let h : i < length xs = ground arith in inl (h, get_or-before xs (y ∷ []) i d h)
    | inr above ↦ elim (Bool-cases (i == length xs)) [
      | inl here ↦ let e : i ≡ length xs = ground arith in inr (inl (e, rw e (get_or-last xs y d)))
      | inr behind ↦
          inr
            (inr (get_or-behind (xs ++ y ∷ []) i d (rw (length-append xs (y ∷ [])) (ground arith))))
    ]
  ]

  -- What is read after a write.
  pub get_or-write :
      (xs : List A) (k i : ℕ) (v d : A)
      → (get_or (set xs k v) i d ≡ get_or xs i d) ⊎ ((i ≡ k) × (get_or (set xs k v) i d ≡ v))
  get_or-write [] k i v d = inl refl
  get_or-write (x ∷ xs) zero zero v d = inr (refl, refl)
  get_or-write (x ∷ xs) zero (suc i) v d = inl refl
  get_or-write (x ∷ xs) (suc k) zero v d = inl refl
  get_or-write (x ∷ xs) (suc k) (suc i) v d = elim (get_or-write xs k i v d) [
    | inl same ↦ inl same
    | inr (e, new) ↦ inr (omega (arith, e), new)
  ]

abbrev pub at : List Symbol → ℕ → Symbol
at ss i = get_or ss i blank_symbol

abbrev pub node_at : List NsNode → ℕ → NsNode
node_at ns n = get_or ns n blank_node

-- A symbol to be registered stands in a definition of the table, or in none.
abbrev pub ParentIn : List Symbol → Option ℕ → Type 0
ParentIn ss none = Unit
ParentIn ss (some p) = (p < length ss) × (is_def (at ss p).kind ≡ true)

-- The references stand in the order of their owners, which are symbols of the table inside some
-- definition.
abbrev pub IsOwned : List Symbol → PendingRef → Type 0
IsOwned ss r = (r.owner < length ss) × ((p : ℕ) × ((at ss r.owner).parent ≡ some p))

abbrev pub InOrder : List PendingRef → Type 0
InOrder [] = Unit
InOrder (r ∷ rs) = All (λ (q : PendingRef). r.owner ≤ q.owner) rs × InOrder rs

-- The table, its namespace nodes and the references that wait: a parent comes before its children
-- and is a definition, and a node names a symbol of the table.
pub record IsBuilt (ss : List Symbol) (ns : List NsNode) (ps : List PendingRef) : Type 0 where
  pub tree : (i p : ℕ) → (at ss i).parent ≡ some p → (p < i) × (is_def (at ss p).kind ≡ true)
  pub defined : (n s : ℕ) → (node_at ns n).sym ≡ some s → s < length ss
  pub owned : (r : PendingRef) → In r ps → IsOwned ss r
  pub in_order : InOrder ps

-- The table has only been added to.
pub record Grows (ss ss' : List Symbol) : Type 0 where
  pub more : length ss ≤ length ss'
  pub same : (i : ℕ) → i < length ss → at ss' i ≡ at ss i

pub Grows-self : (ss : List Symbol) → Grows ss ss
Grows-self ss = record { more = omega arith; same = λ i h. refl }

pub Grows-trans : {a b c : List Symbol} → Grows a b → Grows b c → Grows a c
Grows-trans g h = record {
  more = omega (arith, g.more, h.more);
  same = λ i l. h.same i (omega (arith, g.more)) ∙ g.same i l;
}

pub ParentIn-Grows :
    (ss ss' : List Symbol) (p : Option ℕ) → Grows ss ss' → ParentIn ss p → ParentIn ss' p
ParentIn-Grows ss ss' none g h = tt
ParentIn-Grows ss ss' (some p) g h = (omega (arith, g.more, h.0), rw (g.same p h.0) h.1)

pub Grows-snoc : (ss : List Symbol) (s : Symbol) → Grows ss (ss ++ s ∷ [])
Grows-snoc ss s = record {
  more = rw (length-append ss (s ∷ [])) (omega arith);
  same = λ i h. get_or-before ss (s ∷ []) i blank_symbol h;
}

IsOwned-Grows :
    (ss ss' : List Symbol) (r : PendingRef) → Grows ss ss' → IsOwned ss r → IsOwned ss' r
IsOwned-Grows ss ss' r g (l, (p, e)) = (omega (arith, g.more, l), (p, rw (g.same r.owner l) e))

-- Registering a symbol at the node `k`.
pub define-IsBuilt :
    (ss : List Symbol) (ns : List NsNode) (ps : List PendingRef) (s : Symbol) (k : ℕ) (n : NsNode)
    → n.sym ≡ some (length ss)
    → ParentIn ss s.parent
    → IsBuilt ss ns ps
    → IsBuilt (ss ++ s ∷ []) (set ns k n) ps
define-IsBuilt ss ns ps s k n named inside b = record {
  tree = λ i p e. elim (get_or-snoc ss s i blank_symbol) [
    | inl (l, old) ↦
        let (before, def) = b.tree i p (rw old at e) in
        (before, rw (get_or-before ss (s ∷ []) p blank_symbol (omega (arith, before, l))) def)
    | inr other ↦ elim other [
      | inl (here, new) ↦
          let (l, def) =
            let x : ParentIn ss (some p) =
              (let q : s.parent ≡ some p = rw new at e in rw q at inside) in
            x in
          (omega (arith, here, l), rw (get_or-before ss (s ∷ []) p blank_symbol l) def)
      | inr beyond ↦ let clash : blank_symbol.parent ≡ some p = rw beyond at e in cc
    ]
  ];
  defined = λ m t e. elim (get_or-write ns k m n blank_node) [
    | inl old ↦
        let l = b.defined m t (rw old at e) in rw (length-append ss (s ∷ [])) (omega (arith, l))
    | inr (here, new) ↦
        let q : some (length ss) ≡ some t = (sym named) ∙ (rw new at e) in
        let r : length ss ≡ t = cc in rw (length-append ss (s ∷ [])) (omega (arith, r))
  ];
  owned = λ r m. IsOwned-Grows ss (ss ++ s ∷ []) r (Grows-snoc ss s) (b.owned r m);
  in_order = b.in_order;
}

-- A new namespace node names no symbol.
pub new_node-IsBuilt :
    (ss : List Symbol) (ns : List NsNode) (ps : List PendingRef) (n : NsNode)
    → n.sym ≡ none
    → IsBuilt ss ns ps
    → IsBuilt ss (ns ++ n ∷ []) ps
new_node-IsBuilt ss ns ps n unnamed b = record {
  tree = b.tree;
  defined = λ m t e. elim (get_or-snoc ns n m blank_node) [
    | inl (l, old) ↦ b.defined m t (rw old at e)
    | inr other ↦ elim other [
      | inl (here, new) ↦ let clash : none ≡ some t = (sym unnamed) ∙ (rw new at e) in cc
      | inr beyond ↦ let clash : blank_node.sym ≡ some t = rw beyond at e in cc
    ]
  ];
  owned = b.owned;
  in_order = b.in_order;
}

InOrder-snoc :
    (ps : List PendingRef) (r : PendingRef)
    → ((q : PendingRef) → In q ps → q.owner ≤ r.owner)
    → InOrder ps
    → InOrder (ps ++ r ∷ [])
InOrder-snoc [] r h o = (tt, tt)
InOrder-snoc (p ∷ ps) r h o = (last ps o.0, InOrder-snoc ps r (λ q m. h q (inr m)) o.1)
  where
    last :
        (qs : List PendingRef)
        → All (λ (q : PendingRef). p.owner ≤ q.owner) qs
        → All (λ (q : PendingRef). p.owner ≤ q.owner) (qs ++ r ∷ [])
    last [] a = (h p (inl refl), tt)
    last (q ∷ qs) a = (a.0, last qs a.1)

-- A reference of the symbol registered last.
pub push-IsBuilt :
    (ss : List Symbol) (ns : List NsNode) (ps : List PendingRef) (r : PendingRef) (p : ℕ)
    → suc r.owner ≡ length ss
    → (at ss r.owner).parent ≡ some p
    → IsBuilt ss ns ps
    → IsBuilt ss ns (ps ++ r ∷ [])
push-IsBuilt ss ns ps r p newest inside b = record {
  tree = b.tree;
  defined = b.defined;
  owned = λ q m. elim ((In-append q ps (r ∷ [])).0 m) [
    | inl old ↦ b.owned q old
    | inr new ↦ elim new [
      | inl e ↦ rw e (omega (arith, newest), (p, inside))
      | inr none_more ↦ absurd none_more
    ]
  ];
  in_order = InOrder-snoc ps r (λ q m. omega (arith, (b.owned q m).0, newest)) b.in_order;
}
