-- ===== src/Sema/Build/Register.antt =====
-- src/sema.rs: a registration keeps the builder's invariant.
use pbpp.Prelude.{
  err, ◌+◌, inl, inr, Bool-cases, leb, ◌^◌, ℕ, suc, ◌≡◌, refl, Option, none, some, List, [], ◌∷◌,
  ◌++◌, arith, append_nil, ◌<◌, ◌∙◌, length, length-append, set, subst, sym, ap, Result, ok, ◌>>=◌,
  >>=-eq-ok,
}
use pbpp.Prelude.Int.{ℤ}
use pbpp.Text.{Text}
use pbpp.Cst.Nodes.{Word}
use pbpp.Sema.Kind.{SymKind}
use pbpp.Sema.Symbols.{Symbol, NsNode, sym_count, blank_symbol, blank_node}
use pbpp.Sema.Build.{
  too_large, find_ns, node, SemaError, Scope, Builder, Added, ns_child, new_node, ns_intern, define,
  seg_mark, registered, add_at, add_symbol,
}
use mathlib.Core.List.{append_assoc}
use pbpp.Sema.Build.Names.{
  Trail, under, Trail-Extends, Extends, Extends-self, Extends-trans, Extends-snoc, Extends-set,
  with_sym, IsTree, new_node-IsTree, set-IsTree,
}
use pbpp.Sema.Build.Naming.{
  words_at, IsNamed, InScope, InScope-Extends, new_node-IsNamed, define-IsNamed, length-words_at,
  inner-InScope,
}
use pbpp.Sema.Build.Invariant.{
  node_at, at, ParentIn, ParentIn-Grows, IsBuilt, Grows, Grows-self, Grows-trans, Grows-snoc,
  get_or-last, define-IsBuilt, new_node-IsBuilt,
}

-- The invariants of the table, of the tree of namespace nodes, and of the names.
abbrev pub Built : Builder → Type 0
Built b =
    IsBuilt b.sema.symbols b.sema.ns_nodes b.pending
    × IsTree b.sema.ns_nodes b.sema.ns_index
    × IsNamed b.sema.symbols b.sema.seg_arena b.sema.ns_nodes

-- What a step makes of the builder: the invariants hold again, and all has only grown.
pub record Kept (b b' : Builder) : Type 0 where
  pub built : Built b'
  pub grows : Grows b.sema.symbols b'.sema.symbols
  pub longer : (more : List Text) × (b'.sema.seg_arena ≡ b.sema.seg_arena ++ more)
  pub extends : Extends b.sema.ns_nodes b'.sema.ns_nodes

pub Kept-self : (b : Builder) → Built b → Kept b b
Kept-self b built = record {
  built = built;
  grows = Grows-self b.sema.symbols;
  longer = ([], sym (append_nil b.sema.seg_arena));
  extends = Extends-self b.sema.ns_nodes;
}

pub Kept-trans : (a b c : Builder) → Kept a b → Kept b c → Kept a c
Kept-trans a b c g h =
    let (first, e) = g.longer in
    let (second, f) = h.longer in
    record {
      built = h.built;
      grows = Grows-trans g.grows h.grows;
      longer = (
        first ++ second,
        f ∙ ap (λ (l : List Text). l ++ second) e ∙ append_assoc a.sema.seg_arena first second,
      );
      extends = Extends-trans a.sema.ns_nodes b.sema.ns_nodes c.sema.ns_nodes g.extends h.extends;
    }

-- Interning a name gives a node below the parent, and adds at most that node.
pub record Interned (parent : ℕ) (name : Text) (b : Builder) (r : ℕ × Builder) : Type 0 where
  pub built : Built r.1
  pub same_symbols : r.1.sema.symbols ≡ b.sema.symbols
  pub same_pending : r.1.pending ≡ b.pending
  pub same_arena : r.1.sema.seg_arena ≡ b.sema.seg_arena
  pub extends : Extends b.sema.ns_nodes r.1.sema.ns_nodes
  pub positive : 0 < r.0
  pub inside : r.0 < length r.1.sema.ns_nodes
  pub parent_is : (node_at r.1.sema.ns_nodes r.0).parent ≡ parent
  pub name_is : (node_at r.1.sema.ns_nodes r.0).name ≡ name

new_node-Interned :
    (o : Option ℕ) (parent : ℕ) (name : Text) (b : Builder)
    → find_ns b.sema.ns_index parent name ≡ o
    → parent < length b.sema.ns_nodes
    → Built b
    → Interned parent name b (new_node o parent name b)
unfolding new_node
new_node-Interned (some id) parent name b found below built =
    let (positive, inside, parent_is, name_is) = built.1.listed parent id name found in
    record {
      built = built;
      same_symbols = refl;
      same_pending = refl;
      same_arena = refl;
      extends = Extends-self b.sema.ns_nodes;
      positive = positive;
      inside = inside;
      parent_is = parent_is;
      name_is = name_is;
    }
new_node-Interned none parent name b missing below built =
    let ns = b.sema.ns_nodes in
    let x : NsNode = record { parent = parent; name = name; sym = none } in
    let last = get_or-last ns x blank_node in
    record {
      built = (
        new_node-IsBuilt b.sema.symbols ns b.pending x refl built.0,
        new_node-IsTree ns b.sema.ns_index parent name built.1 below missing,
        new_node-IsNamed b.sema.symbols b.sema.seg_arena ns x refl built.2,
      );
      same_symbols = refl;
      same_pending = refl;
      same_arena = refl;
      extends = Extends-snoc ns x;
      positive = built.1.root;
      inside = omega (arith, length-append ns (x ∷ []));
      parent_is = ap (λ (y : NsNode). y.parent) last;
      name_is = ap (λ (y : NsNode). y.name) last;
    }

pub ns_intern-Interned :
    (parent : ℕ) (name : Text) (b : Builder)
    → parent < length b.sema.ns_nodes
    → Built b
    → Interned parent name b (ns_intern parent name b)
unfolding ns_intern ns_child
ns_intern-Interned parent name b below built =
    new_node-Interned (ns_child b.sema parent name) parent name b refl below built

pub Interned-Kept :
    (parent : ℕ) (name : Text) (b : Builder) (r : ℕ × Builder)
    → Interned parent name b r
    → Kept b r.1
Interned-Kept parent name b r i = record {
  built = i.built;
  grows = subst (Grows b.sema.symbols) (sym i.same_symbols) (Grows-self b.sema.symbols);
  longer = ([], i.same_arena ∙ sym (append_nil b.sema.seg_arena));
  extends = i.extends;
}

-- The way to an interned node.
pub Interned-Trail :
    (parent : ℕ) (name : Text) (b : Builder) (r : ℕ × Builder) (ts : List Text)
    → Interned parent name b r
    → Trail b.sema.ns_nodes parent ts
    → Trail r.1.sema.ns_nodes r.0 (ts ++ name ∷ [])
Interned-Trail parent name b r ts i way =
    under i.positive i.inside
      (subst (λ (p : ℕ). Trail r.1.sema.ns_nodes p ts) (sym i.parent_is)
        (Trail-Extends i.extends way))
      (ap (λ (x : Text). ts ++ x ∷ []) (sym i.name_is))

-- A symbol registered at a node without one.
pub define-Kept :
    (ns : ℕ) (segs : List Text) (s : Symbol) (b : Builder)
    → s.ns ≡ ns
    → s.seg_start ≡ length b.sema.seg_arena
    → s.seg_len ≡ length segs
    → ParentIn b.sema.symbols s.parent
    → ns < length b.sema.ns_nodes
    → (node_at b.sema.ns_nodes ns).sym ≡ none
    → Trail b.sema.ns_nodes ns segs
    → Built b
    → Kept b (define ns segs s b)
unfolding define node sym_count
define-Kept ns segs s b there starts size parent inside free way built =
    let ss = b.sema.symbols in
    let nodes = b.sema.ns_nodes in
    let v = with_sym nodes ns (some (length ss)) in
    record {
      built = (
        define-IsBuilt ss nodes b.pending s ns v refl parent built.0,
        set-IsTree nodes b.sema.ns_index ns (some (length ss)) built.1,
        subst
            (λ (k : ℕ).
              IsNamed (ss ++ s ∷ []) (b.sema.seg_arena ++ segs)
                (set nodes k (with_sym nodes k (some (length ss)))))
            there
            (define-IsNamed ss b.sema.seg_arena segs nodes s starts size
              (subst (λ (k : ℕ). k < length nodes) (sym there) inside)
              (subst (λ (k : ℕ). (node_at nodes k).sym ≡ none) (sym there) free)
              (subst (λ (k : ℕ). Trail nodes k segs) (sym there) way) built.2),
      );
      grows = Grows-snoc ss s;
      longer = (segs, refl);
      extends = Extends-set nodes ns (some (length ss));
    }

-- Where a definition or a member is to be registered: inside a definition of the table or at the
-- top, in a scope of the tree.
abbrev pub Inside : Builder → Scope → Option ℕ → Type 0
Inside b scope parent =
    ParentIn b.sema.symbols parent × InScope b.sema.seg_arena b.sema.ns_nodes scope

pub Inside-Kept :
    (b b' : Builder) (scope : Scope) (parent : Option ℕ)
    → Kept b b'
    → Inside b scope parent
    → Inside b' scope parent
Inside-Kept b b' scope parent k (there, in_scope) = (
  ParentIn-Grows b.sema.symbols b'.sema.symbols parent k.grows there,
  InScope-Extends b.sema.seg_arena b'.sema.seg_arena b.sema.ns_nodes b'.sema.ns_nodes scope k.longer
      k.extends in_scope,
)

-- What `add_symbol` returns of the builder `b`.
pub record IsAdded (b : Builder) (kind : SymKind) (parent : Option ℕ) (a : Added) : Type 0 where
  pub kept : Kept b a.builder
  pub newest : suc a.id ≡ length a.builder.sema.symbols
  pub kind_is : (at a.builder.sema.symbols a.id).kind ≡ kind
  pub parent_is : (at a.builder.sema.symbols a.id).parent ≡ parent
  pub scope_in : InScope a.builder.sema.seg_arena a.builder.sema.ns_nodes a.inner

pub seg_mark_lem : (b : Builder) (m : ℕ) → seg_mark b ≡ ok m → m ≡ length b.sema.seg_arena
unfolding seg_mark
seg_mark_lem b m e = elim (Bool-cases (leb (2 ^ 32) (length b.sema.seg_arena))) [
  | inl over ↦ let clash : ◌≡◌ {A = Result SemaError ℕ} (err too_large) (ok m) = rw over at e in cc
  | inr fits ↦
      let same : ◌≡◌ {A = Result SemaError ℕ} (ok (length b.sema.seg_arena)) (ok m) =
        rw fits at e in
      cc
]

module _ (file : ℕ) (kind : SymKind) (scope : Scope) (name : Word) (node_id : ℕ) (parent : Option ℕ)
    (number : Option ℤ) where
  -- A node below the scope that names no symbol.
  abbrev IsFree : ℕ → Builder → Type 0
  IsFree ns b =
      (ns < length b.sema.ns_nodes)
      × ((node_at b.sema.ns_nodes ns).sym ≡ none)
      × Trail b.sema.ns_nodes ns
          (words_at b.sema.seg_arena scope.seg_start scope.seg_len ++ name.text ∷ [])

  registered-IsAdded :
      (ns seg_start : ℕ) (b : Builder)
      → seg_start ≡ length b.sema.seg_arena
      → IsFree ns b
      → Inside b scope parent
      → Built b
      → IsAdded b kind parent (registered file kind scope name node_id parent number ns seg_start b)
  unfolding registered define sym_count node
  registered-IsAdded ns seg_start b starts (inside, free, way) (there, (fits, beneath, outer))
        built =
      let words = words_at b.sema.seg_arena scope.seg_start scope.seg_len in
      let s : Symbol = record {
        kind = kind;
        seg_start = seg_start;
        seg_len = scope.seg_len + 1;
        ns = ns;
        file = some file;
        parent = parent;
        name_span = name.span;
        number = number;
        wkt_path = none;
      } in
      let size : scope.seg_len + 1 ≡ length (words ++ name.text ∷ []) = omega (
        arith,
        length-append words (name.text ∷ []),
        length-words_at b.sema.seg_arena scope.seg_start scope.seg_len fits,
      ) in
      let k =
        define-Kept ns (words ++ name.text ∷ []) s b refl starts size there inside free way built in
      record {
        kept = record { built = k.built; grows = k.grows; longer = k.longer; extends = k.extends };
        newest = rw (length-append b.sema.symbols (s ∷ [])) (omega arith);
        kind_is = ap (λ (t : Symbol). t.kind) (get_or-last b.sema.symbols s blank_symbol);
        parent_is = ap (λ (t : Symbol). t.parent) (get_or-last b.sema.symbols s blank_symbol);
        scope_in =
            inner-InScope b.sema.symbols (b.sema.seg_arena ++ (words ++ name.text ∷ []))
              (set b.sema.ns_nodes ns (with_sym b.sema.ns_nodes ns (some (length b.sema.symbols))))
              s (omega (arith, inside, k.extends.more_nodes)) k.built.2;
      }

  add_at-IsAdded :
      (ns : ℕ) (o : Option ℕ) (b : Builder) (a : Added)
      → (node_at b.sema.ns_nodes ns).sym ≡ o
      → ns < length b.sema.ns_nodes
      → Trail b.sema.ns_nodes ns
          (words_at b.sema.seg_arena scope.seg_start scope.seg_len ++ name.text ∷ [])
      → Inside b scope parent
      → Built b
      → add_at file kind scope name node_id parent number ns o b ≡ ok a
      → IsAdded b kind parent a
  unfolding add_at
  add_at-IsAdded ns (some prev) b a here below way inside built h = cc
  add_at-IsAdded ns none b a here below way inside built h =
      let (seg_start, mark, done) =
        >>=-eq-ok (seg_mark b)
          (λ m. ok (registered file kind scope name node_id parent number ns m b)) h in
      let e : registered file kind scope name node_id parent number ns seg_start b ≡ a = cc in
      subst (IsAdded b kind parent) e (
        registered-IsAdded ns seg_start b (seg_mark_lem b seg_start mark) (below, here, way) inside
          built)

  pub add_symbol-IsAdded :
      (b : Builder) (a : Added)
      → Inside b scope parent
      → Built b
      → add_symbol file kind scope name node_id parent number b ≡ ok a
      → IsAdded b kind parent a
  unfolding add_symbol node
  add_symbol-IsAdded b a inside built h =
      let r = ns_intern scope.ns name.text b in
      let i = ns_intern-Interned scope.ns name.text b inside.1.1 built in
      let k = Interned-Kept scope.ns name.text b r i in
      let words = λ (arena : List Text). words_at arena scope.seg_start scope.seg_len in
      let way : Trail r.1.sema.ns_nodes r.0 (words r.1.sema.seg_arena ++ name.text ∷ []) =
        subst (λ (arena : List Text). Trail r.1.sema.ns_nodes r.0 (words arena ++ name.text ∷ []))
          (sym i.same_arena)
          (Interned-Trail scope.ns name.text b r (words b.sema.seg_arena) i inside.1.2) in
      let added =
        add_at-IsAdded r.0 (node_at r.1.sema.ns_nodes r.0).sym r.1 a refl i.inside way
          (Inside-Kept b r.1 scope parent k inside) i.built h in
      record {
        kept = Kept-trans b r.1 a.builder k added.kept;
        newest = added.newest;
        kind_is = added.kind_is;
        parent_is = added.parent_is;
        scope_in = added.scope_in;
      }

  -- The same for what follows on a registration.
  pub add_symbol_then :
      {R : Type 0} (next : Added → Result SemaError R) (b : Builder) (r : R)
      → Inside b scope parent
      → Built b
      → (add_symbol file kind scope name node_id parent number b >>= next) ≡ ok r
      → (a : Added) × IsAdded b kind parent a × (next a ≡ ok r)
  add_symbol_then next b r inside built h =
      let (a, e, rest) =
        >>=-eq-ok (add_symbol file kind scope name node_id parent number b) next h in
      (a, add_symbol-IsAdded b a inside built e, rest)
