-- ===== src/Sema/Analyze/Builtins.antt =====
-- src/sema.rs: the empty table satisfies the builder's invariants, and so does the table of the
-- well-known types, whose names differ.
use pbpp.Prelude.{
  ℕ, zero, suc, ◌<◌, ◌≡◌, refl, sym, ap, subst, Bool, true, false, not, ◌&&◌, Option, none, some,
  List, [], ◌∷◌, arith, all, ◌==◌, length, All,
}
use pbpp.Text.{Text, codes, text_eq}
use pbpp.Sema.Symbols.{Symbol, NsNode, blank_node}
use pbpp.Wkt.{WktType, types}
use pbpp.Sema.Build.{
  Builder, ns_root, find_ns, ns_child, new_node, ns_intern, define, kind_of, add_builtin,
  add_builtins, add_wkt_builtins,
}
use pbpp.Sema.Build.Invariant.{node_at, get_or-last}
use pbpp.Sema.Build.Names.{Trail, top, Trail-Extends}
use pbpp.Sema.Build.Register.{
  Built, Kept, Kept-trans, Interned-Kept, ns_intern-Interned, Interned-Trail, define-Kept,
}
use pbpp.Sema.Analyze.{start}

unnamed : (n s : ℕ) → (node_at start.sema.ns_nodes n).sym ≡ some s → s < 0
unnamed zero s e = cc
unnamed (suc n) s e = cc

start-Built : Built start
start-Built = (
  record { tree = λ i p e. cc; defined = unnamed; owned = λ r m. absurd m; in_order = tt },
  record {
    root = omega arith;
    parent_lt = λ n pos l. absurd (omega arith);
    listed = unfold find_ns in λ p n t e. cc;
    found_at = λ n pos l. absurd (omega arith);
  },
  record {
    named = λ i l. absurd (omega arith);
    back = λ n i e. absurd (omega (arith, unnamed n i e));
  },
)

distinct : List WktType → Bool
distinct [] = true
distinct (t ∷ ts) = all (λ u. not (text_eq t.name u.name)) ts && distinct ts

-- None of the types is below the node yet.
abbrev AllFresh : List ((ℕ × Text) × ℕ) → ℕ → List WktType → Type 0
AllFresh index parent ts = All (λ (t : WktType). find_ns index parent t.name ≡ none) ts

AllFresh-cons :
    (index : List ((ℕ × Text) × ℕ)) (parent n : ℕ) (t : Text) (ts : List WktType)
    → all (λ u. not (text_eq t u.name)) ts ≡ true
    → AllFresh index parent ts
    → AllFresh (((parent, t), n) ∷ index) parent ts
unfolding find_ns
AllFresh-cons index parent n t [] other fresh = tt
AllFresh-cons index parent n t (u ∷ ts) other fresh =
    let differs : (parent == parent && text_eq t u.name) ≡ false = ground arith in
    (rw differs fresh.0, AllFresh-cons index parent n t ts (ground arith) fresh.1)

-- A name that is not below the node yet gets a node without a symbol.
intern_fresh :
    (parent : ℕ) (t : Text) (b : Builder)
    → find_ns b.sema.ns_index parent t ≡ none
    → (let r = ns_intern parent t b in
        ((node_at r.1.sema.ns_nodes r.0).sym ≡ none)
        × (r.1.sema.ns_index ≡ ((parent, t), length b.sema.ns_nodes) ∷ b.sema.ns_index))
unfolding ns_intern ns_child
intern_fresh parent t b missing =
    subst
      (λ (o : Option ℕ).
        (let r = new_node o parent t b in
          ((node_at r.1.sema.ns_nodes r.0).sym ≡ none)
          × (r.1.sema.ns_index ≡ ((parent, t), length b.sema.ns_nodes) ∷ b.sema.ns_index)))
      (sym missing)
      (unfold new_node in
        (ap (λ (y : NsNode). y.sym) (get_or-last b.sema.ns_nodes _ blank_node), refl))

abbrev google_protobuf : List Text
google_protobuf = codes "google" ∷ codes "protobuf" ∷ []

add_builtin-Kept :
    (protobuf : ℕ) (t : WktType) (b : Builder)
    → protobuf < length b.sema.ns_nodes
    → Trail b.sema.ns_nodes protobuf google_protobuf
    → find_ns b.sema.ns_index protobuf t.name ≡ none
    → Built b
    → Kept b (add_builtin protobuf t b)
      × ((add_builtin protobuf t b).sema.ns_index
          ≡ ((protobuf, t.name), length b.sema.ns_nodes) ∷ b.sema.ns_index)
unfolding add_builtin
add_builtin-Kept protobuf t b below way missing built =
    let r = ns_intern protobuf t.name b in
    let i = ns_intern-Interned protobuf t.name b below built in
    let (free, index) = intern_fresh protobuf t.name b missing in
    let s : Symbol = record {
      kind = kind_of t;
      seg_start = length r.1.sema.seg_arena;
      seg_len = 3;
      ns = r.0;
      file = none;
      parent = none;
      name_span = record { start = 0; end = 0 };
      number = none;
      wkt_path = some t.file;
    } in
    (
      Kept-trans b r.1 (add_builtin protobuf t b) (Interned-Kept protobuf t.name b r i) (
          define-Kept r.0 (codes "google" ∷ codes "protobuf" ∷ t.name ∷ []) s r.1 refl refl refl tt
            i.inside free (Interned-Trail protobuf t.name b r google_protobuf i way) i.built),
      unfold define in index,
    )

add_builtins-Built :
    (protobuf : ℕ) (ts : List WktType) (b : Builder)
    → protobuf < length b.sema.ns_nodes
    → Trail b.sema.ns_nodes protobuf google_protobuf
    → AllFresh b.sema.ns_index protobuf ts
    → distinct ts ≡ true
    → Built b
    → Built (add_builtins protobuf ts b)
unfolding add_builtins distinct
add_builtins-Built protobuf [] b below way fresh different built = built
add_builtins-Built protobuf (t ∷ ts) b below way fresh different built =
    let (k, index) = add_builtin-Kept protobuf t b below way fresh.0 built in
    let others : all (λ u. not (text_eq t.name u.name)) ts ≡ true = ground arith in
    let rest : distinct ts ≡ true = ground arith in
    add_builtins-Built protobuf ts (add_builtin protobuf t b)
      (omega (arith, below, k.extends.more_nodes)) (Trail-Extends k.extends way)
      (subst (λ (x : List ((ℕ × Text) × ℕ)). AllFresh x protobuf ts) (sym index)
        (AllFresh-cons b.sema.ns_index protobuf (length b.sema.ns_nodes) t.name ts others fresh.1))
      rest k.built

-- The table of the well-known types has no name twice.
types_differ : distinct types ≡ true
unfolding distinct text_eq
types_differ = refl

pub add_wkt_builtins-Built : Built (add_wkt_builtins start)
unfolding add_wkt_builtins
add_wkt_builtins-Built =
    let google = ns_intern ns_root (codes "google") start in
    let i = ns_intern-Interned ns_root (codes "google") start (omega arith) start-Built in
    let protobuf = ns_intern google.0 (codes "protobuf") google.1 in
    let j = ns_intern-Interned google.0 (codes "protobuf") google.1 i.inside i.built in
    let way : Trail google.1.sema.ns_nodes google.0 (codes "google" ∷ []) =
      Interned-Trail ns_root (codes "google") start google [] i top in
    add_builtins-Built protobuf.0 types protobuf.1 j.inside
      (Interned-Trail google.0 (codes "protobuf") google.1 protobuf (codes "google" ∷ []) j way)
      (all_fresh types) types_differ j.built
  where
    all_fresh :
        (ts : List WktType)
        → (let google = ns_intern ns_root (codes "google") start in
            let protobuf = ns_intern google.0 (codes "protobuf") google.1 in
            AllFresh protobuf.1.sema.ns_index protobuf.0 ts)
    all_fresh [] = tt
    all_fresh (t ∷ ts) = (unfold ns_intern ns_child new_node find_ns in refl, all_fresh ts)
