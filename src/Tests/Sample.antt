-- ===== src/Tests/Sample.antt =====
-- A symbol table: the builtin `google.protobuf.Any`, then, in package `a`,
-- `message A { B b = 1; Any x = 2; }`, `message B {}` and `enum E { ZERO = 0; }`.
use pbpp.Prelude.{
  ℕ, zero, suc, ◌<◌, ◌≡◌, true, Option, none, some, List, [], ◌∷◌, In, arith, inl, inr,
}
use pbpp.Prelude.Int.{ℤ, pos}
use pbpp.Text.{Text, codes}
use pbpp.Span.{Span}
use pbpp.Rules.{RuleSet, Rule, Polarity, PatSeg, lit}
use pbpp.Sema.Kind.{SymKind, is_def}
use pbpp.Sema.Symbols.{Sema, Symbol, Ref, sym, sym_count, children, refs, IsWellFormed}

abbrev no_span : Span
no_span = record { start = 0; end = 0 }

abbrev pub entry : SymKind → ℕ → ℕ → Option ℕ → Option ℕ → Option ℤ → Option Text → Symbol
entry kind seg_start seg_len file parent number wkt = record {
  kind = kind;
  seg_start = seg_start;
  seg_len = seg_len;
  ns = 0;
  file = file;
  parent = parent;
  name_span = no_span;
  number = number;
  wkt_path = wkt;
}

abbrev pub sample : Sema
sample = record {
  symbols =
      entry SymKind.message 0 3 none none none (some (codes "google/protobuf/any.proto"))
      ∷ entry SymKind.message 3 2 (some 0) none none none
      ∷ entry SymKind.field 5 3 (some 0) (some 1) (some (pos 1)) none
      ∷ entry SymKind.field 8 3 (some 0) (some 1) (some (pos 2)) none
      ∷ entry SymKind.message 11 2 (some 0) none none none
      ∷ entry SymKind.enum 13 2 (some 0) none none none
      ∷ entry SymKind.enum_value 15 3 (some 0) (some 5) (some (pos 0)) none
      ∷ [];
  seg_arena =
      codes "google"
      ∷ codes "protobuf"
      ∷ codes "Any"
      ∷ codes "a"
      ∷ codes "A"
      ∷ codes "a"
      ∷ codes "A"
      ∷ codes "b"
      ∷ codes "a"
      ∷ codes "A"
      ∷ codes "x"
      ∷ codes "a"
      ∷ codes "B"
      ∷ codes "a"
      ∷ codes "E"
      ∷ codes "a"
      ∷ codes "E"
      ∷ codes "ZERO"
      ∷ [];
  ns_nodes = [];
  ns_index = [];
  file_top = (1 ∷ 4 ∷ 5 ∷ []) ∷ [];
  node_sym = [] ∷ [];
  children_arena = 2 ∷ 3 ∷ 6 ∷ [];
  children_off = 0 ∷ 0 ∷ 2 ∷ 2 ∷ 2 ∷ 2 ∷ 3 ∷ 3 ∷ [];
  refs_arena = record { span = no_span; target = 4 } ∷ record { span = no_span; target = 0 } ∷ [];
  refs_off = 0 ∷ 0 ∷ 0 ∷ 1 ∷ 2 ∷ 2 ∷ 2 ∷ 2 ∷ [];
  provides = (0 ∷ [], []) ∷ [];
}

sample-parent_lt : (i p : ℕ) → (sym sample i).parent ≡ some p → p < i
unfolding sym
sample-parent_lt zero p e = cc
sample-parent_lt (suc zero) p e = cc
sample-parent_lt (suc (suc zero)) p e = ground arith
sample-parent_lt (suc (suc (suc zero))) p e = ground arith
sample-parent_lt (suc (suc (suc (suc zero)))) p e = cc
sample-parent_lt (suc (suc (suc (suc (suc zero))))) p e = cc
sample-parent_lt (suc (suc (suc (suc (suc (suc zero)))))) p e = ground arith
sample-parent_lt (suc (suc (suc (suc (suc (suc (suc i))))))) p e = cc

sample-child_parent : (i c : ℕ) → In c (children sample i) → (sym sample c).parent ≡ some i
unfolding sym children
sample-child_parent zero c m = absurd m
sample-child_parent (suc zero) c (inl e) = rw e
sample-child_parent (suc zero) c (inr (inl e)) = rw e
sample-child_parent (suc zero) c (inr (inr m)) = absurd m
sample-child_parent (suc (suc zero)) c m = absurd m
sample-child_parent (suc (suc (suc zero))) c m = absurd m
sample-child_parent (suc (suc (suc (suc zero)))) c m = absurd m
sample-child_parent (suc (suc (suc (suc (suc zero))))) c (inl e) = rw e
sample-child_parent (suc (suc (suc (suc (suc zero))))) c (inr m) = absurd m
sample-child_parent (suc (suc (suc (suc (suc (suc zero)))))) c m = absurd m
sample-child_parent (suc (suc (suc (suc (suc (suc (suc zero))))))) c m = absurd m
sample-child_parent (suc (suc (suc (suc (suc (suc (suc (suc i)))))))) c m = absurd m

sample-child_lt : (i c : ℕ) → In c (children sample i) → c < sym_count sample
unfolding sym_count children
sample-child_lt zero c m = absurd m
sample-child_lt (suc zero) c (inl e) = omega arith
sample-child_lt (suc zero) c (inr (inl e)) = omega arith
sample-child_lt (suc zero) c (inr (inr m)) = absurd m
sample-child_lt (suc (suc zero)) c m = absurd m
sample-child_lt (suc (suc (suc zero))) c m = absurd m
sample-child_lt (suc (suc (suc (suc zero)))) c m = absurd m
sample-child_lt (suc (suc (suc (suc (suc zero))))) c (inl e) = omega arith
sample-child_lt (suc (suc (suc (suc (suc zero))))) c (inr m) = absurd m
sample-child_lt (suc (suc (suc (suc (suc (suc zero)))))) c m = absurd m
sample-child_lt (suc (suc (suc (suc (suc (suc (suc zero))))))) c m = absurd m
sample-child_lt (suc (suc (suc (suc (suc (suc (suc (suc i)))))))) c m = absurd m

sample-target_lt : (i : ℕ) (r : Ref) → In r (refs sample i) → r.target < sym_count sample
unfolding sym_count refs
sample-target_lt zero r m = absurd m
sample-target_lt (suc zero) r m = absurd m
sample-target_lt (suc (suc zero)) r (inl e) = rw e (omega arith)
sample-target_lt (suc (suc zero)) r (inr m) = absurd m
sample-target_lt (suc (suc (suc zero))) r (inl e) = rw e (omega arith)
sample-target_lt (suc (suc (suc zero))) r (inr m) = absurd m
sample-target_lt (suc (suc (suc (suc zero)))) r m = absurd m
sample-target_lt (suc (suc (suc (suc (suc zero))))) r m = absurd m
sample-target_lt (suc (suc (suc (suc (suc (suc zero)))))) r m = absurd m
sample-target_lt (suc (suc (suc (suc (suc (suc (suc zero))))))) r m = absurd m
sample-target_lt (suc (suc (suc (suc (suc (suc (suc (suc i)))))))) r m = absurd m

sample-target_is_def :
    (i : ℕ) (r : Ref) → In r (refs sample i) → is_def (sym sample r.target).kind ≡ true
unfolding sym is_def refs
sample-target_is_def zero r m = absurd m
sample-target_is_def (suc zero) r m = absurd m
sample-target_is_def (suc (suc zero)) r (inl e) = rw e
sample-target_is_def (suc (suc zero)) r (inr m) = absurd m
sample-target_is_def (suc (suc (suc zero))) r (inl e) = rw e
sample-target_is_def (suc (suc (suc zero))) r (inr m) = absurd m
sample-target_is_def (suc (suc (suc (suc zero)))) r m = absurd m
sample-target_is_def (suc (suc (suc (suc (suc zero))))) r m = absurd m
sample-target_is_def (suc (suc (suc (suc (suc (suc zero)))))) r m = absurd m
sample-target_is_def (suc (suc (suc (suc (suc (suc (suc zero))))))) r m = absurd m
sample-target_is_def (suc (suc (suc (suc (suc (suc (suc (suc i)))))))) r m = absurd m

sample-parent_is_def :
    (i p : ℕ) → (sym sample i).parent ≡ some p → is_def (sym sample p).kind ≡ true
unfolding sym is_def
sample-parent_is_def zero p e = cc
sample-parent_is_def (suc zero) p e = cc
sample-parent_is_def (suc (suc zero)) p e = let q : ◌≡◌ {A = ℕ} 1 p = cc in rw (← q)
sample-parent_is_def (suc (suc (suc zero))) p e = let q : ◌≡◌ {A = ℕ} 1 p = cc in rw (← q)
sample-parent_is_def (suc (suc (suc (suc zero)))) p e = cc
sample-parent_is_def (suc (suc (suc (suc (suc zero))))) p e = cc
sample-parent_is_def (suc (suc (suc (suc (suc (suc zero)))))) p e =
    let q : ◌≡◌ {A = ℕ} 5 p = cc in rw (← q)
sample-parent_is_def (suc (suc (suc (suc (suc (suc (suc i))))))) p e = cc

pub sample-IsWellFormed : IsWellFormed sample
sample-IsWellFormed = record {
  parent_lt = sample-parent_lt;
  child_parent = sample-child_parent;
  child_lt = sample-child_lt;
  target_lt = sample-target_lt;
  parent_is_def = sample-parent_is_def;
  target_is_def = sample-target_is_def;
}

abbrev rule : Polarity → List PatSeg → Rule
rule p pattern = record { polarity = p; pattern = pattern; kind = none; raw = []; span = none }

-- `+ a.A`, `+ a.E` and `-! google.protobuf.Any`.
abbrev pub sample_rules : RuleSet
sample_rules = record {
  rules =
      rule Polarity.keep (lit (codes "a") ∷ lit (codes "A") ∷ [])
      ∷ rule Polarity.keep (lit (codes "a") ∷ lit (codes "E") ∷ [])
      ∷ rule Polarity.drop_cascade
          (lit (codes "google") ∷ lit (codes "protobuf") ∷ lit (codes "Any") ∷ [])
      ∷ [];
  src = none;
}

-- `+ a.A` and `- a.B`, which the reference of `a.A.b` contradicts.
abbrev pub conflicting_rules : RuleSet
conflicting_rules = record {
  rules =
      rule Polarity.keep (lit (codes "a") ∷ lit (codes "A") ∷ [])
      ∷ rule Polarity.drop (lit (codes "a") ∷ lit (codes "B") ∷ [])
      ∷ [];
  src = none;
}
