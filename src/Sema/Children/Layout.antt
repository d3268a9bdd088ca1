-- ===== src/Sema/Children/Layout.antt =====
-- src/sema.rs: `children` reads off what `build_children` laid out.
use pbpp.Prelude.{
  ℕ, zero, suc, ◌-◌, ◌≤◌, ◌<◌, ◌≡◌, inl, inr, some, List, [], arith, get_or, length, ◌==◌,
  Bool-cases,
}
use pbpp.Sema.Symbols.{Symbol, slice, children}
use pbpp.Sema.Build.{Builder}
use pbpp.Sema.Build.Invariant.{at, get_or-behind}
use pbpp.Sema.Children.{zeros, offsets, scatter, build_children}
use pbpp.Sema.Children.Arena.{take-drop_eq, kids, InTable, InTable-of_at}
use pbpp.Sema.Children.Counts.{length-zeros, start, length-offsets, offsets-start}
use pbpp.Sema.Children.Scatter.{IsRoomy, IsScattered, scatter-IsScattered}

start_mono : (ss : List Symbol) (a b : ℕ) → a ≤ b → start ss a ≤ start ss b
start_mono ss a zero h = let e : a ≡ 0 = omega arith in rw e (omega arith)
start_mono ss a (suc b) h = elim (Bool-cases (a == suc b)) [
  | inl here ↦ let e : a ≡ suc b = ground arith in rw e (omega arith)
  | inr below ↦ omega (arith, start_mono ss a b (ground arith))
]

module _ (ss : List Symbol) (known : InTable (length ss) ss) where
  abbrev total : ℕ
  total = get_or (offsets ss) (length ss) 0

  total_lem : total ≡ start ss (length ss)
  total_lem = offsets-start ss (length ss) (omega arith)

  offsets-IsRoomy : IsRoomy (length ss) ss 0 (offsets ss) (zeros total)
  offsets-IsRoomy = record {
    cursors = length-offsets ss;
    apart = λ p q l k. omega (
      arith,
      offsets-start ss p (omega arith),
      offsets-start ss q (omega arith),
      start_mono ss (suc p) q (omega arith),
    );
    inside = λ p k. omega (
      arith,
      offsets-start ss p (omega arith),
      start_mono ss (suc p) (length ss) k,
      total_lem,
      length-zeros total,
    );
  }

  abbrev arena : List ℕ
  arena = scatter ss 0 (offsets ss) (zeros total)

  laid_out : IsScattered (length ss) ss 0 (offsets ss) (zeros total) arena
  laid_out = scatter-IsScattered (length ss) ss 0 (offsets ss) (zeros total) known offsets-IsRoomy

  -- The piece of the arena between the offsets of `p` and of the next symbol.
  piece-kids :
      (p : ℕ)
      → p < length ss
      → slice arena (get_or (offsets ss) p 0) (get_or (offsets ss) (suc p) 0) ≡ kids p ss 0
  unfolding slice
  piece-kids p h =
      let from = offsets-start ss p (omega arith) in
      let upto = offsets-start ss (suc p) h in
      let size : get_or (offsets ss) (suc p) 0 - get_or (offsets ss) p 0 ≡ length (kids p ss 0) =
        omega (arith, from, upto) in
      rw size (
        take-drop_eq arena (kids p ss 0) (get_or (offsets ss) p 0) 0
          (omega (arith, laid_out.same_length, offsets-IsRoomy.inside p h))
          (λ t k. laid_out.filled p t h k))

  -- Behind the table there are no children.
  piece_behind :
      (p : ℕ)
      → length ss ≤ p
      → slice arena (get_or (offsets ss) p 0) (get_or (offsets ss) (suc p) 0) ≡ []
  unfolding slice
  piece_behind p h =
      let last : get_or (offsets ss) (suc p) 0 ≡ 0 =
        get_or-behind (offsets ss) (suc p) 0 (omega (arith, length-offsets ss)) in
      let size : get_or (offsets ss) (suc p) 0 - get_or (offsets ss) p 0 ≡ 0 =
        omega (arith, last) in
      rw size

-- Where every parent is a symbol of the table, the children of each symbol are the symbols whose
-- parent it is, in the order of the table.
pub build_children-kids :
    (b : Builder) (p : ℕ)
    → ((i q : ℕ) → (at b.sema.symbols i).parent ≡ some q → q < length b.sema.symbols)
    → p < length b.sema.symbols
    → children (build_children b).sema p ≡ kids p b.sema.symbols 0
unfolding build_children children
build_children-kids b p known h =
    piece-kids b.sema.symbols (InTable-of_at (length b.sema.symbols) b.sema.symbols known) p h

pub build_children-behind :
    (b : Builder) (p : ℕ)
    → ((i q : ℕ) → (at b.sema.symbols i).parent ≡ some q → q < length b.sema.symbols)
    → length b.sema.symbols ≤ p
    → children (build_children b).sema p ≡ []
unfolding build_children children
build_children-behind b p known h =
    piece_behind b.sema.symbols (InTable-of_at (length b.sema.symbols) b.sema.symbols known) p h
