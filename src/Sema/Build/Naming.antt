-- ===== src/Sema/Build/Naming.antt =====
-- src/sema.rs: the segments of a symbol are the names on the way to its namespace node, and the
-- node names the symbol.
use pbpp.Prelude.{
  ℕ, zero, suc, ◌+◌, ◌-◌, ◌≤◌, ◌<◌, ◌≡◌, ◌≢◌, ◌∙◌, refl, sym, ap, subst, inl, inr, Bool-cases, none,
  some, List, [], ◌∷◌, ◌++◌, arith, ltb, set, take, drop, length, get_or-set_self, get_or-set_ne,
  length-append, drop-append,
}
use pbpp.Text.{Text}
use pbpp.Sema.Symbols.{Symbol, NsNode, slice, blank_symbol, blank_node}
use pbpp.Sema.Build.{Scope}
use pbpp.Sema.Build.Invariant.{at, node_at, get_or-before, get_or-last, get_or-behind, get_or-write}
use pbpp.Sema.Build.Names.{
  Trail, Extends, Trail-Extends, Extends-snoc, Extends-set, with_sym, snoc_cases,
}

-- `n` segments of the arena from `start` on.
abbrev pub words_at : List Text → ℕ → ℕ → List Text
words_at arena start n = slice arena start (start + n)

module _ {A : Type 0} where
  take_within : (xs ys : List A) (n : ℕ) → n ≤ length xs → take n (xs ++ ys) ≡ take n xs
  take_within xs ys zero l = refl
  take_within [] ys (suc n) l = absurd (omega arith)
  take_within (x ∷ xs) ys (suc n) l = rw (take_within xs ys n (omega arith))

  pub slice_within :
      (xs ys : List A) (a n : ℕ)
      → a + n ≤ length xs
      → slice (xs ++ ys) a (a + n) ≡ slice xs a (a + n)
  unfolding slice
  slice_within xs ys zero n l = take_within xs ys (0 + n - 0) (omega arith)
  slice_within [] ys (suc a) n l = absurd (omega arith)
  slice_within (x ∷ xs) ys (suc a) n l =
      let size : suc a + n - suc a ≡ a + n - a = omega arith in
      rw size (slice_within xs ys a n (omega arith))

  pub slice_last : (xs ys : List A) → slice (xs ++ ys) (length xs) (length xs + length ys) ≡ ys
  unfolding slice
  slice_last xs ys =
      let size : length xs + length ys - length xs ≡ length ys = omega arith in
      rw size (rw (drop-append xs ys) (take-all ys))
    where
      take-all : (ys : List A) → take (length ys) ys ≡ ys
      take-all [] = refl
      take-all (y ∷ ys) = rw (take-all ys)

-- The symbol stands at a node whose way has the symbol's segments as its names.
abbrev pub IsAt : List Text → List NsNode → Symbol → ℕ → Type 0
IsAt arena ns s i =
    (s.seg_start + s.seg_len ≤ length arena)
    × Trail ns s.ns (words_at arena s.seg_start s.seg_len)
    × ((node_at ns s.ns).sym ≡ some i)

pub record IsNamed (ss : List Symbol) (arena : List Text) (ns : List NsNode) : Type 0 where
  pub named : (i : ℕ) → i < length ss → IsAt arena ns (at ss i) i
  pub back : (n i : ℕ) → (node_at ns n).sym ≡ some i → (i < length ss) × ((at ss i).ns ≡ n)

-- A node that names a symbol is a node.
sym-in : (ns : List NsNode) (n i : ℕ) → (node_at ns n).sym ≡ some i → n < length ns
sym-in ns n i e = elim (Bool-cases (ltb n (length ns))) [
  | inl inside ↦ ground arith
  | inr beyond ↦
      let blank = get_or-behind ns n blank_node (ground arith) in
      let clash : none ≡ some i = ap (λ (y : NsNode). y.sym) (sym blank) ∙ e in cc
]

pub new_node-IsNamed :
    (ss : List Symbol) (arena : List Text) (ns : List NsNode) (x : NsNode)
    → x.sym ≡ none
    → IsNamed ss arena ns
    → IsNamed ss arena (ns ++ x ∷ [])
new_node-IsNamed ss arena ns x unnamed h = record {
  named = λ i l.
      let (fits, way, here) = h.named i l in
      (
        fits,
        Trail-Extends (Extends-snoc ns x) way,
        ap (λ (y : NsNode). y.sym)
              (get_or-before ns (x ∷ []) (at ss i).ns blank_node (sym-in ns (at ss i).ns i here))
            ∙ here,
      );
  back = λ n i e. elim (snoc_cases ns x n (sym-in (ns ++ x ∷ []) n i e)) [
    | inl below ↦
        h.back n i
          (ap (λ (y : NsNode). y.sym) (sym (get_or-before ns (x ∷ []) n blank_node below)) ∙ e)
    | inr last ↦
        let new : (node_at (ns ++ x ∷ []) n).sym ≡ none =
          subst (λ (m : ℕ). (node_at (ns ++ x ∷ []) m).sym ≡ none) (sym last)
            (ap (λ (y : NsNode). y.sym) (get_or-last ns x blank_node) ∙ unnamed) in
        let clash : none ≡ some i = sym new ∙ e in cc
  ];
}

-- Segments behind the arena change nothing.
pub arena-IsNamed :
    (ss : List Symbol) (arena more : List Text) (ns : List NsNode)
    → IsNamed ss arena ns
    → IsNamed ss (arena ++ more) ns
arena-IsNamed ss arena more ns h = record {
  named = λ i l.
      let (fits, way, here) = h.named i l in
      let s = at ss i in
      (
        rw (length-append arena more) (omega (arith, fits)),
        subst (Trail ns s.ns) (sym (slice_within arena more s.seg_start s.seg_len fits)) way,
        here,
      );
  back = h.back;
}

-- Registering a symbol at a node without one, whose way its segments are.
pub define-IsNamed :
    (ss : List Symbol) (arena segs : List Text) (ns : List NsNode) (s : Symbol)
    → s.seg_start ≡ length arena
    → s.seg_len ≡ length segs
    → s.ns < length ns
    → (node_at ns s.ns).sym ≡ none
    → Trail ns s.ns segs
    → IsNamed ss arena ns
    → IsNamed (ss ++ s ∷ []) (arena ++ segs) (set ns s.ns (with_sym ns s.ns (some (length ss))))
define-IsNamed ss arena segs ns s starts size inside free way h =
    let k = s.ns in
    let v = with_sym ns k (some (length ss)) in
    let written : node_at (set ns k v) k ≡ v = get_or-set_self ns k v blank_node inside in
    let wider = arena-IsNamed ss arena segs ns h in
    let ext = Extends-set ns k (some (length ss)) in
    let last = get_or-last ss s blank_symbol in
    record {
      named = λ i l. elim (snoc_cases ss s i l) [
        | inl below ↦
            let (fits, old_way, here) = wider.named i below in
            let elsewhere : (at ss i).ns ≢ k = λ same.
              (let clash : none ≡ some i =
                  sym free ∙ subst (λ (m : ℕ). (node_at ns m).sym ≡ some i) same here in
                cc) in
            subst (λ (t : Symbol). IsAt (arena ++ segs) (set ns k v) t i)
              (sym (get_or-before ss (s ∷ []) i blank_symbol below))
              (
                fits,
                Trail-Extends ext old_way,
                ap (λ (y : NsNode). y.sym) (get_or-set_ne ns k (at ss i).ns v blank_node elsewhere)
                    ∙ here,
              )
        | inr new ↦
            let words : words_at (arena ++ segs) s.seg_start s.seg_len ≡ segs =
              (λ j. words_at (arena ++ segs) (starts j) (size j)) ∙ slice_last arena segs in
            let whole : IsAt (arena ++ segs) (set ns k v) s (length ss) = (
              omega (arith, starts, size, length-append arena segs),
              subst (Trail (set ns k v) k) (sym words) (Trail-Extends ext way),
              ap (λ (y : NsNode). y.sym) written,
            ) in
            subst (λ (m : ℕ). IsAt (arena ++ segs) (set ns k v) (at (ss ++ s ∷ []) m) m) (sym new)
              (subst (λ (t : Symbol). IsAt (arena ++ segs) (set ns k v) t (length ss)) (sym last)
                whole)
      ];
      back = λ n i e. elim (get_or-write ns k n v blank_node) [
        | inl old ↦
            let (below, there) = h.back n i (ap (λ (y : NsNode). y.sym) (sym old) ∙ e) in
            (
              rw (length-append ss (s ∷ [])) (omega (arith, below)),
              ap (λ (t : Symbol). t.ns) (get_or-before ss (s ∷ []) i blank_symbol below) ∙ there,
            )
        | inr (here, new) ↦
            let hit : some (length ss) ≡ some i = ap (λ (y : NsNode). y.sym) (sym new) ∙ e in
            let same : length ss ≡ i = cc in
            (
              rw (length-append ss (s ∷ [])) (omega (arith, same)),
              subst (λ (m : ℕ). (at (ss ++ s ∷ []) m).ns ≡ n) same
                  (ap (λ (t : Symbol). t.ns) last ∙ sym here),
            )
      ];
    }

-- A scope: a node, and its way parked in the arena.
abbrev pub InScope : List Text → List NsNode → Scope → Type 0
InScope arena ns scope =
    (scope.seg_start + scope.seg_len ≤ length arena)
    × (scope.ns < length ns)
    × Trail ns scope.ns (words_at arena scope.seg_start scope.seg_len)

pub InScope-Extends :
    (arena arena' : List Text) (ns ns' : List NsNode) (scope : Scope)
    → ((more : List Text) × (arena' ≡ arena ++ more))
    → Extends ns ns'
    → InScope arena ns scope
    → InScope arena' ns' scope
InScope-Extends arena arena' ns ns' scope (more, grown) ext (fits, inside, way) = (
  rw grown (rw (length-append arena more) (omega (arith, fits))),
  omega (arith, inside, ext.more_nodes),
  rw grown (
      subst (Trail ns' scope.ns) (sym (slice_within arena more scope.seg_start scope.seg_len fits))
        (Trail-Extends ext way)),
)

pub length-words_at :
    (arena : List Text) (a n : ℕ) → a + n ≤ length arena → length (words_at arena a n) ≡ n
unfolding slice
length-words_at arena a n fits =
    let size : a + n - a ≡ n = omega arith in rw size (length-take_drop arena a n fits)
  where
    length-take : (xs : List Text) (n : ℕ) → n ≤ length xs → length (take n xs) ≡ n
    length-take xs zero l = refl
    length-take [] (suc n) l = absurd (omega arith)
    length-take (x ∷ xs) (suc n) l = omega (arith, length-take xs n (omega arith))

    length-take_drop :
        (xs : List Text) (a n : ℕ) → a + n ≤ length xs → length (take n (drop a xs)) ≡ n
    length-take_drop xs zero n l = length-take xs n (omega arith)
    length-take_drop [] (suc a) n l = absurd (omega arith)
    length-take_drop (x ∷ xs) (suc a) n l = length-take_drop xs a n (omega arith)

-- The scope in a symbol registered at a node below the scope's.
pub inner-InScope :
    (ss : List Symbol) (arena : List Text) (ns : List NsNode) (s : Symbol)
    → s.ns < length ns
    → IsNamed (ss ++ s ∷ []) arena ns
    → InScope arena ns (record { ns = s.ns; seg_start = s.seg_start; seg_len = s.seg_len })
inner-InScope ss arena ns s inside h =
    let last = get_or-last ss s blank_symbol in
    let (fits, way, here) =
      subst (λ (t : Symbol). IsAt arena ns t (length ss)) last
        (h.named (length ss) (rw (length-append ss (s ∷ [])) (omega arith))) in
    (fits, inside, way)

-- The last word of the arena, taken along.
pub words_at_end :
    (arena : List Text) (start n : ℕ) (t : Text)
    → start + n ≡ length arena
    → words_at (arena ++ t ∷ []) start (n + 1) ≡ words_at arena start n ++ t ∷ []
unfolding slice
words_at_end arena start n t ends =
    let more : start + (n + 1) - start ≡ suc n = omega arith in
    let size : start + n - start ≡ n = omega arith in rw more (rw size (at_end arena start n ends))
  where
    take-all : (xs : List Text) (n : ℕ) → n ≡ length xs → take n xs ≡ xs
    take-all [] zero e = refl
    take-all [] (suc n) e = refl
    take-all (x ∷ xs) zero e = absurd (omega arith)
    take-all (x ∷ xs) (suc n) e = rw (take-all xs n (omega arith))

    take-last :
        (xs : List Text) (n : ℕ) → n ≡ length xs → take (suc n) (xs ++ t ∷ []) ≡ xs ++ t ∷ []
    take-last [] zero e = refl
    take-last [] (suc n) e = absurd (omega arith)
    take-last (x ∷ xs) zero e = absurd (omega arith)
    take-last (x ∷ xs) (suc n) e = rw (take-last xs n (omega arith))

    at_end :
        (arena : List Text) (start n : ℕ)
        → start + n ≡ length arena
        → take (suc n) (drop start (arena ++ t ∷ [])) ≡ take n (drop start arena) ++ t ∷ []
    at_end arena zero n e =
        take-last arena n (omega arith)
        ∙ ap (λ (l : List Text). l ++ t ∷ []) (sym (take-all arena n (omega arith)))
    at_end [] (suc start) n e = absurd (omega arith)
    at_end (x ∷ arena) (suc start) n e = at_end arena start n (omega arith)
