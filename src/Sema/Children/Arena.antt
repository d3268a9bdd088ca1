-- ===== src/Sema/Children/Arena.antt =====
-- src/sema.rs: the children of a symbol, and reads of arrays that are written to.
use pbpp.Prelude.{
  ℕ, zero, suc, ◌+◌, ◌≤◌, ◌<◌, ◌≡◌, refl, inl, inr, ◌⊎◌, Bool, true, false, Option, none, some,
  List, [], ◌∷◌, arith, get_or, length, take, drop, ◌==◌, if◌then◌else◌, Bool-cases, In,
}
use pbpp.Sema.Symbols.{Symbol}
use pbpp.Sema.Build.Invariant.{at}

module _ {A : Type 0} where
  drop-get_or :
      (xs : List A) (a : ℕ) (d : A) → a < length xs → drop a xs ≡ get_or xs a d ∷ drop (suc a) xs
  drop-get_or [] a d h = absurd (omega arith)
  drop-get_or (x ∷ xs) zero d h = refl
  drop-get_or (x ∷ xs) (suc a) d h = drop-get_or xs a d (omega arith)

  -- A piece of an array that reads like the list `l` is that list.
  pub take-drop_eq :
      (xs l : List A) (a : ℕ) (d : A)
      → a + length l ≤ length xs
      → ((t : ℕ) → t < length l → get_or xs (a + t) d ≡ get_or l t d)
      → take (length l) (drop a xs) ≡ l
  take-drop_eq xs [] a d h same = refl
  take-drop_eq xs (y ∷ l) a d h same =
      let first : get_or xs a d ≡ y =
        (let here : a ≡ a + 0 = omega arith in rw here (same 0 (omega arith))) in
      rw (drop-get_or xs a d (omega arith)) (
        rw first (
          rw (
            take-drop_eq xs l (suc a) d (omega arith) (λ t k.
              let shift : suc a + t ≡ a + suc t = omega arith in
              rw shift (same (suc t) (omega arith))))))

abbrev pub is_parent : Option ℕ → ℕ → Bool
is_parent none p = false
is_parent (some q) p = q == p

-- The symbols from number `i` on whose parent is `p`, in their order.
abbrev pub kids : ℕ → List Symbol → ℕ → List ℕ
kids p [] i = []
kids p (s ∷ ss) i = if is_parent s.parent p then i ∷ kids p ss (suc i) else kids p ss (suc i)

-- Every parent is the number of a symbol.
abbrev pub InTable : ℕ → List Symbol → Type 0
InTable n [] = Unit
InTable n (s ∷ ss) = ((p : ℕ) → s.parent ≡ some p → p < n) × InTable n ss

pub InTable-of_at :
    (n : ℕ) (ss : List Symbol) → ((i p : ℕ) → (at ss i).parent ≡ some p → p < n) → InTable n ss
InTable-of_at n [] h = tt
InTable-of_at n (s ∷ ss) h = (λ p e. h 0 p e, InTable-of_at n ss (λ i p e. h (suc i) p e))

is_parent_lem : (o : Option ℕ) (p : ℕ) → is_parent o p ≡ true → o ≡ some p
is_parent_lem none p h = cc
is_parent_lem (some q) p h = ground arith

-- A child is the number of a symbol that names its parent.
pub In-kids :
    (p : ℕ) (ss : List Symbol) (i c : ℕ)
    → In c (kids p ss i)
    → (t : ℕ) × (c ≡ i + t) × (t < length ss) × ((at ss t).parent ≡ some p)
In-kids p [] i c m = absurd m
In-kids p (s ∷ ss) i c m = elim (Bool-cases (is_parent s.parent p)) [
  | inl child ↦ elim (let x : (c ≡ i) ⊎ In c (kids p ss (suc i)) = rw child at m in x) [
    | inl e ↦ (0, omega (arith, e), omega arith, is_parent_lem s.parent p child)
    | inr later ↦
        let (t, e, l, q) = In-kids p ss (suc i) c later in
        (suc t, omega (arith, e), omega (arith, l), q)
  ]
  | inr other ↦
      let (t, e, l, q) = In-kids p ss (suc i) c (rw other at m) in
      (suc t, omega (arith, e), omega (arith, l), q)
]
