-- ===== src/Prune/Visit/Numbers.antt =====
-- src/prune.rs: sorted lists of numbers, and the compaction of those that an enum reserves.
use pbpp.Prelude.{
  ◌≡◌, refl, sym, inl, inr, ◌⊎◌, ◌↔◌, true, false, ◌||◌, Option, none, some, List, [], ◌∷◌, arith,
  Bool-cases, In, All,
}
use pbpp.Prelude.Int.{ℤ, pos, negsuc, ℤ_eq, ℤ_leb, ℤ_eq_iff}
use pbpp.Cst.Decls.{EnumItem}
use pbpp.Prune.Visit.{Scope, insert_number, sort_numbers}
use pbpp.Prune.Visit.Items.{is_alive, compact, is_last}

ℤ_leb_trans : (a b c : ℤ) → ℤ_leb a b ≡ true → ℤ_leb b c ≡ true → ℤ_leb a c ≡ true
ℤ_leb_trans (pos a) (pos b) (pos c) h k = ground arith
ℤ_leb_trans (pos a) (pos b) (negsuc c) h k = ground arith
ℤ_leb_trans (pos a) (negsuc b) c h k = ground arith
ℤ_leb_trans (negsuc a) (pos b) (pos c) h k = refl
ℤ_leb_trans (negsuc a) (pos b) (negsuc c) h k = ground arith
ℤ_leb_trans (negsuc a) (negsuc b) (pos c) h k = refl
ℤ_leb_trans (negsuc a) (negsuc b) (negsuc c) h k = ground arith

ℤ_leb_total : (a b : ℤ) → ℤ_leb a b ≡ false → ℤ_leb b a ≡ true
ℤ_leb_total (pos a) (pos b) h = ground arith
ℤ_leb_total (pos a) (negsuc b) h = refl
ℤ_leb_total (negsuc a) (pos b) h = ground arith
ℤ_leb_total (negsuc a) (negsuc b) h = ground arith

ℤ_leb_antisym : (a b : ℤ) → ℤ_leb a b ≡ true → ℤ_leb b a ≡ true → ℤ_eq a b ≡ true
ℤ_leb_antisym (pos a) (pos b) h k = ground arith
ℤ_leb_antisym (pos a) (negsuc b) h k = ground arith
ℤ_leb_antisym (negsuc a) (pos b) h k = ground arith
ℤ_leb_antisym (negsuc a) (negsuc b) h k = ground arith

-- Smaller: below and not equal.
abbrev pub Below : ℤ → ℤ → Type 0
Below a b = (ℤ_leb a b ≡ true) × (ℤ_eq a b ≡ false)

abbrev pub AtMost : ℤ → List ℤ → Type 0
AtMost n ns = All (λ m. ℤ_leb n m ≡ true) ns

abbrev pub IsOrdered : List ℤ → Type 0
IsOrdered [] = Unit
IsOrdered (n ∷ ns) = AtMost n ns × IsOrdered ns

abbrev pub IsAscending : List ℤ → Type 0
IsAscending [] = Unit
IsAscending (n ∷ ns) = All (Below n) ns × IsAscending ns

AtMost-trans : (a n : ℤ) (ns : List ℤ) → ℤ_leb a n ≡ true → AtMost n ns → AtMost a ns
AtMost-trans a n [] h s = tt
AtMost-trans a n (m ∷ ns) h s = (ℤ_leb_trans a n m h s.0, AtMost-trans a n ns h s.1)

Below-trans : (a n : ℤ) (ns : List ℤ) → Below a n → All (Below n) ns → All (Below a) ns
Below-trans a n [] h s = tt
Below-trans a n (m ∷ ns) h s = (
  (
    ℤ_leb_trans a n m h.0 s.0.0,
    elim (Bool-cases (ℤ_eq a m)) [
      | inr other ↦ other
      | inl same ↦
          let e : a ≡ m = (ℤ_eq_iff a m).0 same in
          let back : ℤ_leb n a ≡ true = rw e s.0.0 in let clash = ℤ_leb_antisym a n h.0 back in cc
    ],
  ),
  Below-trans a n ns h s.1,
)

In-insert_number : (x n : ℤ) (ns : List ℤ) → In x (insert_number n ns) ↔ ((x ≡ n) ⊎ In x ns)
unfolding insert_number
In-insert_number x n [] = ground arith
In-insert_number x n (m ∷ ns) = ground (arith, In-insert_number x n ns)

pub In-sort_numbers : (x : ℤ) (ns : List ℤ) → In x (sort_numbers ns) ↔ In x ns
unfolding sort_numbers
In-sort_numbers x [] = ground arith
In-sort_numbers x (n ∷ ns) =
    ground (arith, In-insert_number x n (sort_numbers ns), In-sort_numbers x ns)

AtMost-insert_number :
    (a n : ℤ) (ns : List ℤ) → ℤ_leb a n ≡ true → AtMost a ns → AtMost a (insert_number n ns)
unfolding insert_number
AtMost-insert_number a n [] h s = (h, tt)
AtMost-insert_number a n (m ∷ ns) h s = elim (Bool-cases (ℤ_leb n m)) [
  | inl le ↦ rw le (h, s)
  | inr gt ↦ rw gt (s.0, AtMost-insert_number a n ns h s.1)
]

insert_number-IsOrdered : (n : ℤ) (ns : List ℤ) → IsOrdered ns → IsOrdered (insert_number n ns)
unfolding insert_number
insert_number-IsOrdered n [] s = (tt, tt)
insert_number-IsOrdered n (m ∷ ns) s = elim (Bool-cases (ℤ_leb n m)) [
  | inl le ↦ rw le ((le, AtMost-trans n m ns le s.0), s)
  | inr gt ↦
      rw gt (AtMost-insert_number m n ns (ℤ_leb_total n m gt) s.0, insert_number-IsOrdered n ns s.1)
]

pub sort_numbers-IsOrdered : (ns : List ℤ) → IsOrdered (sort_numbers ns)
unfolding sort_numbers
sort_numbers-IsOrdered [] = tt
sort_numbers-IsOrdered (n ∷ ns) =
    insert_number-IsOrdered n (sort_numbers ns) (sort_numbers-IsOrdered ns)

insert_number-first : (n : ℤ) (ns : List ℤ) → All (Below n) ns → insert_number n ns ≡ n ∷ ns
unfolding insert_number
insert_number-first n [] s = refl
insert_number-first n (m ∷ ns) s = rw s.0.0

pub sort_numbers-IsAscending : (ns : List ℤ) → IsAscending ns → sort_numbers ns ≡ ns
unfolding sort_numbers
sort_numbers-IsAscending [] s = refl
sort_numbers-IsAscending (n ∷ ns) s =
    rw (sort_numbers-IsAscending ns s.1) (insert_number-first n ns s.0)

-- The number written last is at most every number to come.
abbrev LastAtMost : Option ℤ → List ℤ → Type 0
LastAtMost none ns = Unit
LastAtMost (some m) ns = AtMost m ns

abbrev LastBelow : Option ℤ → List ℤ → Type 0
LastBelow none ns = Unit
LastBelow (some m) ns = All (Below m) ns

LastAtMost-tail :
    (last : Option ℤ) (n : ℤ) (ns : List ℤ) → LastAtMost last (n ∷ ns) → LastAtMost last ns
LastAtMost-tail none n ns h = tt
LastAtMost-tail (some m) n ns h = h.1

LastAtMost-head :
    (last : Option ℤ) (n : ℤ) (ns : List ℤ) → LastAtMost last (n ∷ ns) → LastAtMost last (n ∷ [])
LastAtMost-head none n ns h = tt
LastAtMost-head (some m) n ns h = (h.0, tt)

module _ (scope : Scope) (items : List EnumItem) where
  LastBelow-cons :
      (last : Option ℤ) (n : ℤ) (ns : List ℤ)
      → LastAtMost last (n ∷ [])
      → is_last last n ≡ false
      → All (Below n) ns
      → LastBelow last (n ∷ ns)
  LastBelow-cons none n ns h e s = tt
  LastBelow-cons (some m) n ns h e s = ((h.0, e), Below-trans m n ns (h.0, e) s)

  compact_lem :
      (last : Option ℤ) (ns : List ℤ)
      → IsOrdered ns
      → LastAtMost last ns
      → LastBelow last (compact scope items last ns) × IsAscending (compact scope items last ns)
  unfolding compact
  compact_lem none [] s h = (tt, tt)
  compact_lem (some m) [] s h = (tt, tt)
  compact_lem last (n ∷ ns) s h = elim (Bool-cases (is_last last n || is_alive scope items n)) [
    | inl skip ↦ rw skip (
        let rest : LastBelow last (compact scope items last ns)
            × IsAscending (compact scope items last ns) =
          compact_lem last ns s.1 (LastAtMost-tail last n ns h) in
        rest)
    | inr write ↦
        let rest : All (Below n) (compact scope items (some n) ns)
            × IsAscending (compact scope items (some n) ns) =
          compact_lem (some n) ns s.1 s.0 in
        rw write (
          LastBelow-cons last n (compact scope items (some n) ns) (LastAtMost-head last n ns h)
              (ground arith) rest.0,
          rest,
        )
  ]

  pub compact-IsAscending : (ns : List ℤ) → IsOrdered ns → IsAscending (compact scope items none ns)
  compact-IsAscending ns s = (compact_lem none ns s tt).1

  compact_sound :
      (last : Option ℤ) (x : ℤ) (ns : List ℤ)
      → In x (compact scope items last ns)
      → In x ns × (is_alive scope items x ≡ false)
  unfolding compact
  compact_sound last x [] m = absurd m
  compact_sound last x (n ∷ ns) m = elim (Bool-cases (is_last last n || is_alive scope items n)) [
    | inl skip ↦ let (a, b) = compact_sound last x ns (rw skip at m) in (inr a, b)
    | inr write ↦
        elim (let w : (x ≡ n) ⊎ In x (compact scope items (some n) ns) = rw write at m in w) [
          | inl e ↦ (inl e, rw e (ground arith))
          | inr later ↦ let (a, b) = compact_sound (some n) x ns later in (inr a, b)
        ]
  ]

  compact_complete :
      (last : Option ℤ) (x : ℤ) (ns : List ℤ)
      → In x ns
      → is_alive scope items x ≡ false
      → is_last last x ≡ false
      → In x (compact scope items last ns)
  unfolding compact
  compact_complete last x [] m a l = absurd m
  compact_complete last x (n ∷ ns) m a l =
      elim (Bool-cases (is_last last n || is_alive scope items n)) [
        | inl skip ↦ elim m [
          | inl e ↦
              let here : (is_last last n || is_alive scope items n) ≡ false =
                rw (← e) (rw (l, a) refl) in
              cc
          | inr later ↦ rw skip (compact_complete last x ns later a l)
        ]
        | inr write ↦ elim (Bool-cases (is_last (some n) x)) [
          | inl same ↦ rw write (inl (sym ((ℤ_eq_iff n x).0 same)))
          | inr other ↦ elim m [
            | inl e ↦ rw write (inl e)
            | inr later ↦ rw write (inr (compact_complete (some n) x ns later a other))
          ]
        ]
      ]

  pub In-compact :
      (x : ℤ) (ns : List ℤ)
      → In x (compact scope items none ns) ↔ (In x ns × (is_alive scope items x ≡ false))
  In-compact x ns = (compact_sound none x ns, λ (m, a). compact_complete none x ns m a refl)
