-- ===== src/Sema/Children/Counts.antt =====
-- src/sema.rs: the offsets are the sums of the numbers of children.
use pbpp.Prelude.{
  get_or-set_ne, get_or-set_self, length-set, ℕ, zero, suc, ◌+◌, ◌≤◌, ◌<◌, ◌≡◌, ◌∙◌, refl, inl, inr,
  Bool, true, false, Option, none, some, List, [], ◌∷◌, arith, get_or, set, length, ◌==◌,
  Bool-cases,
}
use pbpp.Sema.Symbols.{Symbol}
use pbpp.Sema.Children.{zeros, count_one, count_all, prefix_sums, offsets}
use pbpp.Sema.Children.Arena.{is_parent, kids}

pub length-zeros : (n : ℕ) → length (zeros n) ≡ n
length-zeros zero = refl
length-zeros (suc n) = omega (arith, length-zeros n)

get_or-zeros : (n i : ℕ) → get_or (zeros n) i 0 ≡ 0
get_or-zeros zero i = refl
get_or-zeros (suc n) zero = refl
get_or-zeros (suc n) (suc i) = get_or-zeros n i

length-count_one : (o : Option ℕ) (off : List ℕ) → length (count_one o off) ≡ length off
length-count_one none off = refl
length-count_one (some p) off = length-set off (suc p) _

length-count_all : (ss : List Symbol) (off : List ℕ) → length (count_all ss off) ≡ length off
unfolding count_all
length-count_all [] off = refl
length-count_all (s ∷ ss) off =
    length-count_all ss (count_one s.parent off) ∙ length-count_one s.parent off

abbrev one_if : Bool → ℕ
one_if true = 1
one_if false = 0

count_one_lem :
    (o : Option ℕ) (off : List ℕ) (p : ℕ)
    → suc p < length off
    → get_or (count_one o off) (suc p) 0 ≡ get_or off (suc p) 0 + one_if (is_parent o p)
count_one_lem none off p h = omega arith
count_one_lem (some q) off p h = elim (Bool-cases (q == p)) [
  | inl same ↦
      let e : q ≡ p = ground arith in
      rw same (rw e (get_or-set_self off (suc p) (get_or off (suc p) 0 + 1) 0 h))
  | inr other ↦
      rw other (
        get_or-set_ne off (suc q) (suc p) (get_or off (suc q) 0 + 1) 0 (ground arith) ∙ omega arith)
]

count_one_first : (o : Option ℕ) (off : List ℕ) → get_or (count_one o off) 0 0 ≡ get_or off 0 0
count_one_first none off = refl
count_one_first (some q) off =
    get_or-set_ne off (suc q) 0 (get_or off (suc q) 0 + 1) 0 (omega arith)

count_all_first : (ss : List Symbol) (off : List ℕ) → get_or (count_all ss off) 0 0 ≡ get_or off 0 0
unfolding count_all
count_all_first [] off = refl
count_all_first (s ∷ ss) off =
    count_all_first ss (count_one s.parent off) ∙ count_one_first s.parent off

kids_count :
    (p : ℕ) (s : Symbol) (ss : List Symbol) (i : ℕ)
    → length (kids p (s ∷ ss) i) ≡ one_if (is_parent s.parent p) + length (kids p ss (suc i))
kids_count p s ss i = elim (Bool-cases (is_parent s.parent p)) [
  | inl child ↦ rw child (omega arith)
  | inr other ↦ rw other (omega arith)
]

-- After the first pass the place behind `p` holds the number of its children.
count_all_lem :
    (ss : List Symbol) (off : List ℕ) (p i : ℕ)
    → suc p < length off
    → get_or (count_all ss off) (suc p) 0 ≡ get_or off (suc p) 0 + length (kids p ss i)
unfolding count_all
count_all_lem [] off p i h = omega arith
count_all_lem (s ∷ ss) off p i h = omega (
  arith,
  count_all_lem ss (count_one s.parent off) p (suc i) (rw (length-count_one s.parent off) h),
  count_one_lem s.parent off p h,
  kids_count p s ss i,
)

length-prefix_sums : (n j : ℕ) (off : List ℕ) → length (prefix_sums n j off) ≡ length off
unfolding prefix_sums
length-prefix_sums zero j off = refl
length-prefix_sums (suc n) j off = length-prefix_sums n (suc j) _ ∙ length-set off (suc j) _

-- Where the list starts as prefix sums `sum` up to `j`, it is prefix sums up to `j + n`.
prefix_sums_lem :
    (n j : ℕ) (off : List ℕ) (sum : ℕ → ℕ)
    → j + n < length off
    → ((t : ℕ) → t ≤ j → get_or off t 0 ≡ sum t)
    → ((t : ℕ) → j ≤ t → suc t < length off → sum (suc t) ≡ sum t + get_or off (suc t) 0)
    → (t : ℕ) → t ≤ j + n
    → get_or (prefix_sums n j off) t 0 ≡ sum t
unfolding prefix_sums
prefix_sums_lem zero j off sum h done next t k = done t (omega arith)
prefix_sums_lem (suc n) j off sum h done next t k =
    prefix_sums_lem n (suc j) off' sum (rw (length-set off (suc j) v) (omega arith))
      (λ x l. elim (Bool-cases (x == suc j)) [
        | inl here ↦
            let e : x ≡ suc j = ground arith in
            rw e (
              get_or-set_self off (suc j) v 0 (omega arith)
              ∙ omega (arith, done j (omega arith), next j (omega arith) (omega arith)))
        | inr before ↦ get_or-set_ne off (suc j) x v 0 (ground arith) ∙ done x (ground arith)
      ])
      (λ x l b.
        rw (get_or-set_ne off (suc j) (suc x) v 0 (omega arith))
          (next x (omega arith) (rw (length-set off (suc j) v) at b)))
      t (omega arith)
  where
    v : ℕ
    v = get_or off (suc j) 0 + get_or off j 0

    off' : List ℕ
    off' = set off (suc j) v

-- How many children the symbols before `t` have.
abbrev pub start : List Symbol → ℕ → ℕ
start ss zero = 0
start ss (suc t) = start ss t + length (kids t ss 0)

pub length-offsets : (ss : List Symbol) → length (offsets ss) ≡ suc (length ss)
unfolding offsets
length-offsets ss =
    length-prefix_sums (length ss) 0 _ ∙ (length-count_all ss _ ∙ length-zeros (suc (length ss)))

pub offsets-start :
    (ss : List Symbol) (t : ℕ) → t ≤ length ss → get_or (offsets ss) t 0 ≡ start ss t
unfolding offsets
offsets-start ss t h =
    prefix_sums_lem (length ss) 0 counted (start ss) (omega (arith, size))
      (λ x l.
        let e : x ≡ 0 = omega arith in
        rw e (count_all_first ss _ ∙ get_or-zeros (suc (length ss)) 0))
      (λ x l b. omega (
        arith,
        count_all_lem ss (zeros (suc (length ss))) x 0
            (rw (length-zeros (suc (length ss))) (omega (arith, size))),
        get_or-zeros (suc (length ss)) (suc x),
      ))
      t (omega arith)
  where
    counted : List ℕ
    counted = count_all ss (zeros (suc (length ss)))

    size : length counted ≡ suc (length ss)
    size = length-count_all ss _ ∙ length-zeros (suc (length ss))
