-- ===== src/Prune/Edits/Order.antt =====
-- src/prune.rs: sorting the edits changes neither what they delete nor what they insert where.
use pbpp.Prelude.{
  ℕ, ◌≤◌, ◌≡◌, ◌∙◌, refl, inl, inr, true, false, List, [], ◌∷◌, arith, Bool-cases, All,
}
use pbpp.Prune.Edits.{Edit, del, ins, key_start, key_le, insert_edit, sort_edits}
use pbpp.Prune.Edits.Weave.{is_deleted, inserted_at, StartFrom, IsSorted, StartFrom-le}

-- An edit that goes behind another in the sort.
swap-inserted :
    (e f : Edit) (es : List Edit) (p : ℕ)
    → key_le e f ≡ false
    → inserted_at (f ∷ e ∷ es) p ≡ inserted_at (e ∷ f ∷ es) p
unfolding inserted_at key_le
swap-inserted (del x) f es p h = ground arith
swap-inserted (ins at text) (del x) es p h = ground arith
swap-inserted (ins at text) (ins at' text') es p h = ground arith

swap-deleted :
    (e f : Edit) (es : List Edit) (p : ℕ) → is_deleted (f ∷ e ∷ es) p ≡ is_deleted (e ∷ f ∷ es) p
unfolding is_deleted
swap-deleted (del x) (del y) es p = ground arith
swap-deleted (del x) (ins at text) es p = refl
swap-deleted (ins at text) f es p = ground arith

cons-inserted :
    (f : Edit) (es fs : List Edit) (p : ℕ)
    → inserted_at es p ≡ inserted_at fs p
    → inserted_at (f ∷ es) p ≡ inserted_at (f ∷ fs) p
unfolding inserted_at
cons-inserted (del x) es fs p h = h
cons-inserted (ins at text) es fs p h = rw h

cons-deleted :
    (f : Edit) (es fs : List Edit) (p : ℕ)
    → is_deleted es p ≡ is_deleted fs p
    → is_deleted (f ∷ es) p ≡ is_deleted (f ∷ fs) p
unfolding is_deleted
cons-deleted (del x) es fs p h = rw h
cons-deleted (ins at text) es fs p h = h

insert-inserted :
    (e : Edit) (es : List Edit) (p : ℕ) → inserted_at (insert_edit e es) p ≡ inserted_at (e ∷ es) p
unfolding insert_edit
insert-inserted e [] p = refl
insert-inserted e (f ∷ fs) p = elim (Bool-cases (key_le e f)) [
  | inl stays ↦ rw stays
  | inr passes ↦ rw passes (
      cons-inserted f (insert_edit e fs) (e ∷ fs) p (insert-inserted e fs p)
      ∙ swap-inserted e f fs p passes)
]

insert-deleted :
    (e : Edit) (es : List Edit) (p : ℕ) → is_deleted (insert_edit e es) p ≡ is_deleted (e ∷ es) p
unfolding insert_edit
insert-deleted e [] p = refl
insert-deleted e (f ∷ fs) p = elim (Bool-cases (key_le e f)) [
  | inl stays ↦ rw stays
  | inr passes ↦
      rw passes (
        cons-deleted f (insert_edit e fs) (e ∷ fs) p (insert-deleted e fs p)
        ∙ swap-deleted e f fs p)
]

pub sort-inserted : (es : List Edit) (p : ℕ) → inserted_at (sort_edits es) p ≡ inserted_at es p
unfolding sort_edits
sort-inserted [] p = refl
sort-inserted (e ∷ es) p =
    insert-inserted e (sort_edits es) p ∙ cons-inserted e (sort_edits es) es p (sort-inserted es p)

pub sort-deleted : (es : List Edit) (p : ℕ) → is_deleted (sort_edits es) p ≡ is_deleted es p
unfolding sort_edits
sort-deleted [] p = refl
sort-deleted (e ∷ es) p =
    insert-deleted e (sort_edits es) p ∙ cons-deleted e (sort_edits es) es p (sort-deleted es p)

insert-StartFrom :
    (p : ℕ) (e : Edit) (es : List Edit)
    → p ≤ key_start e
    → StartFrom p es
    → StartFrom p (insert_edit e es)
unfolding insert_edit
insert-StartFrom p e [] h s = (h, tt)
insert-StartFrom p e (f ∷ fs) h s = elim (Bool-cases (key_le e f)) [
  | inl stays ↦ rw stays (h, s)
  | inr passes ↦ rw passes (s.0, insert-StartFrom p e fs h s.1)
]

key_le→le : (e f : Edit) → key_le e f ≡ true → key_start e ≤ key_start f
unfolding key_le
key_le→le e f h = ground arith

key_gt→le : (e f : Edit) → key_le e f ≡ false → key_start f ≤ key_start e
unfolding key_le
key_gt→le e f h = ground arith

insert-IsSorted : (e : Edit) (es : List Edit) → IsSorted es → IsSorted (insert_edit e es)
unfolding insert_edit
insert-IsSorted e [] s = (tt, tt)
insert-IsSorted e (f ∷ fs) s = elim (Bool-cases (key_le e f)) [
  | inl stays ↦
      let le = key_le→le e f stays in
      rw stays ((le, StartFrom-le (key_start e) (key_start f) fs le s.0), s)
  | inr passes ↦
      rw passes
        (insert-StartFrom (key_start f) e fs (key_gt→le e f passes) s.0, insert-IsSorted e fs s.1)
]

pub sort-IsSorted : (es : List Edit) → IsSorted (sort_edits es)
unfolding sort_edits
sort-IsSorted [] = tt
sort-IsSorted (e ∷ es) = insert-IsSorted e (sort_edits es) (sort-IsSorted es)

insert-All :
    (P : Edit → Type 0) (e : Edit) (es : List Edit) → P e → All P es → All P (insert_edit e es)
unfolding insert_edit
insert-All P e [] h s = (h, tt)
insert-All P e (f ∷ fs) h s = elim (Bool-cases (key_le e f)) [
  | inl stays ↦ rw stays (h, s)
  | inr passes ↦ rw passes (s.0, insert-All P e fs h s.1)
]

pub sort-All : (P : Edit → Type 0) (es : List Edit) → All P es → All P (sort_edits es)
unfolding sort_edits
sort-All P [] h = tt
sort-All P (e ∷ es) h = insert-All P e (sort_edits es) h.0 (sort-All P es h.1)
