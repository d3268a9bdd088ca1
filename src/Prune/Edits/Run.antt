-- ===== src/Prune/Edits/Run.antt =====
-- src/prune.rs: the loop of `apply_edits` over sorted edits.
use mathlib.Core.List.{append_assoc}
use pbpp.Prelude.{
  ℕ, zero, suc, ◌+◌, ◌-◌, ◌≤◌, ◌<◌, ◌≡◌, ◌∙◌, refl, sym, ap, inl, inr, true, false, List, [], ◌∷◌,
  ◌++◌, max, leb, ltb, ◌==◌, arith, Bool-cases, take, drop, length, All,
}
use pbpp.Span.{Span}
use pbpp.Prune.Edits.{Bytes, Edit, del, ins, piece, apply_from}
use pbpp.Prune.Edits.Weave.{
  is_deleted, inserted_at, weave_behind, inserted_upto, StartFrom, IsSorted, InRange, StartFrom-le,
  from, from-deleted, from-kept,
}

drop-nil : (k : ℕ) → drop {A = ℕ} k [] ≡ []
drop-nil zero = refl
drop-nil (suc k) = refl

drop-add : (n m : ℕ) (xs : Bytes) → drop n (drop m xs) ≡ drop (m + n) xs
drop-add n zero xs = ground arith
drop-add n (suc m) [] = drop-nil n ∙ sym (drop-nil (suc m + n))
drop-add n (suc m) (x ∷ xs) =
    let e : suc m + n ≡ suc (m + n) = omega arith in rw e (drop-add n m xs)

length-drop : (m : ℕ) (xs : Bytes) → length (drop m xs) ≡ length xs - m
length-drop zero xs = omega arith
length-drop (suc m) [] = omega arith
length-drop (suc m) (x ∷ xs) = omega (arith, length-drop m xs)

from-kept_many :
    (n p a : ℕ) (es : List Edit) (cs : Bytes)
    → p + n ≡ a
    → n ≤ length cs
    → IsSorted es
    → StartFrom a es
    → from es p cs ≡ take n cs ++ from es a (drop n cs)
from-kept_many zero p a es cs at fits s first = let e : p ≡ a = omega arith in rw e
from-kept_many (suc n) p a es [] at fits s first = absurd (omega arith)
from-kept_many (suc n) p a es (c ∷ cs) at fits s first =
    from-kept p c es cs s (StartFrom-le (suc p) a es (omega arith) first)
    ∙ ap (λ (t : Bytes). c ∷ t)
        (from-kept_many n (suc p) a es cs (omega arith) (omega arith) s first)

from-deleted_many :
    (n p a : ℕ) (es : List Edit) (cs : Bytes)
    → p + n ≡ a
    → n ≤ length cs
    → IsSorted es
    → ((q : ℕ) → p ≤ q → q < a → is_deleted es q ≡ true)
    → from es p cs ≡ from es a (drop n cs)
from-deleted_many zero p a es cs at fits s gone = let e : p ≡ a = omega arith in rw e
from-deleted_many (suc n) p a es [] at fits s gone = absurd (omega arith)
from-deleted_many (suc n) p a es (c ∷ cs) at fits s gone =
    from-deleted p c es cs s (gone p (omega arith) (omega arith))
    ∙ from-deleted_many n (suc p) a es cs (omega arith) (omega arith) s
        (λ q h k. gone q (omega arith) k)

weave_behind-past_del :
    (x : Span) (es : List Edit) (p : ℕ) (cs : Bytes)
    → x.end ≤ p
    → weave_behind (del x ∷ es) p cs ≡ weave_behind es p cs
unfolding weave_behind is_deleted inserted_at
weave_behind-past_del x es p [] h = refl
weave_behind-past_del x es p (c ∷ cs) h =
    let past : ltb p x.end ≡ false = ground arith in
    let same : is_deleted (del x ∷ es) p ≡ is_deleted es p = ground arith in
    rw same (rw (weave_behind-past_del x es (suc p) cs (omega arith)))

weave_behind-past_ins :
    (at : ℕ) (text : Bytes) (es : List Edit) (p : ℕ) (cs : Bytes)
    → at ≤ p
    → weave_behind (ins at text ∷ es) p cs ≡ weave_behind es p cs
unfolding weave_behind is_deleted inserted_at
weave_behind-past_ins at text es p [] h = refl
weave_behind-past_ins at text es p (c ∷ cs) h =
    let past : (at == suc p) ≡ false = ground arith in
    rw past (rw (weave_behind-past_ins at text es (suc p) cs (omega arith)))

from-past_del :
    (x : Span) (es : List Edit) (p : ℕ) (cs : Bytes)
    → x.end ≤ p
    → from (del x ∷ es) p cs ≡ from es p cs
unfolding from inserted_upto
from-past_del x es p cs h = rw (weave_behind-past_del x es p cs h)

from-past_ins :
    (at : ℕ) (text : Bytes) (es : List Edit) (p : ℕ) (cs : Bytes)
    → at ≤ p
    → from (ins at text ∷ es) p cs ≡ text ++ from es p cs
unfolding from inserted_upto
from-past_ins at text es p cs h =
    let due : leb at p ≡ true = ground arith in
    rw due (rw (weave_behind-past_ins at text es p cs h) (append_assoc text _ _))

in_head :
    (x : Span) (es : List Edit) (q : ℕ) → x.start ≤ q → q < x.end → is_deleted (del x ∷ es) q ≡ true
unfolding is_deleted
in_head x es q h k = ground arith

module _ (src : Bytes) where
  -- A deletion from `p` on that the position has reached: go to its end.
  from-del :
      (x : Span) (es : List Edit) (p : ℕ)
      → IsSorted (del x ∷ es)
      → x.start ≤ p
      → p ≤ x.end
      → x.end ≤ length src
      → from (del x ∷ es) p (drop p src) ≡ from es x.end (drop x.end src)
  from-del x es p s h k fits =
      let e : p + (x.end - p) ≡ x.end = omega arith in
      from-deleted_many (x.end - p) p x.end (del x ∷ es) (drop p src) e
        (omega (arith, length-drop p src)) s (λ q a b. in_head x es q (omega arith) b)
      ∙ from-past_del x es x.end (drop (x.end - p) (drop p src)) (omega arith)
      ∙ rw (drop-add (x.end - p) p src) (rw e)

  -- Copying up to `a`.
  from-copy :
      (a p : ℕ) (es : List Edit)
      → IsSorted es
      → StartFrom a es
      → p ≤ a
      → a ≤ length src
      → from es p (drop p src) ≡ piece src p a ++ from es a (drop a src)
  from-copy a p es s first h fits =
      let e : p + (a - p) ≡ a = omega arith in
      from-kept_many (a - p) p a es (drop p src) e (omega (arith, length-drop p src)) s first
      ∙ rw (drop-add (a - p) p src) (rw e)

  from-nil : (p : ℕ) (cs : Bytes) → from [] p cs ≡ cs
  unfolding from inserted_upto weave_behind is_deleted inserted_at
  from-nil p [] = refl
  from-nil p (c ∷ cs) = ap (λ (t : Bytes). c ∷ t) (from-nil (suc p) cs)

  -- The loop appends exactly what `from` says of the edits and the text that are left.
  pub apply_from-from :
      (es : List Edit) (out : Bytes) (pos : ℕ)
      → IsSorted es
      → All (InRange (length src)) es
      → pos ≤ length src
      → apply_from src es out pos ≡ out ++ from es pos (drop pos src)
  unfolding apply_from
  apply_from-from [] out pos s r h = rw (from-nil pos (drop pos src))
  apply_from-from (del x ∷ es) out pos s r h = elim (Bool-cases (leb pos x.start)) [
    | inl ahead ↦ rw ahead (
        apply_from-from es (out ++ piece src pos x.start) x.end s.1 r.1 r.0.1
        ∙ append_assoc out _ _
        ∙ ap (λ (t : Bytes). out ++ t)
            (sym (
              from-copy x.start pos (del x ∷ es) s (omega arith, s.0) (ground arith) (omega arith)
              ∙ ap (λ (t : Bytes). piece src pos x.start ++ t)
                  (from-del x es x.start s (omega arith) r.0.0 r.0.1))))
    | inr behind ↦ rw behind (
        apply_from-from es out (max pos x.end) s.1 r.1 (omega arith)
        ∙ ap (λ (t : Bytes). out ++ t) (sym (inside (ground arith))))
  ]
    where
      inside :
          x.start ≤ pos
          → from (del x ∷ es) pos (drop pos src)
            ≡ from es (max pos x.end) (drop (max pos x.end) src)
      inside le = elim (Bool-cases (leb pos x.end)) [
        | inl reaches ↦
            let e : max pos x.end ≡ x.end = ground arith in
            rw e (from-del x es pos s le (ground arith) r.0.1)
        | inr past ↦
            let e : max pos x.end ≡ pos = ground arith in
            rw e (from-past_del x es pos (drop pos src) (ground arith))
      ]
  apply_from-from (ins at text ∷ es) out pos s r h = elim (Bool-cases (leb pos at)) [
    | inl ahead ↦ rw ahead (
        apply_from-from es ((out ++ piece src pos at) ++ text) at s.1 r.1 r.0
        ∙ append_assoc (out ++ piece src pos at) text _
        ∙ append_assoc out (piece src pos at) _
        ∙ ap (λ (t : Bytes). out ++ t)
            (sym (
              from-copy at pos (ins at text ∷ es) s (omega arith, s.0) (ground arith) r.0
              ∙ ap (λ (t : Bytes). piece src pos at ++ t)
                  (from-past_ins at text es at (drop at src) (omega arith)))))
    | inr behind ↦ rw behind (
        apply_from-from es (out ++ text) pos s.1 r.1 h
        ∙ append_assoc out text _
        ∙ ap (λ (t : Bytes). out ++ t)
            (sym (from-past_ins at text es pos (drop pos src) (ground arith))))
  ]
