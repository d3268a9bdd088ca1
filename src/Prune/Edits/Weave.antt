-- ===== src/Prune/Edits/Weave.antt =====
-- src/prune.rs: what `apply_edits` means, byte by byte, and the loop over sorted edits.
use mathlib.Core.List.{append_assoc}
use pbpp.Prelude.{
  ℕ, suc, ◌≤◌, ◌<◌, ◌≡◌, refl, sym, inl, inr, Bool, true, false, ◌&&◌, ◌||◌, List, [], ◌∷◌, ◌++◌,
  leb, ltb, ◌==◌, arith, if◌then◌else◌, Bool-cases, All,
}
use pbpp.Prune.Edits.{Bytes, Edit, del, ins, key_start}

-- The byte at `p` lies in a deleted span.
unfoldable pub is_deleted : List Edit → ℕ → Bool
is_deleted [] p = false
is_deleted (del s ∷ es) p = (leb s.start p && ltb p s.end) || is_deleted es p
is_deleted (ins at text ∷ es) p = is_deleted es p

-- What is inserted in front of the byte at `p`, in the order of the edits.
unfoldable pub inserted_at : List Edit → ℕ → Bytes
inserted_at [] p = []
inserted_at (del s ∷ es) p = inserted_at es p
inserted_at (ins at text ∷ es) p = if at == p then text ++ inserted_at es p else inserted_at es p

-- The bytes from `p` on, each behind what is inserted in front of it, but for the first.
unfoldable pub weave_behind : List Edit → ℕ → Bytes → Bytes
weave_behind es p [] = []
weave_behind es p (c ∷ cs) =
    (if is_deleted es p then [] else c ∷ [])
    ++ (inserted_at es (suc p) ++ weave_behind es (suc p) cs)

-- The text with every deleted byte left out and every insertion put in.
unfoldable pub weave : List Edit → Bytes → Bytes
unfolding weave_behind is_deleted inserted_at
weave es src = inserted_at es 0 ++ weave_behind es 0 src

-- What is inserted in front of the byte at `p` or of one before it.
unfoldable pub inserted_upto : List Edit → ℕ → Bytes
inserted_upto [] p = []
inserted_upto (del s ∷ es) p = inserted_upto es p
inserted_upto (ins at text ∷ es) p =
    if leb at p then text ++ inserted_upto es p else inserted_upto es p

-- No edit starts before `p`.
abbrev pub StartFrom : ℕ → List Edit → Type 0
StartFrom p es = All (λ e. p ≤ key_start e) es

-- The edits stand in the order of their starts.
abbrev pub IsSorted : List Edit → Type 0
IsSorted [] = Unit
IsSorted (e ∷ es) = StartFrom (key_start e) es × IsSorted es

-- Spans are not reversed, and no edit reaches behind the end of the text.
abbrev pub InRange : ℕ → Edit → Type 0
InRange n (del s) = (s.start ≤ s.end) × (s.end ≤ n)
InRange n (ins at text) = at ≤ n

pub StartFrom-le : (p q : ℕ) (es : List Edit) → p ≤ q → StartFrom q es → StartFrom p es
StartFrom-le p q [] h s = tt
StartFrom-le p q (e ∷ es) h s = (omega arith, StartFrom-le p q es h s.1)

is_deleted_before : (p : ℕ) (es : List Edit) → StartFrom (suc p) es → is_deleted es p ≡ false
unfolding is_deleted
is_deleted_before p [] s = refl
is_deleted_before p (del x ∷ es) s = ground (arith, is_deleted_before p es)
is_deleted_before p (ins at text ∷ es) s = is_deleted_before p es s.1

inserted_upto_before : (p : ℕ) (es : List Edit) → StartFrom (suc p) es → inserted_upto es p ≡ []
unfolding inserted_upto
inserted_upto_before p [] s = refl
inserted_upto_before p (del x ∷ es) s = inserted_upto_before p es s.1
inserted_upto_before p (ins at text ∷ es) s = ground (arith, inserted_upto_before p es)

inserted_at_before : (p q : ℕ) (es : List Edit) → q < p → StartFrom p es → inserted_at es q ≡ []
unfolding inserted_at
inserted_at_before p q [] h s = refl
inserted_at_before p q (del x ∷ es) h s = inserted_at_before p q es h s.1
inserted_at_before p q (ins at text ∷ es) h s = ground (arith, inserted_at_before p q es)

-- In sorted edits what is due one byte later comes behind what is due now.
inserted_upto-suc :
    (p : ℕ) (es : List Edit)
    → IsSorted es
    → inserted_upto es (suc p) ≡ inserted_upto es p ++ inserted_at es (suc p)
unfolding inserted_upto inserted_at
inserted_upto-suc p [] s = refl
inserted_upto-suc p (del x ∷ es) s = inserted_upto-suc p es s.1
inserted_upto-suc p (ins at text ∷ es) s = elim (Bool-cases (leb at p)) [
  | inl now ↦
      let next : leb at (suc p) ≡ true = ground arith in
      let other : (at == suc p) ≡ false = ground arith in
      rw (now, next, other) (rw (inserted_upto-suc p es s.1) (sym (append_assoc text _ _)))
  | inr later ↦ elim (Bool-cases (at == suc p)) [
    | inl here ↦
        let next : leb at (suc p) ≡ true = ground arith in
        rw (later, here, next)
          (rw (inserted_upto-suc p es s.1)
            (rw (inserted_upto_before p es (StartFrom-le (suc p) at es (ground arith) s.0))))
    | inr beyond ↦
        let next : leb at (suc p) ≡ false = ground arith in
        rw (later, beyond, next) (inserted_upto-suc p es s.1)
  ]
]

-- What comes out from `p` on, with all that is due up to `p`.
unfoldable pub from : List Edit → ℕ → Bytes → Bytes
from es p cs = inserted_upto es p ++ weave_behind es p cs

pub from-deleted :
    (p c : ℕ) (es : List Edit) (cs : Bytes)
    → IsSorted es
    → is_deleted es p ≡ true
    → from es p (c ∷ cs) ≡ from es (suc p) cs
unfolding from weave_behind
from-deleted p c es cs s d =
    rw d (rw (inserted_upto-suc p es s) (sym (append_assoc (inserted_upto es p) _ _)))

pub from-kept :
    (p c : ℕ) (es : List Edit) (cs : Bytes)
    → IsSorted es
    → StartFrom (suc p) es
    → from es p (c ∷ cs) ≡ c ∷ from es (suc p) cs
unfolding from weave_behind
from-kept p c es cs s first =
    rw (is_deleted_before p es first)
      (rw (inserted_upto-suc p es s) (rw (inserted_upto_before p es first)))
