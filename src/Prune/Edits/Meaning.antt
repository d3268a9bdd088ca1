-- ===== src/Prune/Edits/Meaning.antt =====
-- src/prune.rs: the text that `apply_edits` returns.
use pbpp.Prelude.{ℕ, suc, ◌≡◌, ◌∙◌, refl, List, [], ◌∷◌, arith, length, All}
use pbpp.Prune.Edits.{Bytes, Edit, del, ins, apply_edits, sort_edits}
use pbpp.Prune.Edits.Weave.{inserted_at, inserted_upto, weave, weave_behind, from, InRange}
use pbpp.Prune.Edits.Run.{apply_from-from}
use pbpp.Prune.Edits.Order.{sort-inserted, sort-deleted, sort-IsSorted, sort-All}

weave_behind-sort :
    (es : List Edit) (p : ℕ) (cs : Bytes) → weave_behind (sort_edits es) p cs ≡ weave_behind es p cs
unfolding weave_behind
weave_behind-sort es p [] = refl
weave_behind-sort es p (c ∷ cs) =
    rw (sort-deleted es p) (rw (sort-inserted es (suc p)) (rw (weave_behind-sort es (suc p) cs)))

upto_zero : (es : List Edit) → inserted_upto es 0 ≡ inserted_at es 0
unfolding inserted_upto inserted_at
upto_zero [] = refl
upto_zero (del x ∷ es) = upto_zero es
upto_zero (ins at text ∷ es) = ground (arith, upto_zero es)

-- For edits within the text, in any order and overlapping in any way, the result is the text with
-- every deleted byte left out, and in front of each position, deleted or not, and at the end, the
-- insertions there in their order.
pub apply_edits-weave :
    (src : Bytes) (edits : List Edit)
    → All (InRange (length src)) edits
    → apply_edits src edits ≡ weave edits src
unfolding apply_edits weave from
apply_edits-weave src edits r =
    apply_from-from src (sort_edits edits) [] 0 (sort-IsSorted edits)
      (sort-All (InRange (length src)) edits r) (omega arith)
    ∙ rw (upto_zero (sort_edits edits))
        (rw (sort-inserted edits 0) (rw (weave_behind-sort edits 0 src)))
