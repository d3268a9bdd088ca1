-- ===== src/Tests/Editing.antt =====
-- `apply_edits` on a short text: overlapping deletions and an insertion inside one of them.
use pbpp.Prelude.{◌≡◌, refl, [], ◌∷◌, List, arith}
use pbpp.Prune.Edits.{Bytes, Edit, del, ins, apply_edits}
use pbpp.Prune.Edits.Weave.{weave}
use pbpp.Prune.Edits.Meaning.{apply_edits-weave}

abbrev ten_bytes : Bytes
ten_bytes = 0 ∷ 1 ∷ 2 ∷ 3 ∷ 4 ∷ 5 ∷ 6 ∷ 7 ∷ 8 ∷ 9 ∷ []

abbrev three_edits : List Edit
three_edits =
    ins 4 (70 ∷ 71 ∷ [])
    ∷ del (record { start = 3; end = 6 })
    ∷ del (record { start = 2; end = 5 })
    ∷ []

edits_applied : apply_edits ten_bytes three_edits ≡ 0 ∷ 1 ∷ 70 ∷ 71 ∷ 6 ∷ 7 ∷ 8 ∷ 9 ∷ []
unfolding apply_edits
edits_applied = refl

apply_edits-weave_example : apply_edits ten_bytes three_edits ≡ weave three_edits ten_bytes
apply_edits-weave_example =
    apply_edits-weave ten_bytes three_edits
      (omega arith, ((omega arith, omega arith), ((omega arith, omega arith), tt)))
