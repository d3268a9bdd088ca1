-- ===== src/Prune/Edits.antt =====
-- src/prune.rs: `Edit` and `apply_edits`, over the bytes of a text.
pub mod Weave
mod Order
mod Run
pub mod Meaning
use pbpp.Prelude.{
  ℕ, ◌-◌, Bool, true, false, ◌&&◌, ◌||◌, List, [], ◌∷◌, ◌++◌, max, leb, ltb, ◌==◌, if◌then◌else◌,
  take, drop,
}
use pbpp.Span.{Span}

abbrev pub Bytes : Type 0
Bytes = List ℕ

pub data Edit : Type 0 where
  del : Span → Edit
  ins : ℕ → Bytes → Edit

-- The sort's key: where the edit starts, deletions before insertions.
abbrev pub key_start : Edit → ℕ
key_start (del s) = s.start
key_start (ins at text) = at

abbrev pub key_tag : Edit → ℕ
key_tag (del s) = 0
key_tag (ins at text) = 1

unfoldable pub key_le : Edit → Edit → Bool
key_le e f =
    ltb (key_start e) (key_start f) || (key_start e == key_start f && leb (key_tag e) (key_tag f))

-- `sort_by_key` of the standard library: stable.
unfoldable pub insert_edit : Edit → List Edit → List Edit
insert_edit e [] = e ∷ []
insert_edit e (f ∷ fs) = if key_le e f then e ∷ f ∷ fs else f ∷ insert_edit e fs

unfoldable pub sort_edits : List Edit → List Edit
unfolding insert_edit key_le
sort_edits [] = []
sort_edits (e ∷ es) = insert_edit e (sort_edits es)

-- `&src[a..b]` for `a <= b <= len`.
abbrev pub piece : Bytes → ℕ → ℕ → Bytes
piece src a b = take (b - a) (drop a src)

-- The loop, with the output and the position as its variables.
unfoldable pub apply_from : Bytes → List Edit → Bytes → ℕ → Bytes
apply_from src [] out pos = out ++ drop pos src
apply_from src (del s ∷ es) out pos =
    if leb pos s.start
    then apply_from src es (out ++ piece src pos s.start) s.end
    else apply_from src es out (max pos s.end)
apply_from src (ins at text ∷ es) out pos =
    if leb pos at
    then apply_from src es ((out ++ piece src pos at) ++ text) at
    else apply_from src es (out ++ text) pos

unfoldable pub apply_edits : Bytes → List Edit → Bytes
unfolding apply_from sort_edits
apply_edits src edits = apply_from src (sort_edits edits) [] 0
