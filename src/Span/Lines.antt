-- ===== src/Span/Lines.antt =====
-- src/span.rs: `LineIndex`, from byte offsets to lines and columns.
pub mod Position
use pbpp.Prelude.{
  ℕ, suc, ◌+◌, ◌-◌, ◌%◌, ◌^◌, Bool, List, [], ◌∷◌, ltb, ◌==◌, if◌then◌else◌, Result, ok, err,
  get_or,
}

-- The byte offset `i as u32 + 1`.
unfoldable pub after_byte : ℕ → ℕ
after_byte i = (i % 2 ^ 32 + 1) % 2 ^ 32

-- The starts that the loop pushes for the bytes from `i` on.
unfoldable pub starts_from : List ℕ → ℕ → List ℕ
unfolding after_byte
starts_from [] i = []
starts_from (b ∷ bs) i =
    if b == b'\n' then after_byte i ∷ starts_from bs (suc i) else starts_from bs (suc i)

-- `LineIndex::new`, from the bytes of the text.
unfoldable pub line_starts : List ℕ → List ℕ
unfolding starts_from
line_starts bytes = 0 ∷ starts_from bytes 0

-- `binary_search` of the standard library on a list in strictly ascending order: where the value
-- stands, or where it would have to be inserted.
unfoldable pub binary_search : List ℕ → ℕ → ℕ → Result ℕ ℕ
binary_search [] x i = err i
binary_search (s ∷ ss) x i =
    let rest = binary_search ss x (suc i) in
    if x == s then ok i else if ltb x s then err i else rest

abbrev pub line_of : Result ℕ ℕ → ℕ
line_of (ok l) = l
line_of (err l) = l - 1

-- `u32` addition of one: it wraps in a release build, and panics in a debug build where it wraps.
unfoldable pub add_one : ℕ → ℕ
add_one x = (x + 1) % 2 ^ 32

-- `LineIndex::line_col`: line and column, from 1 on. The offset is not in front of its line.
unfoldable pub line_col : List ℕ → ℕ → ℕ × ℕ
unfolding binary_search add_one
line_col starts offset =
    let line = line_of (binary_search starts offset 0) in
    (add_one (line % 2 ^ 32), add_one (offset - get_or starts line 0))
