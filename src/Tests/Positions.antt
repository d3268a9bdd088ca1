-- ===== src/Tests/Positions.antt =====
-- Lines and columns in three short lines.
use pbpp.Prelude.{ℕ, ◌≡◌, refl, ◌+◌, List, [], ◌∷◌, arith, take}
use pbpp.Span.Lines.{line_col, line_starts}
use pbpp.Span.Lines.Position.{newlines, column_from, line_col-newlines}

abbrev three_lines : List ℕ
three_lines = b'a' ∷ b'b' ∷ b'\n' ∷ b'\n' ∷ b'c' ∷ b'd' ∷ []

last_byte : line_col (line_starts three_lines) 5 ≡ (3, 2)
unfolding line_col line_starts
last_byte = refl

-- At the end of a text of 2 ^ 32 - 1 bytes without a newline, the column wraps to zero.
wraps : line_col (0 ∷ []) 4294967295 ≡ (1, 0)
unfolding line_col
wraps = refl

line_col-newlines_example :
    line_col (line_starts three_lines) 5
    ≡ (newlines (take 5 three_lines) + 1, column_from 0 (take 5 three_lines) + 1)
line_col-newlines_example =
    line_col-newlines three_lines 5 (omega arith) (omega arith) (omega arith)
