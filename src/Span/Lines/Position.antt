-- ===== src/Span/Lines/Position.antt =====
-- src/span.rs: `line_col` counts newlines.
use pbpp.Prelude.{
  ℕ, zero, suc, ◌+◌, ◌-◌, ◌^◌, ◌≤◌, ◌<◌, ◌%◌, ◌≡◌, ◌∙◌, refl, inl, inr, true, false, List, [], ◌∷◌,
  arith, ltb, ◌==◌, if◌then◌else◌, Bool-cases, err, get_or, take, length, All,
}
use pbpp.Span.Lines.{
  after_byte, starts_from, line_starts, binary_search, line_of, add_one, line_col,
}

-- How many newlines the bytes hold.
abbrev pub newlines : List ℕ → ℕ
newlines [] = 0
newlines (b ∷ bs) = if b == b'\n' then suc (newlines bs) else newlines bs

-- How many bytes follow the last newline, where `n` have gone before.
abbrev pub column_from : ℕ → List ℕ → ℕ
column_from n [] = n
column_from n (b ∷ bs) = if b == b'\n' then column_from 0 bs else column_from (suc n) bs

after_byte_lem : (i : ℕ) → suc i < 4294967296 → after_byte i ≡ suc i
unfolding after_byte
after_byte_lem i h = omega arith

starts_from-above :
    (bs : List ℕ) (i x : ℕ)
    → x ≤ i
    → i + length bs < 4294967296
    → All (λ s. x < s) (starts_from bs i)
unfolding starts_from
starts_from-above [] i x h k = tt
starts_from-above (b ∷ bs) i x h k =
    let rest = starts_from-above bs (suc i) x (omega arith) (omega arith) in
    elim (Bool-cases (b == b'\n')) [
      | inl new ↦ rw new (rw (after_byte_lem i (omega arith)) (omega arith, rest))
      | inr other ↦ rw other rest
    ]

search_above : (ss : List ℕ) (x j : ℕ) → All (λ s. x < s) ss → binary_search ss x j ≡ err j
unfolding binary_search
search_above [] x j h = refl
search_above (s ∷ ss) x j h =
    let e : (x == s) ≡ false = ground arith in let l : ltb x s ≡ true = ground arith in rw (e, l)

search_first :
    (s : ℕ) (ss : List ℕ) (x j : ℕ)
    → s ≤ x
    → All (λ t. x < t) ss
    → line_of (binary_search (s ∷ ss) x j) ≡ j
unfolding binary_search
search_first s ss x j h above = elim (Bool-cases (x == s)) [
  | inl here ↦ rw here
  | inr later ↦
      let l : ltb x s ≡ false = ground arith in
      rw (later, l) (rw (search_above ss x (suc j) above) (omega arith))
]

search_next :
    (s : ℕ) (ss : List ℕ) (x j : ℕ)
    → s < x
    → binary_search (s ∷ ss) x j ≡ binary_search ss x (suc j)
unfolding binary_search
search_next s ss x j h =
    let e : (x == s) ≡ false = ground arith in let l : ltb x s ≡ false = ground arith in rw (e, l)

starts_from-newline :
    (b i : ℕ) (bs : List ℕ)
    → suc i < 4294967296
    → (b == b'\n') ≡ true
    → starts_from (b ∷ bs) i ≡ suc i ∷ starts_from bs (suc i)
unfolding starts_from
starts_from-newline b i bs h new = rw new (rw (after_byte_lem i h))

starts_from-other :
    (b i : ℕ) (bs : List ℕ) → (b == b'\n') ≡ false → starts_from (b ∷ bs) i ≡ starts_from bs (suc i)
unfolding starts_from
starts_from-other b i bs other = rw other

-- The line found, and its start, for the `k`th of the bytes from `i` on, where the line of the
-- first of them starts at `s` and is the line `j`.
found :
    (bs : List ℕ) (i s j k : ℕ)
    → s ≤ i
    → k ≤ length bs
    → i + length bs < 4294967296
    → (line_of (binary_search (s ∷ starts_from bs i) (i + k) j) ≡ j + newlines (take k bs))
      × (get_or (s ∷ starts_from bs i) (newlines (take k bs)) 0 + column_from (i - s) (take k bs)
          ≡ i + k)
found bs i s j zero h le bound = (
  search_first s (starts_from bs i) (i + 0) j (omega arith)
        (starts_from-above bs i (i + 0) (omega arith) bound)
      ∙ omega arith,
  omega arith,
)
found [] i s j (suc k) h le bound = absurd (omega arith)
found (b ∷ bs) i s j (suc k) h le bound =
    let shift : i + suc k ≡ suc i + k = omega arith in
    elim (Bool-cases (b == b'\n')) [
      | inl new ↦
          let (line, start) =
            found bs (suc i) (suc i) (suc j) k (omega arith) (omega arith) (omega arith) in
          let none_before : suc i - suc i ≡ 0 = omega arith in
          rw (starts_from-newline b i bs (omega arith) new) (
            rw new (
              rw shift (
                rw (search_next s (suc i ∷ starts_from bs (suc i)) (suc i + k) j (omega arith))
                    (line ∙ omega arith),
                rw none_before at start,
              )))
      | inr other ↦
          let (line, start) = found bs (suc i) s j k (omega arith) (omega arith) (omega arith) in
          let one_more : suc i - s ≡ suc (i - s) = omega arith in
          rw (starts_from-other b i bs other) (rw other (rw shift (line, rw one_more at start)))
    ]

newlines_le : (bs : List ℕ) → newlines bs ≤ length bs
newlines_le [] = omega arith
newlines_le (b ∷ bs) = ground (arith, newlines_le bs)

column_from_le : (n : ℕ) (bs : List ℕ) → column_from n bs ≤ n + length bs
column_from_le n [] = omega arith
column_from_le n (b ∷ bs) = ground (arith, column_from_le 0 bs, column_from_le (suc n) bs)

length-take-le : (k : ℕ) (bs : List ℕ) → length (take k bs) ≤ k
length-take-le zero bs = omega arith
length-take-le (suc k) [] = omega arith
length-take-le (suc k) (b ∷ bs) = omega (arith, length-take-le k bs)

add_one_lem : (x : ℕ) → x + 1 < 4294967296 → add_one x ≡ x + 1
unfolding add_one
add_one_lem x h = omega arith

-- For an offset within a text of less than 4 GiB, but for the offset 2 ^ 32 - 1, the line is one
-- more than the number of newlines in front of it, and the column one more than the number of bytes
-- behind the last of them; the 32-bit additions do not wrap.
pub line_col-newlines :
    (bytes : List ℕ) (offset : ℕ)
    → offset ≤ length bytes
    → length bytes < 2 ^ 32
    → offset + 1 < 2 ^ 32
    → line_col (line_starts bytes) offset
      ≡ (newlines (take offset bytes) + 1, column_from 0 (take offset bytes) + 1)
unfolding line_col line_starts
line_col-newlines bytes offset h bound inside =
    let (line, start) =
      found bytes 0 0 0 offset (omega arith) h
        (let b : 0 + length bytes < 4294967296 = omega arith in b) in
    let zero_more : 0 + offset ≡ offset = omega arith in
    let line_there : line_of (binary_search (0 ∷ starts_from bytes 0) offset 0)
        ≡ newlines (take offset bytes) =
      (rw zero_more at line) ∙ omega arith in
    let column : offset - get_or (0 ∷ starts_from bytes 0) (newlines (take offset bytes)) 0
        ≡ column_from 0 (take offset bytes) =
      let at_start = rw zero_more at start in omega arith in
    let few = newlines_le (take offset bytes) in
    let near = column_from_le 0 (take offset bytes) in
    let short = length-take-le offset bytes in
    let cast : newlines (take offset bytes) % 4294967296 ≡ newlines (take offset bytes) =
      omega (arith, few, short) in
    rw line_there (
      rw (
        column,
        cast,
        add_one_lem (newlines (take offset bytes)) (omega (arith, few, short)),
        add_one_lem (column_from 0 (take offset bytes)) (omega (arith, near, short)),
      ))
