-- ===== src/Select/Mark.antt =====
-- src/select.rs: `Mark`, ordered by the strength of the keep, and the errors of a selection.
use pbpp.Prelude.{ℕ, Bool, Option, List, ltb, leb}
use pbpp.Span.{Span}

pub data Mark : Type 0 where
  unmarked container required explicit : Mark

-- The derived order of the enum.
abbrev pub strength : Mark → ℕ
strength unmarked = 0
strength container = 1
strength required = 2
strength explicit = 3

-- `mark >= level` and `mark < level`.
abbrev pub at_least : Mark → Mark → Bool
at_least m level = leb (strength level) (strength m)

abbrev pub below : Mark → Mark → Bool
below m level = ltb (strength m) (strength level)

-- One constructor for each error, with the symbols and rules that its message and notes name.
pub data SelectError : Type 0 where
  -- The rule set is empty.
  no_rules : SelectError
  -- The first rule that matches nothing, whether it only matched builtins, whether it is a prefix
  -- of some symbol, and the other dead rules.
  dead_rule : ℕ → Bool → Bool → List ℕ → SelectError
  -- A kept enum with no kept value; a kept enum and its first kept value, which is not zero.
  enum_emptied : ℕ → SelectError
  zero_value_dropped : ℕ → ℕ → SelectError
  -- The referencing symbol, the excluded target, where the reference stands, the reference chain,
  -- the rule that selects the end of the chain, and the rule that excludes.
  conflict : ℕ → ℕ → Span → List (ℕ × ℕ) → Option ℕ → ℕ → SelectError
  -- The kept symbol, the excluded target, the keep rule and the cascade rule.
  contradiction : ℕ → ℕ → ℕ → ℕ → SelectError
  -- The model's loop ran out of rounds; the source has no such error.
  out_of_fuel : SelectError
