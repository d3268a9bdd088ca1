-- ===== src/Text.antt =====
-- Text as the list of its code points, with the `str` operations of the standard library that the
-- source calls: comparison, length in bytes, `split`, `split_once`, `trim`, prefixes and suffixes.
pub mod Laws
use pbpp.Prelude.{
  ℕ, ◌+◌, ◌≡◌, Bool, true, false, ◌&&◌, ◌||◌, Option, none, some, List, [], ◌∷◌, ◌++◌, ltb, leb,
  ◌==◌, if◌then◌else◌,
}
use mathlib.Core.List.{reverse}
use Prim.Native.Char.{code}
use Prim.Native.String.{String}

abbrev pub Text : Type 0
Text = List ℕ

-- A literal of the source.
abbrev pub codes : String → Text
codes String.[] = []
codes (String.◌∷◌ c s) = code c ∷ codes s

unfoldable pub text_eq : Text → Text → Bool
text_eq [] [] = true
text_eq (x ∷ xs) (y ∷ ys) = x == y && text_eq xs ys
text_eq _ _ = false

-- The length of a code point in UTF-8.
unfoldable pub utf8_len : ℕ → ℕ
utf8_len c = if ltb c 0x80 then 1 else if ltb c 0x800 then 2 else if ltb c 0x10000 then 3 else 4

-- `str::len`: bytes.
unfoldable pub byte_len : Text → ℕ
unfolding utf8_len
byte_len [] = 0
byte_len (c ∷ cs) = utf8_len c + byte_len cs

-- `char::is_whitespace`: the Unicode property White_Space.
unfoldable pub is_whitespace : ℕ → Bool
is_whitespace c =
    (leb 0x9 c && leb c 0xD)
    || c == 0x20
    || c == 0x85
    || c == 0xA0
    || c == 0x1680
    || (leb 0x2000 c && leb c 0x200A)
    || c == 0x2028
    || c == 0x2029
    || c == 0x202F
    || c == 0x205F
    || c == 0x3000

-- `trim_start_matches` by a test on characters, and `trim_end_matches` through the reversed text.
unfoldable pub skip_while : (ℕ → Bool) → Text → Text
skip_while p [] = []
skip_while p (c ∷ cs) = if p c then skip_while p cs else c ∷ cs

unfoldable pub trim_start : Text → Text
unfolding skip_while is_whitespace
trim_start s = skip_while is_whitespace s

-- A character goes only if all behind it go: `cs` is what is kept of the rest.
keep_before : (ℕ → Bool) → ℕ → Text → Text
keep_before p c [] = if p c then [] else c ∷ []
keep_before p c (d ∷ ds) = c ∷ d ∷ ds

unfoldable pub trim_end_matches : (ℕ → Bool) → Text → Text
unfolding keep_before
trim_end_matches p [] = []
trim_end_matches p (c ∷ cs) = keep_before p c (trim_end_matches p cs)

unfoldable pub trim : Text → Text
unfolding trim_start trim_end_matches is_whitespace
trim s = trim_end_matches is_whitespace (trim_start s)

cons_piece : ℕ → List Text → List Text
cons_piece c [] = (c ∷ []) ∷ []
cons_piece c (s ∷ ss) = (c ∷ s) ∷ ss

-- `str::split` at a character: always at least one piece.
unfoldable pub split : ℕ → Text → List Text
unfolding cons_piece
split d [] = [] ∷ []
split d (c ∷ cs) = if c == d then [] ∷ split d cs else cons_piece c (split d cs)

-- `str::split_inclusive`: each piece keeps its separator, and there is no empty last piece.
unfoldable pub split_inclusive : ℕ → Text → List Text
unfolding cons_piece
split_inclusive d [] = []
split_inclusive d (c ∷ cs) =
    if c == d then (c ∷ []) ∷ split_inclusive d cs else cons_piece c (split_inclusive d cs)

-- The text before the first `d`, or all of it.
unfoldable pub before_first : ℕ → Text → Text
before_first d [] = []
before_first d (c ∷ cs) = if c == d then [] else c ∷ before_first d cs

-- `str::split_once` at a character.
after_first : ℕ → Text → Option Text
after_first d [] = none
after_first d (c ∷ cs) = if c == d then some cs else after_first d cs

unfoldable pub split_once : ℕ → Text → Option (Text × Text)
unfolding before_first after_first
split_once d s = elim (after_first d s) [ none ↦ none | some r ↦ some (before_first d s, r) ]

unfoldable pub strip_prefix : Text → Text → Option Text
strip_prefix [] s = some s
strip_prefix (p ∷ ps) [] = none
strip_prefix (p ∷ ps) (c ∷ cs) = let rest = strip_prefix ps cs in if p == c then rest else none

-- `strip_suffix` of one character.
unfoldable pub strip_last : ℕ → Text → Option Text
strip_last d [] = none
strip_last d (c ∷ []) = if c == d then some [] else none
strip_last d (c ∷ cs) = elim (strip_last d cs) [ none ↦ none | some r ↦ some (c ∷ r) ]

-- `slice::join` by one separator.
unfoldable pub join : ℕ → List Text → Text
join d [] = []
join d (s ∷ []) = s
join d (s ∷ ss) = s ++ (d ∷ join d ss)
