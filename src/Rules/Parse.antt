-- ===== src/Rules/Parse.antt =====
-- src/rules.rs: `parse_rules`, the reader of rules files with scope blocks.
pub mod Blocks
use pbpp.Prelude.{
  ℕ, ◌+◌, ◌-◌, Bool, true, false, ◌||◌, Option, none, some, List, [], ◌∷◌, ◌++◌, ◌==◌,
  if◌then◌else◌, Result, ok, err, ◌>>=◌,
}
use pbpp.Text.{
  Text, codes, text_eq, byte_len, trim, trim_start, trim_end_matches, before_first, split_inclusive,
  split_once, strip_prefix, strip_last,
}
use pbpp.Span as Span
use pbpp.Sema.Kind.{SymKind}
use pbpp.Rules.{Rule, RuleSet, Polarity, PatSeg}
use pbpp.Rules.Pattern.{parse_pattern, parse_kind}

-- What an error of `parse_rules` is about; the texts are made from it.
pub data RulesError : Type 0 where
  unmatched no_prefix stray_cascade no_pattern unclosed : Span.Span → RulesError
  bad_segment expected unknown_kind : Span.Span → Text → RulesError
  no_rules : RulesError

-- What a line says.
pub data Line : Type 0 where
  skip close : Line
  open_scope : List PatSeg → Line
  rule : Polarity → List PatSeg → Option SymKind → Line

abbrev pub at_span : Span.Span → Result Text (List PatSeg) → Result RulesError (List PatSeg)
at_span span (ok p) = ok p
at_span span (err seg) = err (bad_segment span seg)

unfoldable pub read_open : Span.Span → Text → Result RulesError Line
unfolding parse_pattern
read_open span [] = err (no_prefix span)
read_open span (c ∷ cs) = at_span span (parse_pattern (c ∷ cs)) >>= λ p. ok (open_scope p)

unfoldable pub read_path : Span.Span → Polarity → Text → Option SymKind → Result RulesError Line
unfolding parse_pattern
read_path span polarity [] kind = err (no_pattern span)
read_path span polarity (c ∷ cs) kind =
    at_span span (parse_pattern (c ∷ cs)) >>= λ p. ok (rule polarity p kind)

-- What follows on the marker: a path, and a kind behind `@`.
unfoldable pub read_pattern : Span.Span → Polarity → Text → Result RulesError Line
unfolding read_path split_once parse_kind trim
read_pattern span polarity rest = elim (split_once b'@' rest) [
  | none ↦ read_path span polarity rest none
  | some (p, k) ↦ elim (parse_kind (trim k)) [
    | none ↦ err (unknown_kind span (trim k))
    | some kind ↦ read_path span polarity (trim p) (some kind)
  ]
]

unfoldable pub read_rule : Span.Span → Text → Result RulesError Line
unfolding read_pattern strip_prefix trim
read_rule span text = elim (strip_prefix (codes "-!") text) [
  | some r ↦ read_pattern span Polarity.drop_cascade (trim r)
  | none ↦ elim (strip_prefix (codes "-") text) [
    | some r ↦ read_pattern span Polarity.drop (trim r)
    | none ↦ elim (strip_prefix (codes "+!") text) [
      | some r ↦ err (stray_cascade span)
      | none ↦ elim (strip_prefix (codes "+") text) [
        | some r ↦ read_pattern span Polarity.keep (trim r)
        | none ↦ err (expected span text)
      ]
    ]
  ]
]

-- A line without its comment and the blanks around.
unfoldable pub read_line : Span.Span → Text → Result RulesError Line
unfolding read_open read_rule strip_last trim text_eq
read_line span [] = ok skip
read_line span (c ∷ cs) =
    if text_eq (c ∷ cs) (codes "}") then ok close else elim (strip_last b'{' (c ∷ cs)) [
      | some prefix ↦ read_open span (trim prefix)
      | none ↦ read_rule span (c ∷ cs)
    ]

unfoldable pub content : Text → Text
unfolding trim_end_matches before_first
content line = before_first b'#' (trim_end_matches (λ c. c == 10 || c == 13) line)

-- The span of the trimmed content of a line that starts at `start`.
unfoldable pub span_of : ℕ → Text → Span.Span
unfolding content byte_len trim trim_start Span.new
span_of start line =
    let col = byte_len (content line) - byte_len (trim_start (content line)) in
    Span.new (start + col) (start + col + byte_len (trim (content line)))

-- The rules so far, and the scopes that are open, the innermost first, each with its whole prefix.
pub record Parsing : Type 0 where
  pub rules : List Rule
  pub scopes : List (List PatSeg × Span.Span)

abbrev pub prefix_of : List (List PatSeg × Span.Span) → List PatSeg
prefix_of [] = []
prefix_of ((p, span) ∷ scopes) = p

unfoldable pub close_scope :
    Span.Span → List (List PatSeg × Span.Span) → Parsing → Result RulesError Parsing
close_scope span [] st = err (unmatched span)
close_scope span (s ∷ scopes) st = ok (record st { scopes = scopes })

-- What a line does.
unfoldable pub step : Span.Span → Text → Line → Parsing → Result RulesError Parsing
unfolding close_scope
step span text skip st = ok st
step span text close st = close_scope span st.scopes st
step span text (open_scope p) st =
    ok (record st { scopes = (prefix_of st.scopes ++ p, span) ∷ st.scopes })
step span text (rule polarity p kind) st = ok (record st {
  rules =
      st.rules
      ++ record {
        polarity = polarity;
        pattern = prefix_of st.scopes ++ p;
        kind = kind;
        raw = text;
        span = some span;
      }
        ∷ [];
})

unfoldable pub parse_lines : List Text → ℕ → Parsing → Result RulesError Parsing
unfolding span_of read_line step content trim byte_len
parse_lines [] offset st = ok st
parse_lines (l ∷ ls) offset st = read_line (span_of offset l) (trim (content l)) >>= λ line.
    step (span_of offset l) (trim (content l)) line st >>= parse_lines ls (offset + byte_len l)

-- The end of the file.
unfoldable pub finish :
    Text → List Rule → List (List PatSeg × Span.Span) → Result RulesError RuleSet
finish src rules ((p, span) ∷ scopes) = err (unclosed span)
finish src [] [] = err no_rules
finish src (r ∷ rs) [] = ok (record { rules = r ∷ rs; src = some src })

unfoldable pub parse_rules : Text → Result RulesError RuleSet
unfolding parse_lines finish split_inclusive
parse_rules src =
    parse_lines (split_inclusive 10 src) 0 (record { rules = []; scopes = [] }) >>= λ st.
    finish src st.rules st.scopes
