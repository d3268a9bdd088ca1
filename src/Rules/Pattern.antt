-- ===== src/Rules/Pattern.antt =====
-- src/rules.rs: `parse_pattern`, the names of kinds, and `RuleSet::push`.
pub mod RoundTrip
use pbpp.Prelude.{
  ℕ, Bool, true, false, ◌&&◌, ◌||◌, Option, none, some, List, [], ◌∷◌, ◌++◌, leb, ◌==◌, all,
  if◌then◌else◌, Result, ok, err, ◌>>=◌,
}
use pbpp.Text.{Text, codes, text_eq, trim, split}
use pbpp.Sema.Kind.{SymKind}
use pbpp.Rules.{Rule, RuleSet, Polarity, PatSeg, lit, star, double_star}

-- `is_ascii_alphabetic() || b == b'_'`; a byte of a character beyond ASCII fails both.
unfoldable pub starts_word : ℕ → Bool
starts_word c = (leb 65 c && leb c 90) || (leb 97 c && leb c 122) || c == 95

unfoldable pub in_word : ℕ → Bool
unfolding starts_word
in_word c = starts_word c || (leb 48 c && leb c 57)

unfoldable pub is_ident : Text → Bool
unfolding starts_word in_word
is_ident [] = false
is_ident (c ∷ cs) = starts_word c && all in_word (c ∷ cs)

-- One segment, trimmed; the error holds the segment.
unfoldable pub parse_seg : Text → Result Text PatSeg
unfolding text_eq is_ident
parse_seg seg =
    if text_eq seg (codes "*")
    then ok star
    else if text_eq seg (codes "**")
    then ok double_star
    else if is_ident seg
    then ok (lit seg)
    else err seg

unfoldable pub parse_segs : List Text → Result Text (List PatSeg)
unfolding parse_seg trim
parse_segs [] = ok []
parse_segs (s ∷ ss) = parse_seg (trim s) >>= λ seg. parse_segs ss >>= λ rest. ok (seg ∷ rest)

unfoldable pub parse_pattern : Text → Result Text (List PatSeg)
unfolding parse_segs split
parse_pattern text = parse_segs (split b'.' text)

unfoldable pub kind_name : SymKind → Text
kind_name SymKind.message = codes "message"
kind_name SymKind.enum = codes "enum"
kind_name SymKind.service = codes "service"
kind_name SymKind.field = codes "field"
kind_name SymKind.method = codes "method"
kind_name SymKind.enum_value = codes "value"

unfoldable pub parse_kind : Text → Option SymKind
unfolding text_eq
parse_kind text =
    if text_eq text (codes "message")
    then some SymKind.message
    else if text_eq text (codes "enum")
    then some SymKind.enum
    else if text_eq text (codes "service")
    then some SymKind.service
    else if text_eq text (codes "field")
    then some SymKind.field
    else if text_eq text (codes "method")
    then some SymKind.method
    else if text_eq text (codes "value")
    then some SymKind.enum_value
    else none

abbrev marker : Polarity → Text
marker Polarity.keep = codes "+"
marker Polarity.drop = codes "-"
marker Polarity.drop_cascade = codes "-!"

abbrev raw_of : Text → Text → Option SymKind → Text
raw_of mark pattern none = mark ++ (codes " " ++ pattern)
raw_of mark pattern (some k) = mark ++ (codes " " ++ (pattern ++ (codes " @" ++ kind_name k)))

-- `RuleSet::push`: the set with the rule at its end, or the bad segment.
unfoldable pub push : Polarity → Text → Option SymKind → RuleSet → Result Text RuleSet
unfolding parse_pattern kind_name
push polarity pattern kind set = parse_pattern pattern >>= λ segs. ok (record set {
  rules =
      set.rules
      ++ record {
        polarity = polarity;
        pattern = segs;
        kind = kind;
        raw = raw_of (marker polarity) pattern kind;
        span = none;
      }
        ∷ [];
})

unfoldable pub keep : Text → RuleSet → Result Text RuleSet
unfolding push
keep pattern = push Polarity.keep pattern none

unfoldable pub drop : Text → RuleSet → Result Text RuleSet
unfolding push
drop pattern = push Polarity.drop pattern none

unfoldable pub drop_cascade : Text → RuleSet → Result Text RuleSet
unfolding push
drop_cascade pattern = push Polarity.drop_cascade pattern none
