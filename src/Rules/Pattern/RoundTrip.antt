-- ===== src/Rules/Pattern/RoundTrip.antt =====
-- src/rules.rs: a pattern written out is parsed back.
use pbpp.Prelude.{ℕ, ◌≡◌, refl, true, false, List, [], ◌∷◌, arith, ◌==◌, all, ok, All}
use pbpp.Text.{
  Text, codes, text_eq, is_whitespace, skip_while, trim_start, trim_end_matches, trim, join,
}
use pbpp.Text.Laws.{IsFree, AllFree, split-join}
use pbpp.Rules.{PatSeg, lit, star, double_star}
use pbpp.Rules.Pattern.{starts_word, in_word, is_ident, parse_seg, parse_segs, parse_pattern}

abbrev pub seg_text : PatSeg → Text
seg_text (lit s) = s
seg_text star = codes "*"
seg_text double_star = codes "**"

abbrev seg_texts : List PatSeg → List Text
seg_texts [] = []
seg_texts (p ∷ ps) = seg_text p ∷ seg_texts ps

-- The pattern as it is written.
unfoldable pub written : List PatSeg → Text
unfolding join
written pat = join b'.' (seg_texts pat)

-- Every literal is an identifier.
abbrev pub IsNamed : PatSeg → Type 0
IsNamed (lit s) = is_ident s ≡ true
IsNamed star = Unit
IsNamed double_star = Unit

-- No white space anywhere.
abbrev IsSolid : Text → Type 0
IsSolid [] = Unit
IsSolid (c ∷ cs) = (is_whitespace c ≡ false) × IsSolid cs

trim_end-IsSolid : (s : Text) → IsSolid s → trim_end_matches is_whitespace s ≡ s
unfolding trim_end_matches
trim_end-IsSolid [] h = refl
trim_end-IsSolid (c ∷ []) h = rw h.0
trim_end-IsSolid (c ∷ d ∷ ds) h = rw (trim_end-IsSolid (d ∷ ds) h.1)

trim-IsSolid : (s : Text) → IsSolid s → trim s ≡ s
unfolding trim trim_start skip_while
trim-IsSolid [] h = refl
trim-IsSolid (c ∷ cs) h = rw h.0 (trim_end-IsSolid (c ∷ cs) h)

in_word_lem : (c : ℕ) → in_word c ≡ true → (is_whitespace c ≡ false) × ((c == b'.') ≡ false)
unfolding in_word starts_word is_whitespace
in_word_lem c h = ground arith

words : (s : Text) → all in_word s ≡ true → IsSolid s × IsFree b'.' s
words [] h = (tt, tt)
words (c ∷ cs) h =
    let (solid, free) = words cs (ground arith) in
    let (a, b) = in_word_lem c (ground arith) in ((a, solid), (b, free))

ident_words : (s : Text) → is_ident s ≡ true → all in_word s ≡ true
unfolding is_ident
ident_words [] h = cc
ident_words (c ∷ cs) h = ground arith

seg_text_lem : (p : PatSeg) → IsNamed p → IsSolid (seg_text p) × IsFree b'.' (seg_text p)
unfolding is_whitespace
seg_text_lem (lit s) h = words s (ident_words s h)
seg_text_lem star h = ((refl, tt), (refl, tt))
seg_text_lem double_star h = ((refl, (refl, tt)), (refl, (refl, tt)))

starts_word_lem : (c : ℕ) → starts_word c ≡ true → (c == b'*') ≡ false
unfolding starts_word
starts_word_lem c h = ground arith

parse_seg_lem : (p : PatSeg) → IsNamed p → parse_seg (seg_text p) ≡ ok p
unfolding parse_seg text_eq is_ident
parse_seg_lem star h = refl
parse_seg_lem double_star h = refl
parse_seg_lem (lit []) h = cc
parse_seg_lem (lit (c ∷ cs)) h = rw (starts_word_lem c (ground arith)) (rw h)

parse_segs_lem : (pat : List PatSeg) → All IsNamed pat → parse_segs (seg_texts pat) ≡ ok pat
unfolding parse_segs
parse_segs_lem [] h = refl
parse_segs_lem (p ∷ ps) h =
    rw (trim-IsSolid (seg_text p) (seg_text_lem p h.0).0)
      (rw (parse_seg_lem p h.0) (rw (parse_segs_lem ps h.1)))

seg_texts-AllFree : (pat : List PatSeg) → All IsNamed pat → AllFree b'.' (seg_texts pat)
seg_texts-AllFree [] h = tt
seg_texts-AllFree (p ∷ ps) h = ((seg_text_lem p h.0).1, seg_texts-AllFree ps h.1)

-- A non-empty pattern whose literals are identifiers, written out with dots, is parsed back to
-- itself.
pub parse_pattern-written :
    (p : PatSeg) (ps : List PatSeg)
    → All IsNamed (p ∷ ps)
    → parse_pattern (written (p ∷ ps)) ≡ ok (p ∷ ps)
unfolding parse_pattern written
parse_pattern-written p ps h =
    rw (split-join b'.' (seg_text p) (seg_texts ps) (seg_texts-AllFree (p ∷ ps) h))
      (parse_segs_lem (p ∷ ps) h)
