-- ===== src/Text/Laws.antt =====
-- Laws of the text operations that the components use.
use pbpp.Prelude.{ℕ, ◌≡◌, refl, ◌↔◌, true, false, List, [], ◌∷◌, ◌++◌, ◌==◌, arith}
use pbpp.Text.{Text, text_eq, split, join}

pub text_eq_iff : (a b : Text) → (text_eq a b ≡ true) ↔ (a ≡ b)
unfolding text_eq
text_eq_iff [] [] = ground arith
text_eq_iff [] (y ∷ ys) = ground arith
text_eq_iff (x ∷ xs) [] = ground arith
text_eq_iff (x ∷ xs) (y ∷ ys) = ground (arith, text_eq_iff xs ys)

pub text_eq_refl : (a : Text) → text_eq a a ≡ true
text_eq_refl a = (text_eq_iff a a).1 refl

-- The character does not occur in the text.
abbrev pub IsFree : ℕ → Text → Type 0
IsFree d [] = Unit
IsFree d (c ∷ cs) = ((c == d) ≡ false) × IsFree d cs

split-free : (d : ℕ) (s : Text) → IsFree d s → split d s ≡ s ∷ []
unfolding split
split-free d [] h = refl
split-free d (c ∷ cs) h = rw (h.0, split-free d cs h.1)

split-append : (d : ℕ) (s rest : Text) → IsFree d s → split d (s ++ (d ∷ rest)) ≡ s ∷ split d rest
unfolding split
split-append d [] rest h = ground arith
split-append d (c ∷ cs) rest h = rw (h.0, split-append d cs rest h.1)

abbrev pub AllFree : ℕ → List Text → Type 0
AllFree d [] = Unit
AllFree d (s ∷ ss) = IsFree d s × AllFree d ss

-- Splitting undoes joining, for a non-empty list of pieces that do not hold the separator.
pub split-join :
    (d : ℕ) (s : Text) (ss : List Text) → AllFree d (s ∷ ss) → split d (join d (s ∷ ss)) ≡ s ∷ ss
unfolding join
split-join d s [] h = split-free d s h.0
split-join d s (t ∷ ss) h = rw (split-append d s (join d (t ∷ ss)) h.0, split-join d t ss h.1)
