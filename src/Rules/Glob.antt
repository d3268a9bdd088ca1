-- ===== src/Rules/Glob.antt =====
-- src/rules.rs: `glob` decides what a pattern means.
use pbpp.Prelude.{
  ◌≡◌, refl, ◌↔◌, inl, inr, Bool, true, false, ◌&&◌, ◌||◌, List, [], ◌∷◌, arith, Bool-cases,
}
use pbpp.Text.{Text, text_eq}
use pbpp.Text.Laws.{text_eq_iff, text_eq_refl}
use pbpp.Rules.{PatSeg, lit, star, double_star}

-- `(0..=segs.len()).any(|k| p(&segs[k..]))`.
any_suffix : (List Text → Bool) → List Text → Bool
any_suffix p [] = p []
any_suffix p (s ∷ ss) = p (s ∷ ss) || any_suffix p ss

unfoldable pub glob : List PatSeg → List Text → Bool
unfolding any_suffix text_eq
glob [] [] = true
glob [] (s ∷ ss) = false
glob (double_star ∷ []) [] = false
glob (double_star ∷ []) (s ∷ ss) = true
glob (double_star ∷ q ∷ pat) segs = any_suffix (glob (q ∷ pat)) segs
glob (star ∷ pat) [] = false
glob (star ∷ pat) (s ∷ ss) = glob pat ss
glob (lit l ∷ pat) [] = false
glob (lit l ∷ pat) (s ∷ ss) = text_eq s l && glob pat ss

-- What a pattern means: a `**` in the middle stands for any number of segments, one at the end for
-- at least one.
pub data Matches : List PatSeg → List Text → Type 0 where
  done : Matches [] []
  contents : (s : Text) (ss : List Text) → Matches (double_star ∷ []) (s ∷ ss)
  none_of :
      {q : PatSeg} {pat : List PatSeg} {segs : List Text}
      → Matches (q ∷ pat) segs
      → Matches (double_star ∷ q ∷ pat) segs
  more_of :
      {q : PatSeg} {pat : List PatSeg} {segs : List Text} (s : Text)
      → Matches (double_star ∷ q ∷ pat) segs
      → Matches (double_star ∷ q ∷ pat) (s ∷ segs)
  any_one :
      {pat : List PatSeg} {segs : List Text} (s : Text)
      → Matches pat segs
      → Matches (star ∷ pat) (s ∷ segs)
  exactly :
      {pat : List PatSeg} {segs : List Text} (s : Text)
      → Matches pat segs
      → Matches (lit s ∷ pat) (s ∷ segs)

-- A suffix that the rest of the pattern matches, with the segments in front of it skipped.
any_suffix-Matches :
    {q : PatSeg} {pat : List PatSeg} (p : List Text → Bool) (segs : List Text)
    → ((ss : List Text) → p ss ≡ true → Matches (q ∷ pat) ss)
    → any_suffix p segs ≡ true
    → Matches (double_star ∷ q ∷ pat) segs
unfolding any_suffix
any_suffix-Matches p [] sound h = none_of (sound [] h)
any_suffix-Matches p (s ∷ ss) sound h = elim (Bool-cases (p (s ∷ ss))) [
  | inl now ↦ none_of (sound (s ∷ ss) now)
  | inr later ↦ more_of s (any_suffix-Matches p ss sound (rw later at h))
]

any_suffix_now :
    (p : List Text → Bool) (segs : List Text) → p segs ≡ true → any_suffix p segs ≡ true
unfolding any_suffix
any_suffix_now p [] h = h
any_suffix_now p (s ∷ ss) h = rw h

glob→Matches : (pat : List PatSeg) (segs : List Text) → glob pat segs ≡ true → Matches pat segs
unfolding glob
glob→Matches [] [] h = done
glob→Matches [] (s ∷ ss) h = cc
glob→Matches (double_star ∷ []) [] h = cc
glob→Matches (double_star ∷ []) (s ∷ ss) h = contents s ss
glob→Matches (double_star ∷ q ∷ pat) segs h =
    any_suffix-Matches (glob (q ∷ pat)) segs (glob→Matches (q ∷ pat)) h
glob→Matches (star ∷ pat) [] h = cc
glob→Matches (star ∷ pat) (s ∷ ss) h = any_one s (glob→Matches pat ss h)
glob→Matches (lit l ∷ pat) [] h = cc
glob→Matches (lit l ∷ pat) (s ∷ ss) h =
    let e : s ≡ l = ground (arith, text_eq_iff s l) in
    let rest : glob pat ss ≡ true = ground arith in rw e (exactly l (glob→Matches pat ss rest))

any_suffix_later :
    (p : List Text → Bool) (s : Text) (ss : List Text)
    → any_suffix p ss ≡ true
    → any_suffix p (s ∷ ss) ≡ true
unfolding any_suffix
any_suffix_later p s ss h = ground arith

Matches→glob : {pat : List PatSeg} {segs : List Text} → Matches pat segs → glob pat segs ≡ true
unfolding glob
Matches→glob done = refl
Matches→glob (contents s ss) = refl
Matches→glob (none_of {q} {pat} {segs} m) = any_suffix_now (glob (q ∷ pat)) segs (Matches→glob m)
Matches→glob (more_of {q} {pat} {segs} s m) =
    any_suffix_later (glob (q ∷ pat)) s segs (Matches→glob m)
Matches→glob (any_one s m) = Matches→glob m
Matches→glob (exactly s m) = rw (text_eq_refl s) (Matches→glob m)

-- `glob` answers true exactly on the paths that the pattern means, whatever pattern and path.
pub glob_iff : (pat : List PatSeg) (segs : List Text) → (glob pat segs ≡ true) ↔ Matches pat segs
glob_iff pat segs = (glob→Matches pat segs, Matches→glob)
