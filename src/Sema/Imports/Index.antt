-- ===== src/Sema/Imports/Index.antt =====
-- src/sema.rs: the map from paths to files answers with the last of the files of a path.
use pbpp.Prelude.{
  ℕ, zero, suc, ◌+◌, ◌<◌, ◌≡◌, ◌∙◌, ◌⊎◌, refl, sym, subst, ap, inl, inr, ◌↔◌, true, false,
  Bool-cases, Option-cases, Option, none, some, List, [], ◌∷◌, arith, get_elem?, ltb, if◌then◌else◌,
}
use pbpp.Text.{Text, text_eq}
use pbpp.Text.Laws.{text_eq_iff}
use pbpp.FileSet.{SetFile}
use pbpp.Sema.Imports.{index_from}

abbrev pub HasPath : List SetFile → Text → ℕ → Type 0
HasPath fs path g = (f : SetFile) × (get_elem? fs g ≡ some f) × (f.path ≡ path)

-- The last of the files with the path.
abbrev pub IsIndex : List SetFile → Text → ℕ → Type 0
IsIndex fs path g = HasPath fs path g × ((h : ℕ) → g < h → ¬ HasPath fs path h)

HasPath-head :
    (f : SetFile) (fs : List SetFile) (path : Text)
    → HasPath (f ∷ fs) path zero
    → text_eq f.path path ≡ true
HasPath-head f fs path (x, e, is) =
    let same : f ≡ x = cc in (text_eq_iff f.path path).1 (ap (λ (y : SetFile). y.path) same ∙ is)

index_from-cons :
    (path : Text) (f : SetFile) (fs : List SetFile) (i : ℕ)
    → ((j : ℕ) × (index_from path fs (suc i) ≡ some j) × (index_from path (f ∷ fs) i ≡ some j))
      ⊎ ((index_from path fs (suc i) ≡ none)
          × (index_from path (f ∷ fs) i ≡ (if text_eq f.path path then some i else none)))
unfolding index_from
index_from-cons path f fs i = by (index_from path fs (suc i)) refl
  where
    by :
        (o : Option ℕ)
        → index_from path fs (suc i) ≡ o
        → ((j : ℕ) × (index_from path fs (suc i) ≡ some j) × (index_from path (f ∷ fs) i ≡ some j))
          ⊎ ((index_from path fs (suc i) ≡ none)
              × (index_from path (f ∷ fs) i ≡ (if text_eq f.path path then some i else none)))
    by (some j) s = inl (j, s, rw s)
    by none s = inr (s, rw s)

pub index_from-none :
    (path : Text) (fs : List SetFile) (i : ℕ)
    → index_from path fs i ≡ none
    → (k : ℕ) → ¬ HasPath fs path k
index_from-none path [] i e k (x, got, is) = cc
index_from-none path (f ∷ fs) i e k h = elim (index_from-cons path f fs i) [
  | inl (j, s, found) ↦ let clash : some j ≡ none = sym found ∙ e in cc
  | inr (tail, answer) ↦ elim (Bool-cases (text_eq f.path path)) [
    | inl same ↦ let clash : some i ≡ none = sym (rw same at answer) ∙ e in cc
    | inr other ↦ beyond k h (index_from-none path fs (suc i) tail) other
  ]
]
  where
    beyond :
        (k : ℕ)
        → HasPath (f ∷ fs) path k
        → ((m : ℕ) → ¬ HasPath fs path m)
        → text_eq f.path path ≡ false
        → ⊥
    beyond zero h later other =
        let clash : true ≡ false = sym (HasPath-head f fs path h) ∙ other in cc
    beyond (suc k) h later other = later k h

IsIndex-tail :
    (f : SetFile) (fs : List SetFile) (path : Text) (k : ℕ)
    → IsIndex fs path k
    → IsIndex (f ∷ fs) path (suc k)
IsIndex-tail f fs path k (has, last) = (has, λ h. beyond h)
  where
    beyond : (h : ℕ) → suc k < h → ¬ HasPath (f ∷ fs) path h
    beyond zero l m = absurd (omega (arith, l))
    beyond (suc h) l m = last h (omega (arith, l)) m

IsIndex-head :
    (f : SetFile) (fs : List SetFile)
    → ((m : ℕ) → ¬ HasPath fs f.path m)
    → IsIndex (f ∷ fs) f.path zero
IsIndex-head f fs later = ((f, refl, refl), λ h. beyond h)
  where
    beyond : (h : ℕ) → 0 < h → ¬ HasPath (f ∷ fs) f.path h
    beyond zero l m = absurd (omega (arith, l))
    beyond (suc h) l m = later h m

index_from-some :
    (path : Text) (fs : List SetFile) (i j : ℕ)
    → index_from path fs i ≡ some j
    → (k : ℕ) × (j ≡ i + k) × IsIndex fs path k
unfolding index_from
index_from-some path [] i j e = cc
index_from-some path (f ∷ fs) i j e = elim (index_from-cons path f fs i) [
  | inl (x, s, found) ↦
      let eq : some x ≡ some j = sym found ∙ e in
      let same : x ≡ j = cc in
      let (k, is, index) = index_from-some path fs (suc i) x s in
      (suc k, omega (arith, is, same), IsIndex-tail f fs path k index)
  | inr (tail, answer) ↦ elim (Bool-cases (text_eq f.path path)) [
    | inl same ↦
        let eq : some i ≡ some j = sym (rw same at answer) ∙ e in
        let at : i ≡ j = cc in
        let path_is = (text_eq_iff f.path path).0 same in
        (
          0,
          omega (arith, at),
          subst (λ (p : Text). IsIndex (f ∷ fs) p 0) path_is
              (IsIndex-head f fs (
                subst (λ (p : Text). (m : ℕ) → ¬ HasPath fs p m) (sym path_is)
                  (index_from-none path fs (suc i) tail))),
        )
    | inr other ↦ let clash : none ≡ some j = sym (rw other at answer) ∙ e in cc
  ]
]

pub index_from-IsIndex :
    (path : Text) (fs : List SetFile) (g : ℕ) → (index_from path fs 0 ≡ some g) ↔ IsIndex fs path g
index_from-IsIndex path fs g = (
  λ e.
      let (k, is, last) = index_from-some path fs 0 g e in
      let eq : k ≡ g = omega (arith, is) in subst (IsIndex fs path) eq last,
  λ h. by (index_from path fs 0) refl h,
)
  where
    by :
        (o : Option ℕ)
        → index_from path fs 0 ≡ o
        → IsIndex fs path g
        → index_from path fs 0 ≡ some g
    by none e (has, last) = absurd (index_from-none path fs 0 e g has)
    by (some j) e (has, last) =
        let (k, is, (has2, last2)) = index_from-some path fs 0 j e in
        elim (Bool-cases (ltb g k)) [
          | inl low ↦ absurd (last k (ground arith) has2)
          | inr high ↦ elim (Bool-cases (ltb k g)) [
            | inl low ↦ absurd (last2 g (ground arith) has)
            | inr equal ↦ let eq : j ≡ g = ground (arith, is) in e ∙ ap some eq
          ]
        ]

pub index_from-gone :
    (path : Text) (fs : List SetFile)
    → ((k : ℕ) → ¬ HasPath fs path k)
    → index_from path fs 0 ≡ none
index_from-gone path fs gone = elim (Option-cases (index_from path fs 0)) [
  | inl e ↦ e
  | inr (g, e) ↦ absurd (gone g ((index_from-IsIndex path fs g).0 e).0)
]
