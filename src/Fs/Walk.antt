-- ===== src/Fs/Walk.antt =====
-- src/fs.rs: where an accepted import path leads.
use pbpp.Prelude.{
  ◌≡◌, refl, inl, inr, true, false, Option, none, some, List, [], ◌∷◌, arith, all, if◌then◌else◌,
  ok, err, All, Bool-cases, ◌||◌,
}
use pbpp.Text.{Text, codes, text_eq, split}
use pbpp.Fs.{starts_with, valid_seg, valid_import_path, check_import_path, reserved_prefix}

-- The directory reached from the one below which `here` lists the way, innermost first; none where
-- the walk leaves that directory.
abbrev pub walk : List Text → List Text → Option (List Text)
walk here [] = some here
walk here (s ∷ ss) =
    let inward = walk (s ∷ here) ss in
    let stay = walk here ss in
    let outward : Option (List Text) = elim here [ [] ↦ none | _ ∷ above ↦ walk above ss ] in
    if text_eq s [] || text_eq s (codes ".")
    then stay
    else if text_eq s (codes "..")
    then outward
    else inward

abbrev pub onto : List Text → List Text → List Text
onto here [] = here
onto here (s ∷ ss) = onto (s ∷ here) ss

valid_seg_lem :
    (s : Text)
    → valid_seg s ≡ true
    → ((text_eq s [] || text_eq s (codes ".")) ≡ false)
      × (text_eq s (codes "..") ≡ false)
      × (starts_with s reserved_prefix ≡ false)
unfolding valid_seg text_eq starts_with
valid_seg_lem [] h = cc
valid_seg_lem (c ∷ cs) h = ground arith

walk_lem : (here ss : List Text) → all valid_seg ss ≡ true → walk here ss ≡ some (onto here ss)
walk_lem here [] h = refl
walk_lem here (s ∷ ss) h =
    let (inside, below, free) = valid_seg_lem s (ground arith) in
    rw (inside, below) (walk_lem (s ∷ here) ss (ground arith))

unreserved_lem :
    (ss : List Text) → all valid_seg ss ≡ true → All (λ s. starts_with s reserved_prefix ≡ false) ss
unreserved_lem [] h = tt
unreserved_lem (s ∷ ss) h =
    let (inside, below, free) = valid_seg_lem s (ground arith) in
    (free, unreserved_lem ss (ground arith))

accepted : (p : Text) → check_import_path p ≡ ok tt → valid_import_path p ≡ true
unfolding check_import_path
accepted p h = elim (Bool-cases (valid_import_path p)) [
  | inl fine ↦ fine
  | inr bad ↦ let clash : err p ≡ ok tt = rw bad at h in cc
]

-- An import path that the check accepts is relative, walking along it from a directory goes one
-- level down at each segment and never leaves the directory, and no segment has the name of one of
-- the program's own files.
pub check_import_path-walk :
    (p : Text)
    → check_import_path p ≡ ok tt
    → (starts_with p (codes "/") ≡ false)
      × (walk [] (split b'/' p) ≡ some (onto [] (split b'/' p)))
      × All (λ s. starts_with s reserved_prefix ≡ false) (split b'/' p)
unfolding valid_import_path
check_import_path-walk p h =
    let fine = accepted p h in
    let segments : all valid_seg (split b'/' p) ≡ true = ground arith in
    (ground arith, walk_lem [] (split b'/' p) segments, unreserved_lem (split b'/' p) segments)
