-- ===== src/Fs.antt =====
-- src/fs.rs: the check of import paths, which name the files that are written.
pub mod Walk
use pbpp.Prelude.{
  ℕ, Bool, true, false, not, ◌&&◌, ◌||◌, List, [], ◌∷◌, ltb, ◌==◌, any, all, if◌then◌else◌, Result,
  ok, err,
}
use pbpp.Text.{Text, codes, text_eq, split}

-- `RESERVED_PREFIX`.
abbrev pub reserved_prefix : Text
reserved_prefix = codes ".pbtrim-"

-- `str::starts_with`.
unfoldable pub starts_with : Text → Text → Bool
starts_with s [] = true
starts_with [] (p ∷ ps) = false
starts_with (c ∷ cs) (p ∷ ps) = c == p && starts_with cs ps

abbrev is_nil : Text → Bool
is_nil [] = true
is_nil (c ∷ cs) = false

unfoldable pub valid_seg : Text → Bool
unfolding text_eq starts_with
valid_seg seg =
    not (is_nil seg)
    && (not (text_eq seg (codes "."))
        && (not (text_eq seg (codes "..")) && not (starts_with seg reserved_prefix)))

-- A byte below 0x20 or equal to 0x7f is a character of its own in UTF-8.
abbrev is_control : ℕ → Bool
is_control b = ltb b 0x20 || b == 0x7f

unfoldable pub valid_import_path : Text → Bool
unfolding valid_seg starts_with split
valid_import_path p =
    not (is_nil p)
    && (not (starts_with p (codes "/"))
        && (not (any (λ c. c == b'\\') p)
            && (not (any (λ c. c == b':') p)
                && (not (any is_control p) && all valid_seg (split b'/' p)))))

-- The error holds the path.
unfoldable pub check_import_path : Text → Result Text (Unit {0})
unfolding valid_import_path
check_import_path p = if valid_import_path p then ok tt else err p
