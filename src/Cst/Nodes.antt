-- ===== src/Cst/Nodes.antt =====
-- src/cst.rs and src/lex.rs: what every node of the tree is made of.
use pbpp.Prelude.{ℕ, Bool, true, false, ◌&&◌, not, ◌==◌, List, [], ◌∷◌, ◌%◌, ◌^◌, take, drop}
use pbpp.Text.{Text}
use pbpp.Span.{Span}

pub record IdxRange : Type 0 where
  pub start : ℕ
  pub len : ℕ

-- `IdxRange::new`: the casts to `u32`.
unfoldable pub new : ℕ → ℕ → IdxRange
new start len = record { start = start % 2 ^ 32; len = len % 2 ^ 32 }

unfoldable pub is_empty : IdxRange → Bool
is_empty r = r.len == 0

-- `IdxRange::slice`; the source panics on a range outside the arena, which is cut off here.
unfoldable pub slice {ℓ} : {A : Type ℓ} → IdxRange → List A → List A
slice r arena = take r.len (drop r.start arena)

pub record Word : Type 0 where
  pub text : Text
  pub span : Span

pub record Meta : Type 0 where
  pub id : ℕ
  pub span : Span
  pub blank_before : Bool
  pub leading : IdxRange
  pub trailing : IdxRange
  pub detached : IdxRange

unfoldable pub has_comments : Meta → Bool
unfolding is_empty
has_comments m = not (is_empty m.leading && (is_empty m.trailing && is_empty m.detached))

pub record Block {ℓ} (A : Type ℓ) : Type ℓ where
  pub intro : IdxRange
  pub items : List A
  pub dangling : IdxRange

abbrev is_nil {ℓ} : {A : Type ℓ} → List A → Bool
is_nil [] = true
is_nil (x ∷ xs) = false

unfoldable pub has_nothing {ℓ} : {A : Type ℓ} → Block A → Bool
unfolding is_empty
has_nothing b = is_empty b.intro && (is_nil b.items && is_empty b.dangling)

pub record DottedPath : Type 0 where
  pub leading_dot : Bool
  pub segs : IdxRange
  pub span : Span

pub data CommentKind : Type 0 where
  line block : CommentKind

pub record Comment : Type 0 where
  pub kind : CommentKind
  pub text : Text
  pub span : Span
  pub line_start : ℕ
  pub line_end : ℕ
  pub blank_before : Bool
