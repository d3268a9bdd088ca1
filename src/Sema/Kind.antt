-- ===== src/Sema/Kind.antt =====
-- src/sema.rs: the kinds of symbols.
use pbpp.Prelude.{Bool, true, false}

pub data SymKind : Type 0 where
  message enum service field enum_value method : SymKind

-- `SymKind::is_def`.
unfoldable pub is_def : SymKind → Bool
is_def SymKind.message = true
is_def SymKind.enum = true
is_def SymKind.service = true
is_def _ = false

-- The derived equality.
unfoldable pub kind_eq : SymKind → SymKind → Bool
kind_eq SymKind.message SymKind.message = true
kind_eq SymKind.enum SymKind.enum = true
kind_eq SymKind.service SymKind.service = true
kind_eq SymKind.field SymKind.field = true
kind_eq SymKind.enum_value SymKind.enum_value = true
kind_eq SymKind.method SymKind.method = true
kind_eq _ _ = false

-- `matches!(kind, Field | Method)`: the kinds that carry references.
unfoldable pub carries_refs : SymKind → Bool
carries_refs SymKind.field = true
carries_refs SymKind.method = true
carries_refs _ = false
