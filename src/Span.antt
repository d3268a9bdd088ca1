-- ===== src/Span.antt =====
-- src/span.rs: byte spans and the line index.
pub mod Lines
use pbpp.Prelude.{ℕ, ◌%◌, ◌^◌, min, max}

pub record Span : Type 0 where
  pub start : ℕ
  pub end : ℕ

-- `Span::new`: the offsets are cast to `u32`.
unfoldable pub new : ℕ → ℕ → Span
new start end = record { start = start % 2 ^ 32; end = end % 2 ^ 32 }

-- `Span::join`.
unfoldable pub join : Span → Span → Span
join a b = record { start = min a.start b.start; end = max a.end b.end }
