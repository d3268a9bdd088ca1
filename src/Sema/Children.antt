-- ===== src/Sema/Children.antt =====
-- src/sema.rs: `build_children`, which lays the children of all symbols out in one arena.
pub mod Arena
pub mod Counts
pub mod Scatter
pub mod Layout
use pbpp.Prelude.{ℕ, zero, suc, ◌+◌, Option, none, some, List, [], ◌∷◌, get_or, set, length}
use pbpp.Sema.Symbols.{Sema, Symbol}
use pbpp.Sema.Build.{Builder}

-- `vec![0; n]`.
abbrev pub zeros : ℕ → List ℕ
zeros zero = []
zeros (suc n) = 0 ∷ zeros n

-- One count, at the place behind the parent's.
abbrev pub count_one : Option ℕ → List ℕ → List ℕ
count_one none off = off
count_one (some p) off = set off (suc p) (get_or off (suc p) 0 + 1)

unfoldable pub count_all : List Symbol → List ℕ → List ℕ
count_all [] off = off
count_all (s ∷ ss) off = count_all ss (count_one s.parent off)

-- `off[i] += off[i - 1]` for `n` places from `i = j + 1` on.
unfoldable pub prefix_sums : ℕ → ℕ → List ℕ → List ℕ
prefix_sums zero j off = off
prefix_sums (suc n) j off =
    prefix_sums n (suc j) (set off (suc j) (get_or off (suc j) 0 + get_or off j 0))

-- Where the parent's cursor stands, the child is written, and the cursor moves on.
abbrev pub move_cursor : Option ℕ → List ℕ → List ℕ
move_cursor none cursor = cursor
move_cursor (some p) cursor = set cursor p (get_or cursor p 0 + 1)

abbrev pub write_child : Option ℕ → ℕ → List ℕ → List ℕ → List ℕ
write_child none i cursor kids = kids
write_child (some p) i cursor kids = set kids (get_or cursor p 0) i

-- The scatter: the symbols from `i` on, with the cursors and the arena.
unfoldable pub scatter : List Symbol → ℕ → List ℕ → List ℕ → List ℕ
scatter [] i cursor kids = kids
scatter (s ∷ ss) i cursor kids =
    scatter ss (suc i) (move_cursor s.parent cursor) (write_child s.parent i cursor kids)

-- `off` after the first two passes.
unfoldable pub offsets : List Symbol → List ℕ
unfolding prefix_sums count_all
offsets ss = prefix_sums (length ss) 0 (count_all ss (zeros (suc (length ss))))

unfoldable pub build_children : Builder → Builder
unfolding offsets scatter
build_children b =
    let ss = b.sema.symbols in
    let off = offsets ss in
    record b {
      sema = record b.sema {
        children_arena = scatter ss 0 off (zeros (get_or off (length ss) 0));
        children_off = off;
      };
    }
