-- ===== src/Sema/Build/Files.antt =====
-- src/sema.rs: `collect_symbols` keeps the builder's invariants.
use pbpp.Prelude.{
  ◌+◌, ◌∙◌, ◌++◌, length-append, sym, ap, ◌-◌, ℕ, suc, ◌≡◌, refl, subst, List, [], ◌∷◌, arith,
  length, ok, >>=-eq-ok,
}
use pbpp.Text.{Text}
use pbpp.Cst.{File}
use pbpp.Cst.Nodes.{Word}
use pbpp.FileSet.{SetFile, FileSet}
use pbpp.Sema.Symbols.{slice}
use pbpp.Sema.Build.{Scope, Builder, ns_root, ns_intern, seg_mark}
use pbpp.Sema.Build.Walk.{
  walk_tops, enter_package, package_words, open_file, collect_file, collect_from, collect_symbols,
}
use pbpp.Sema.Build.Names.{Trail, top}
use pbpp.Sema.Build.Naming.{words_at, InScope, words_at_end, arena-IsNamed}
use pbpp.Sema.Build.Register.{seg_mark_lem, Interned-Trail, Built, ns_intern-Interned}
use pbpp.Sema.Build.Collect.{walk_tops-Kept}

-- The loop over the segments of a package: a scope whose way ends the arena.
abbrev IsEntering : Scope → Builder → Type 0
IsEntering scope b =
    InScope b.sema.seg_arena b.sema.ns_nodes scope
    × (scope.seg_start + scope.seg_len ≡ length b.sema.seg_arena)

enter_one :
    (scope : Scope) (t : Text) (b : Builder)
    → Built b
    → IsEntering scope b
    → (let r = ns_intern scope.ns t b in
        let after : Builder = record r.1 {
          sema = record r.1.sema { seg_arena = r.1.sema.seg_arena ++ t ∷ [] };
        } in
        Built after × IsEntering (record scope { ns = r.0; seg_len = scope.seg_len + 1 }) after)
enter_one scope t b built ((fits, inside, way), ends) =
    let r = ns_intern scope.ns t b in
    let i = ns_intern-Interned scope.ns t b inside built in
    let arena = b.sema.seg_arena in
    let words = words_at arena scope.seg_start scope.seg_len in
    let wider = r.1.sema.seg_arena ++ t ∷ [] in
    let words_now : words_at wider scope.seg_start (scope.seg_len + 1) ≡ words ++ t ∷ [] =
      ap (λ (l : List Text). words_at (l ++ t ∷ []) scope.seg_start (scope.seg_len + 1))
        i.same_arena
      ∙ words_at_end arena scope.seg_start scope.seg_len t ends in
    let size : length wider ≡ length arena + 1 =
      length-append r.1.sema.seg_arena (t ∷ [])
      ∙ ap (λ (l : List Text). length l + 1) i.same_arena in
    (
      (
        i.built.0,
        i.built.1,
        arena-IsNamed r.1.sema.symbols r.1.sema.seg_arena (t ∷ []) r.1.sema.ns_nodes i.built.2,
      ),
      (
        (
          omega (arith, size, ends),
          i.inside,
          subst (Trail r.1.sema.ns_nodes r.0) (sym words_now)
              (Interned-Trail scope.ns t b r words i way),
        ),
        omega (arith, size, ends),
      ),
    )

enter_package-Built :
    (ws : List Word) (scope : Scope) (b : Builder)
    → Built b
    → IsEntering scope b
    → (let r = enter_package ws scope b in Built r.1 × IsEntering r.0 r.1)
unfolding enter_package
enter_package-Built [] scope b built e = (built, e)
enter_package-Built (w ∷ ws) scope b built e =
    let (next, entering) = enter_one scope w.text b built e in
    enter_package-Built ws _ _ next entering

open_file-Built : (cst : File) (b : Builder) → Built b → Built (open_file cst b)
unfolding open_file
open_file-Built cst b built = built

collect_file-Built :
    (idx : ℕ) (f : SetFile) (b b' : Builder) → Built b → collect_file idx f b ≡ ok b' → Built b'
unfolding collect_file slice
collect_file-Built idx f b b' built h =
    let opened = open_file f.cst b in
    let words = package_words f.cst.segs f.cst.top.items in
    let enter = λ (mark : ℕ).
      enter_package words (record { ns = ns_root; seg_start = mark; seg_len = 0 }) opened in
    let (mark, e, r) =
      >>=-eq-ok (seg_mark opened) (λ m. walk_tops idx f.cst.top.items (enter m).0 (enter m).1) h in
    let marked = seg_mark_lem opened mark e in
    let opened_built = open_file-Built f.cst b built in
    let size : mark + 0 - mark ≡ 0 = omega arith in
    let nothing : words_at opened.sema.seg_arena mark 0 ≡ [] = rw size refl in
    let scope : Scope = record { ns = ns_root; seg_start = mark; seg_len = 0 } in
    let entering : IsEntering scope opened = (
      (
        omega (arith, marked),
        opened_built.1.root,
        subst (Trail opened.sema.ns_nodes ns_root) (sym nothing) top,
      ),
      omega (arith, marked),
    ) in
    let (entered, (in_scope, ends)) =
      enter_package-Built words scope opened opened_built entering in
    (walk_tops-Kept idx f.cst.top.items (enter mark).0 (enter mark).1 b' (tt, in_scope) entered
      r).built

collect_from-Built :
    (fs : List SetFile) (idx : ℕ) (b b' : Builder)
    → Built b
    → collect_from fs idx b ≡ ok b'
    → Built b'
unfolding collect_from
collect_from-Built [] idx b b' built h = let e : b ≡ b' = cc in subst Built e built
collect_from-Built (f ∷ fs) idx b b' built h =
    let (c, e, r) = >>=-eq-ok (collect_file idx f b) _ h in
    collect_from-Built fs (suc idx) c b' (collect_file-Built idx f b c built e) r

pub collect_symbols-Built :
    (fileset : FileSet) (b b' : Builder) → Built b → collect_symbols fileset b ≡ ok b' → Built b'
unfolding collect_symbols
collect_symbols-Built fileset b b' built h = collect_from-Built fileset.files 0 b b' built h
