-- ===== src/Sema/Lookup/Agrees.antt =====
-- src/sema.rs: the scan of `lookup_fq` and the index of the builder agree.
use pbpp.Prelude.{
  ℕ, zero, suc, ◌+◌, ◌<◌, ◌≡◌, ◌∙◌, refl, sym, ap, subst, inl, inr, ◌↔◌, true, Bool-cases, ◌&&◌,
  ◌==◌, Option, none, some, List, [], ◌∷◌, arith, drop, length,
}
use pbpp.Text.{Text, text_eq, split, join}
use pbpp.Text.Laws.{AllFree, split-join}
use pbpp.Cst.Nodes.{Word}
use pbpp.Sema.Symbols.{Sema, NsNode, sym_count, segs, fq}
use pbpp.Sema.Build.{ns_root, node, find_ns}
use pbpp.Sema.Build.Invariant.{node_at}
use pbpp.Sema.Build.Names.{IsTree, key_same, key_self, top}
use pbpp.Sema.Resolve.{descend, descend_syms}
use pbpp.Sema.Resolve.Steps.{after, descend-after, named_at, descend_syms-named_at}
use pbpp.Sema.Resolve.ByName.{IsNameTable, texts, descend_syms-segs}
use pbpp.Sema.Lookup.{scan, scan_down, lookup_fq}

scan-some :
    (ns : List NsNode) (i p n : ℕ) (t : Text)
    → scan ns i p t ≡ some n
    → (k : ℕ) × (n ≡ i + k)
      × (k < length ns)
      × ((node_at ns k).parent ≡ p)
      × ((node_at ns k).name ≡ t)
unfolding scan
scan-some [] i p n t e = cc
scan-some (x ∷ ns) i p n t e = elim (Bool-cases (x.parent == p && text_eq x.name t)) [
  | inl hit ↦
      let same : some i ≡ some n = rw hit at e in
      let here : i ≡ n = cc in
      let (parent, name) = key_same x.parent p x.name t hit in
      (0, omega (arith, here), omega arith, parent, name)
  | inr other ↦
      let (k, at_k, l, parent, name) = scan-some ns (suc i) p n t (rw other at e) in
      (suc k, omega (arith, at_k), omega (arith, l), parent, name)
]

scan-none :
    (ns : List NsNode) (i p k : ℕ) (t : Text)
    → scan ns i p t ≡ none
    → k < length ns
    → (node_at ns k).parent ≡ p
    → (node_at ns k).name ≡ t
    → ⊥
unfolding scan
scan-none [] i p k t e l parent name = absurd (omega arith)
scan-none (x ∷ ns) i p zero t e l parent name =
    let hit : (x.parent == p && text_eq x.name t) ≡ true =
      (λ j. parent j == p && text_eq (name j) t) ∙ key_self p t in
    let clash : some i ≡ none = rw hit at e in cc
scan-none (x ∷ ns) i p (suc k) t e l parent name =
    elim (Bool-cases (x.parent == p && text_eq x.name t)) [
      | inl hit ↦ let clash : some i ≡ none = rw hit at e in cc
      | inr other ↦ scan-none ns (suc i) p k t (rw other at e) (omega arith) parent name
    ]

-- The scan finds what the index holds.
scan-find_ns :
    (ns : List NsNode) (index : List ((ℕ × Text) × ℕ)) (p : ℕ) (t : Text)
    → IsTree ns index
    → scan (drop 1 ns) 1 p t ≡ find_ns index p t
scan-find_ns [] index p t tree = absurd (omega (arith, tree.root))
scan-find_ns (x ∷ xs) index p t tree = agree (scan xs 1 p t) refl (find_ns index p t) refl
  where
    no_match : (n : ℕ) → scan xs 1 p t ≡ none → find_ns index p t ≡ some n → ⊥
    no_match zero missed found = absurd (omega (arith, (tree.listed p 0 t found).0))
    no_match (suc k) missed found =
        let (pos, l, parent, name) = tree.listed p (suc k) t found in
        scan-none xs 1 p k t missed (omega (arith, l)) parent name

    agree :
        (a : Option ℕ)
        → scan xs 1 p t ≡ a
        → (b : Option ℕ) → find_ns index p t ≡ b
        → scan xs 1 p t ≡ find_ns index p t
    agree none ea none eb = ea ∙ sym eb
    agree none ea (some n) eb = absurd (no_match n ea eb)
    agree (some n) ea b eb =
        let (k, at_k, l, parent, name) = scan-some xs 1 p n t ea in
        let hit : find_ns index p t ≡ some (suc k) =
          subst (λ (q : ℕ). find_ns index q t ≡ some (suc k)) parent
            (subst (λ (u : Text). find_ns index (node_at xs k).parent u ≡ some (suc k)) name
              (tree.found_at (suc k) (omega arith) (omega (arith, l)))) in
        let same : n ≡ suc k = omega (arith, at_k) in ea ∙ ap some same ∙ sym hit

-- A word that stands anywhere.
abbrev word_of : Text → Word
word_of t = record { text = t; span = record { start = 0; end = 0 } }

abbrev words_of : List Text → List Word
words_of [] = []
words_of (s ∷ ss) = word_of s ∷ words_of ss

texts-words_of : (ss : List Text) → texts (words_of ss) ≡ ss
texts-words_of [] = refl
texts-words_of (s ∷ ss) = ap (λ (l : List Text). s ∷ l) (texts-words_of ss)

module _ (sema : Sema) (tree : IsTree sema.ns_nodes sema.ns_index) where
  scan_down-descend : (m : ℕ) (ss : List Text) → scan_down sema m ss ≡ descend sema m (words_of ss)
  unfolding scan_down descend
  scan_down-descend m [] = refl
  scan_down-descend m (s ∷ ss) =
      opened (λ next. scan_down-descend next ss) (scan (drop 1 sema.ns_nodes) 1 m s)
      ∙ ap (λ (o : Option ℕ). after sema o (words_of ss))
          (scan-find_ns sema.ns_nodes sema.ns_index m s tree)
      ∙ sym (descend-after sema m (word_of s) (words_of ss) (find_ns sema.ns_index m s) refl)
    where
      opened :
          ((next : ℕ) → scan_down sema next ss ≡ descend sema next (words_of ss))
          → (o : Option ℕ)
          → elim o [ none ↦ none | some next ↦ scan_down sema next ss ] ≡ after sema o (words_of ss)
      opened ih none = unfold after in refl
      opened ih (some next) = unfold after in ih next

  lookup_fq-descend_syms :
      (fq : Text) → lookup_fq sema fq ≡ descend_syms sema ns_root (words_of (split b'.' fq))
  unfolding lookup_fq named_at
  lookup_fq-descend_syms fq =
      opened (scan_down sema ns_root (split b'.' fq))
      ∙ ap (named_at sema) (scan_down-descend ns_root (split b'.' fq))
      ∙ sym (descend_syms-named_at sema ns_root (words_of (split b'.' fq)) _ refl)
    where
      opened :
          (o : Option ℕ) → elim o [ none ↦ none | some ns ↦ (node sema ns).sym ] ≡ named_at sema o
      opened none = refl
      opened (some n) = refl

-- Looking a dotted name up gives exactly the symbol whose segments are its pieces.
pub lookup_fq-segs :
    (sema : Sema)
    → IsNameTable sema
    → (fq : Text) (id : ℕ)
    → (lookup_fq sema fq ≡ some id) ↔ ((id < sym_count sema) × (segs sema id ≡ split b'.' fq))
lookup_fq-segs sema h fq id =
    let words = words_of (split b'.' fq) in
    let same = lookup_fq-descend_syms sema h.tree fq in
    let (there, back) = descend_syms-segs sema ns_root id [] words h top in
    let pieces = texts-words_of (split b'.' fq) in
    (
      λ e. (let (l, named) = there (sym same ∙ e) in (l, named ∙ pieces)),
      λ (l, named). same ∙ back (l, named ∙ sym pieces),
    )

-- A symbol is looked up by its own name, where no segment holds a dot.
pub lookup_fq-fq :
    (sema : Sema)
    → IsNameTable sema
    → (id : ℕ) (s : Text) (ss : List Text) → id < sym_count sema
    → segs sema id ≡ s ∷ ss
    → AllFree b'.' (s ∷ ss)
    → lookup_fq sema (fq sema id) ≡ some id
unfolding fq
lookup_fq-fq sema h id s ss l named free = (lookup_fq-segs sema h (fq sema id) id).1 (
  l,
  named ∙ sym (ap (λ (q : List Text). split b'.' (join b'.' q)) named ∙ split-join b'.' s ss free),
)
