-- ===== src/Sema/Imports/Public.antt =====
-- src/sema.rs: `reach_pub` visits the closure under public imports.
use pbpp.Prelude.{
  ℕ, zero, suc, ◌+◌, ◌≤◌, ◌<◌, ◌≡◌, refl, sym, subst, inl, inr, ◌⊎◌, ◌↔◌, true, false, List, [],
  ◌∷◌, ◌++◌, arith, length, ◌==◌, if◌then◌else◌, Bool-cases, In, In-append,
}
use pbpp.Text.{Text}
use pbpp.Sema.Imports.{Row, row_of, Provided, has_file, reach_all, reach_pub, provides_of}

pub has_file_iff : (fs : List ℕ) (f : ℕ) → (has_file fs f ≡ true) ↔ In f fs
has_file_iff [] f = ground arith
has_file_iff (x ∷ fs) f = ground (arith, has_file_iff fs f)

module _ (rows : List Row) where
  -- The files that `f` passes on: itself, and those along chains of public imports.
  pub data Publishes (f : ℕ) : ℕ → Type 0 where
    itself : Publishes f f
    onward : {g h : ℕ} → Publishes f g → In h (row_of rows g).public → Publishes f h

  Publishes-from : {f g h : ℕ} → In g (row_of rows f).public → Publishes g h → Publishes f h
  Publishes-from m itself = onward itself m
  Publishes-from m (onward p q) = onward (Publishes-from m p) q

  -- The well-known paths are those of the files visited.
  abbrev IsFull : Provided → Type 0
  IsFull (files, wkts) =
      (w : Text) → In w wkts ↔ ((g : ℕ) × In g files × In w (row_of rows g).public_wkt)

  -- Public imports name input files.
  abbrev pub IsClosedSet : Type 0
  IsClosedSet = (g h : ℕ) → In h (row_of rows g).public → h < length rows

  -- How many of the first `n` files are not visited.
  abbrev unseen : ℕ → List ℕ → ℕ
  unseen zero fs = 0
  unseen (suc n) fs = unseen n fs + (if has_file fs n then 0 else 1)

  unseen_mono : (n : ℕ) (fs gs : List ℕ) → ((x : ℕ) → In x fs → In x gs) → unseen n gs ≤ unseen n fs
  unseen_mono zero fs gs h = omega arith
  unseen_mono (suc n) fs gs h =
      ground (arith, unseen_mono n fs gs h, has_file_iff fs n, has_file_iff gs n, h n)

  unseen_visit :
      (n f : ℕ) (fs : List ℕ)
      → f < n
      → has_file fs f ≡ false
      → suc (unseen n (f ∷ fs)) ≤ unseen n fs
  unseen_visit zero f fs h new = absurd (omega arith)
  unseen_visit (suc n) f fs h new = elim (Bool-cases (f == n)) [
    | inl here ↦
        let e : f ≡ n = ground arith in
        let gone : has_file fs n ≡ false = rw (← e) new in
        rw (here, gone) (omega (arith, unseen_mono n fs (f ∷ fs) (λ x m. inr m)))
    | inr below ↦ rw below (ground (arith, unseen_visit n f fs (ground arith) new))
  ]

  -- A visit from the state `st` ends in `st'`.
  pub record Visits (f : ℕ) (st st' : Provided) : Type 0 where
    pub more : (g : ℕ) → In g st.0 → In g st'.0
    pub closed :
        (g : ℕ) → In g st'.0 → In g st.0 ⊎ ((h : ℕ) → In h (row_of rows g).public → In h st'.0)
    pub sound : (g : ℕ) → In g st'.0 → In g st.0 ⊎ Publishes f g
    pub full : IsFull st → IsFull st'

  abbrev VisitsAll : ℕ → List ℕ → Provided → Provided → Type 0
  VisitsAll f ps st st' =
      ((g : ℕ) → In g st.0 → In g st'.0)
      × ((p : ℕ) → In p ps → In p st'.0)
      × ((g : ℕ) → In g st'.0 → In g st.0 ⊎ ((h : ℕ) → In h (row_of rows g).public → In h st'.0))
      × ((g : ℕ) → In g st'.0 → In g st.0 ⊎ Publishes f g)
      × (IsFull st → IsFull st')

  -- What a call with enough fuel does, as an argument of the loop over the imports.
  abbrev Works : ℕ → (ℕ → Provided → Provided) → Type 0
  Works k call =
      (f : ℕ) (st : Provided)
      → f < length rows
      → unseen (length rows) st.0 ≤ k
      → Visits f st (call f st) × In f (call f st).0

  reach_all_lem :
      (k : ℕ) (call : ℕ → Provided → Provided)
      → Works k call
      → (f : ℕ) (ps : List ℕ) (st : Provided) → ((p : ℕ) → In p ps → In p (row_of rows f).public)
      → ((p : ℕ) → In p ps → p < length rows)
      → unseen (length rows) st.0 ≤ k
      → VisitsAll f ps st (reach_all call ps st)
  reach_all_lem k call works f [] st sub known fuel =
      (λ g m. m, λ p m. absurd m, λ g m. inl m, λ g m. inl m, λ h. h)
  reach_all_lem k call works f (p ∷ ps) st sub known fuel =
      let (one, has) = works p st (known p (inl refl)) fuel in
      let mid = call p st in
      let still = unseen_mono (length rows) st.0 mid.0 one.more in
      let (more, all, closed, sound, full) =
        reach_all_lem k call works f ps mid (λ q m. sub q (inr m)) (λ q m. known q (inr m))
          (omega (arith, still)) in
      (
        λ g m. more g (one.more g m),
        λ q m. elim m [
          | inl e ↦ more q (subst (λ (x : ℕ). In x mid.0) (sym e) has)
          | inr later ↦ all q later
        ],
        λ g m. elim (closed g m) [
          | inr onward_all ↦ inr onward_all
          | inl in_mid ↦ elim (one.closed g in_mid) [
            | inl old ↦ inl old
            | inr onward_mid ↦ inr (λ h i. more h (onward_mid h i))
          ]
        ],
        λ g m. elim (sound g m) [
          | inr reached ↦ inr reached
          | inl in_mid ↦ elim (one.sound g in_mid) [
            | inl old ↦ inl old
            | inr reached ↦ inr (Publishes-from (sub p (inl refl)) reached)
          ]
        ],
        λ h. full (one.full h),
      )

  IsFull-visit :
      (f : ℕ) (files : List ℕ) (wkts : List Text)
      → IsFull (files, wkts)
      → IsFull (f ∷ files, (row_of rows f).public_wkt ++ wkts)
  IsFull-visit f files wkts full w = (
    λ m. elim ((In-append w (row_of rows f).public_wkt wkts).0 m) [
      | inl own ↦ (f, inl refl, own)
      | inr old ↦ let (g, m2, i) = (full w).0 old in (g, inr m2, i)
    ],
    λ (g, m, i). elim m [
      | inl e ↦
          (In-append w (row_of rows f).public_wkt wkts).1
            (inl (subst (λ (x : ℕ). In w (row_of rows x).public_wkt) e i))
      | inr old ↦ (In-append w (row_of rows f).public_wkt wkts).1 (inr ((full w).1 (g, old, i)))
    ],
  )

  Visits-old : (f : ℕ) (st : Provided) → In f st.0 → Visits f st st × In f st.0
  Visits-old f st m =
      (record { more = λ g i. i; closed = λ g i. inl i; sound = λ g i. inl i; full = λ h. h }, m)

  Visits-new :
      (k f : ℕ) (files : List ℕ) (wkts : List Text) (call : ℕ → Provided → Provided)
      → IsClosedSet
      → Works k call
      → f < length rows
      → unseen (length rows) files ≤ suc k
      → has_file files f ≡ false
      → (let visited =
            reach_all call (row_of rows f).public (f ∷ files, (row_of rows f).public_wkt ++ wkts) in
          Visits f (files, wkts) visited × In f visited.0)
  Visits-new k f files wkts call known works below fuel new =
      let mid : Provided = (f ∷ files, (row_of rows f).public_wkt ++ wkts) in
      let (more, all, closed, sound, full) =
        reach_all_lem k call works f (row_of rows f).public mid (λ p m. m) (known f)
          (omega (arith, unseen_visit (length rows) f files below new)) in
      (
        record {
          more = λ g m. more g (inr m);
          closed = λ g m. elim (closed g m) [
            | inr onward_all ↦ inr onward_all
            | inl (inr old) ↦ inl old
            | inl (inl e) ↦ inr (λ h i. all h (subst (λ (x : ℕ). In h (row_of rows x).public) e i))
          ];
          sound = λ g m. elim (sound g m) [
            | inr reached ↦ inr reached
            | inl (inr old) ↦ inl old
            | inl (inl e) ↦ inr (subst (Publishes f) (sym e) itself)
          ];
          full = λ h. full (IsFull-visit f files wkts h);
        },
        more f (inl refl),
      )

  reach_pub_lem : (k : ℕ) → IsClosedSet → Works k (reach_pub rows k)
  unfolding reach_pub
  reach_pub_lem zero known f (files, wkts) below fuel = elim (Bool-cases (has_file files f)) [
    | inl old ↦ Visits-old f (files, wkts) ((has_file_iff files f).0 old)
    | inr new ↦ absurd (omega (arith, unseen_visit (length rows) f files below new))
  ]
  reach_pub_lem (suc k) known f (files, wkts) below fuel = elim (Bool-cases (has_file files f)) [
    | inl old ↦ rw old (Visits-old f (files, wkts) ((has_file_iff files f).0 old))
    | inr new ↦
        rw new (
          Visits-new k f files wkts (reach_pub rows k) known (reach_pub_lem k known) below fuel new)
  ]

  unseen_none : (n : ℕ) → unseen n [] ≤ n
  unseen_none zero = omega arith
  unseen_none (suc n) = omega (arith, unseen_none n)

  Publishes-closed :
      (f : ℕ) (fs : List ℕ)
      → In f fs
      → ((g : ℕ) → In g fs → (h : ℕ) → In h (row_of rows g).public → In h fs)
      → (g : ℕ) → Publishes f g
      → In g fs
  Publishes-closed f fs m closed g itself = m
  Publishes-closed f fs m closed g (onward {g = g2} p i) =
      closed g2 (Publishes-closed f fs m closed g2 p) g i

  -- A file provides the files that it reaches along public imports, itself among them, and the
  -- well-known paths that one of these imports publicly; public imports may run in cycles.
  pub provides_of-Publishes :
      (f : ℕ)
      → IsClosedSet
      → f < length rows
      → ((g : ℕ) → In g (provides_of rows f).0 ↔ Publishes f g)
        × ((w : Text)
            → In w (provides_of rows f).1
              ↔ ((g : ℕ) × Publishes f g × In w (row_of rows g).public_wkt))
  unfolding provides_of
  provides_of-Publishes f known below =
      let (visits, has) =
        reach_pub_lem (length rows) known f ([], []) below (unseen_none (length rows)) in
      let st = reach_pub rows (length rows) f ([], []) in
      let reached : (g : ℕ) → In g st.0 ↔ Publishes f g = λ g. (
        λ m. elim (visits.sound g m) [ inl old ↦ absurd old | inr p ↦ p ],
        Publishes-closed f st.0 has
            (λ h m. elim (visits.closed h m) [ inl old ↦ absurd old | inr on ↦ on ]) g,
      ) in
      let full = visits.full (λ w. (λ m. absurd m, λ (g, m, i). m)) in
      (
        reached,
        λ w. (
          λ m. let (g, i, own) = (full w).0 m in (g, (reached g).0 i, own),
          λ (g, p, own). (full w).1 (g, (reached g).1 p, own),
        ),
      )
