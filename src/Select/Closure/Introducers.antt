-- ===== src/Select/Closure/Introducers.antt =====
-- src/select.rs: following the introducers of symbols, as `conflict_error` does, comes to an end.
use pbpp.Prelude.{
  ℕ, zero, suc, ◌+◌, ◌≤◌, ◌<◌, ◌≡◌, ◌∙◌, ◌⊎◌, refl, sym, inl, inr, Bool, true, false, Option, none,
  some, List, [], ◌∷◌, arith, update, ◌==◌, if◌then◌else◌, Bool-cases, Option-cases,
}
use pbpp.Select.Closure.{chain}

-- The ids below `n` that are not used.
pub unused : ℕ → (ℕ → Bool) → ℕ
unused zero p = 0
unused (suc n) p = (if p n then 0 else 1) + unused n p

unused_above : (n : ℕ) (p : ℕ → Bool) (i : ℕ) → n ≤ i → unused n (update p i true) ≡ unused n p
unfolding unused
unused_above zero p i h = refl
unused_above (suc n) p i h = ground (arith, unused_above n p i)

pub unused-update :
    (n : ℕ) (p : ℕ → Bool) (i : ℕ)
    → i < n
    → p i ≡ false
    → suc (unused n (update p i true)) ≡ unused n p
unfolding unused
unused-update zero p i h e = elim h [ ]
unused-update (suc n) p i h e = elim (Bool-cases (i == n)) [
  | inl top ↦
      let eq : i ≡ n = ground arith in
      rw eq (let e' : p n ≡ false = rw eq at e in ground (arith, unused_above n p n))
  | inr low ↦ ground (arith, unused-update n p i)
]

-- From `i`, no more than `k` introducers follow each other.
pub Ends : (ℕ → Option ℕ) → ℕ → ℕ → Type 0
Ends introduced zero i = introduced i ≡ none
Ends introduced (suc k) i =
    (introduced i ≡ none) ⊎ ((j : ℕ) × (introduced i ≡ some j) × Ends introduced k j)

Ends-suc : (introduced : ℕ → Option ℕ) (k i : ℕ) → Ends introduced k i → Ends introduced (suc k) i
unfolding Ends
Ends-suc introduced zero i h = inl h
Ends-suc introduced (suc k) i (inl e) = inl e
Ends-suc introduced (suc k) i (inr (j, e, h)) = inr (j, e, Ends-suc introduced k j h)

Ends-chain :
    (introduced : ℕ → Option ℕ) (k last c : ℕ)
    → Ends introduced k c
    → (r : List (ℕ × ℕ) × ℕ) × (chain (suc k) introduced last (some c) ≡ some r)
unfolding Ends chain
Ends-chain introduced zero last c h = (((last, c) ∷ [], c), rw h)
Ends-chain introduced (suc k) last c (inl e) = (((last, c) ∷ [], c), rw e)
Ends-chain introduced (suc k) last c (inr (j, e, h)) =
    let ((links, end), done) = Ends-chain introduced k c j h in
    (((last, c) ∷ links, end), rw (e, done))

-- The symbols used so far: `used` has them all, and introducers are among them.
pub record IsTraced (n : ℕ) (introduced : ℕ → Option ℕ) (used : ℕ → Bool) (size : ℕ) : Type 0 where
  pub counted : size + unused n used ≡ n
  pub from_used : (i j : ℕ) → introduced i ≡ some j → used i ≡ true
  pub to_used : (i j : ℕ) → introduced i ≡ some j → used j ≡ true
  pub ends : (i : ℕ) → used i ≡ true → Ends introduced size i

pub unused-blank : (n : ℕ) → unused n (λ _. false) ≡ n
unfolding unused
unused-blank zero = refl
unused-blank (suc n) = omega (arith, unused-blank n)

pub IsTraced-blank : (n : ℕ) → IsTraced n (λ _. none) (λ _. false) 0
IsTraced-blank n = record {
  counted = omega (arith, unused-blank n);
  from_used = λ i j e. cc;
  to_used = λ i j e. cc;
  ends = λ i e. cc;
}

-- The introducer of a symbol, or that there is none.
abbrev pub IsUsed : (ℕ → Bool) → Option ℕ → Type 0
IsUsed used by = (j : ℕ) → by ≡ some j → used j ≡ true

module _ (n : ℕ) (introduced : ℕ → Option ℕ) (used : ℕ → Bool) (size : ℕ) where
  pub IsTraced-chain :
      (last : ℕ) (by : Option ℕ)
      → IsTraced n introduced used size
      → IsUsed used by
      → (r : List (ℕ × ℕ) × ℕ) × (chain (suc n) introduced last by ≡ some r)
  unfolding chain
  IsTraced-chain last none t known = (_, refl)
  IsTraced-chain last (some c) t known =
      Ends-chain introduced n last c (more (unused n used) size t.counted (t.ends c (known c refl)))
    where
      more : (d k : ℕ) → k + d ≡ n → Ends introduced k c → Ends introduced n c
      more zero k e h = let eq : k ≡ n = omega (arith, e) in rw (← eq) h
      more (suc d) k e h = more d (suc k) (omega (arith, e)) (Ends-suc introduced k c h)

  apart : (x i : ℕ) → used x ≡ false → used i ≡ true → (x == i) ≡ false
  apart x i new old = elim (Bool-cases (x == i)) [
    | inr other ↦ other
    | inl same ↦
        let eq : x ≡ i = ground arith in let clash : true ≡ false = sym old ∙ rw eq at new in cc
  ]

  Ends-update :
      (x : ℕ) (by : Option ℕ)
      → IsTraced n introduced used size
      → used x ≡ false
      → (k i : ℕ) → used i ≡ true
      → Ends introduced k i
      → Ends (update introduced x by) k i
  unfolding Ends
  Ends-update x by t new zero i old h =
      let other : (x == i) ≡ false = apart x i new old in rw other h
  Ends-update x by t new (suc k) i old (inl e) =
      let other : (x == i) ≡ false = apart x i new old in inl (rw other e)
  Ends-update x by t new (suc k) i old (inr (j, e, h)) =
      let other : (x == i) ≡ false = apart x i new old in
      inr (j, rw other e, Ends-update x by t new k j (t.to_used i j e) h)

  -- A symbol that was not used gets an introducer that was, or none.
  pub IsTraced-update :
      (x : ℕ) (by : Option ℕ)
      → IsTraced n introduced used size
      → x < n
      → used x ≡ false
      → IsUsed used by
      → IsTraced n (update introduced x by) (update used x true) (suc size)
  unfolding Ends
  IsTraced-update x by t l new known = record {
    counted = omega (arith, t.counted, unused-update n used x l new);
    from_used = λ i j e. elim (Bool-cases (x == i)) [
      | inl same ↦ rw same
      | inr other ↦ rw other (t.from_used i j (rw other at e))
    ];
    to_used = λ i j e. grown j (elim (Bool-cases (x == i)) [
      | inl same ↦ known j (rw same at e)
      | inr other ↦ t.to_used i j (rw other at e)
    ]);
    ends = λ i e. elim (Bool-cases (x == i)) [
      | inr other ↦
          let old : used i ≡ true = rw other at e in
          Ends-suc (update introduced x by) size i
            (Ends-update x by t new size i old (t.ends i old))
      | inl same ↦
          let eq : x ≡ i = ground arith in
          elim (Option-cases by) [
            | inl root ↦ inl (rw (same, root) refl)
            | inr (j, is) ↦
                let old = known j is in
                inr (j, rw (same, is) refl, Ends-update x by t new size j old (t.ends j old))
          ]
    ];
  }
    where
      grown : (j : ℕ) → used j ≡ true → update used x true j ≡ true
      grown j e = elim (Bool-cases (x == j)) [ inl same ↦ rw same | inr other ↦ rw other e ]
