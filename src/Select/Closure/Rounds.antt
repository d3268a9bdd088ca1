-- ===== src/Select/Closure/Rounds.antt =====
-- src/select.rs: the seeding loop and the queue's loop.
use pbpp.Prelude.{
  ℕ, zero, suc, ◌+◌, ◌≤◌, ◌<◌, ◌≡◌, refl, inl, inr, Bool, true, false, not, ◌&&◌, none, some, List,
  [], ◌∷◌, arith, ltb, Bool-cases, In, ok, >>=-eq-ok, List-cases,
}
use pbpp.Sema.Symbols.{Sema, sym, sym_count, IsWellFormed}
use pbpp.Select.Mark.{explicit}
use pbpp.Select.Decide.{Decision, is_none}
use pbpp.Select.Closure.{State, keep, keeps, process, seed, drain, blank, close}
use pbpp.Select.Closure.Reached.{selected}
use pbpp.Select.Closure.Invariant.{Held, Inv, Settled, Grows-refl, Grows-trans}
use pbpp.Select.Closure.Keep.{keep-IsKept}
use pbpp.Select.Closure.Process.{IsFine, process_lem}

module _ (sema : Sema) (decision : ℕ → Decision) (wf : IsWellFormed sema) where
  -- A symbol of the input that a rule keeps.
  abbrev pub is_seed : ℕ → Bool
  is_seed i = not (is_none (sym sema i).file) && keeps (decision i)

  pub seed_lem :
      (n i : ℕ) (st st' : State)
      → i + n ≤ sym_count sema
      → Inv sema decision st
      → Settled sema decision none st
      → seed sema decision n i st ≡ ok st'
      → IsFine sema decision wf none st st'
        × ((j : ℕ) → i ≤ j → j < i + n → is_seed j ≡ true → Held st' j explicit)
  unfolding seed
  seed_lem zero i st st' bound v s h =
      let e : st ≡ st' = cc in
      rw (← e) (
        record { inv = v; settled = s; grows = Grows-refl sema decision st },
        λ j a b is. absurd (omega arith),
      )
  seed_lem (suc n) i st st' bound v s h = elim (Bool-cases (is_seed i)) [
    | inr other ↦
        let (fine, held) = seed_lem n (suc i) st st' (omega arith) v s (rw other at h) in
        (fine, λ j a b is. held j (later j a other is) (omega arith) is)
    | inl this ↦
        let (mid, first, rest) =
          >>=-eq-ok (keep sema decision i explicit none st) (seed sema decision n (suc i))
            (rw this at h) in
        let k =
          keep-IsKept sema decision wf none i explicit none st mid (omega arith)
            (selected (omega arith) (ground arith) (ground arith)) v s first in
        let (fine, held) = seed_lem n (suc i) mid st' (omega arith) k.inv k.settled rest in
        (
          record {
            inv = fine.inv;
            settled = fine.settled;
            grows = Grows-trans sema decision k.grows fine.grows;
          },
          λ j a b is. elim (Bool-cases (ltb i j)) [
            | inl above ↦ held j (ground arith) (omega arith) is
            | inr at ↦ let e : i ≡ j = ground arith in rw (← e) (fine.grows.held i explicit k.held)
          ],
        )
  ]
    where
      later : (j : ℕ) → i ≤ j → is_seed i ≡ false → is_seed j ≡ true → suc i ≤ j
      later j a off on = elim (Bool-cases (ltb i j)) [
        | inl above ↦ ground arith
        | inr at ↦ let e : i ≡ j = ground arith in let off' = rw e at off in cc
      ]

  pub popped-Settled :
      (st : State) (sid : ℕ) (rest : List ℕ)
      → st.queue ≡ sid ∷ rest
      → Settled sema decision none st
      → Settled sema decision (some sid) (record st { queue = rest })
  popped-Settled st sid rest e s i p = elim (s i p) [
    | inl waits ↦ elim (let m : In i (sid ∷ rest) = rw e at waits in m) [
      | inl this ↦ inr (inl (rw this))
      | inr other ↦ inl other
    ]
    | inr (inl work) ↦ cc
    | inr (inr done) ↦ inr (inr (record { contents = done.contents; targets = done.targets }))
  ]

  pub popped-Inv :
      (st : State) (sid : ℕ) (rest : List ℕ)
      → st.queue ≡ sid ∷ rest
      → Inv sema decision st
      → Inv sema decision (record st { queue = rest })
  popped-Inv st sid rest e v = record {
    up_closed = v.up_closed;
    full = v.full;
    clean = v.clean;
    cascaded = v.cascaded;
    sound = v.sound;
    sound_queue = λ i m. v.sound_queue i (rw e (inr m));
    sound_container = v.sound_container;
  }

  -- The queue's loop ends with an empty queue, and all that was ever queued is settled.
  drain_lem :
      (f : ℕ) (st st' : State)
      → Inv sema decision st
      → Settled sema decision none st
      → drain sema decision f st ≡ ok st'
      → IsFine sema decision wf none st st' × (st'.queue ≡ [])
  unfolding drain
  drain_lem zero st st' v s h = elim (List-cases st.queue) [
    | inl empty ↦
        let e : ok st ≡ ok st' = rw (empty, drain) at h in
        let e' : st ≡ st' = cc in
        rw (← e') (record { inv = v; settled = s; grows = Grows-refl sema decision st }, empty)
    | inr (sid, rest, more) ↦ let no_fuel = rw (more, drain) at h in cc
  ]
  drain_lem (suc f) st st' v s h = elim (List-cases st.queue) [
    | inl empty ↦
        let e : ok st ≡ ok st' = rw (empty, drain) at h in
        let e' : st ≡ st' = cc in
        rw (← e') (record { inv = v; settled = s; grows = Grows-refl sema decision st }, empty)
    | inr (sid, rest, more) ↦
        let (mid, first, later) =
          >>=-eq-ok (process sema decision sid (record st { queue = rest })) (drain sema decision f)
            (rw (more, drain) at h) in
        let one =
          process_lem sema decision wf sid (record st { queue = rest }) mid
            (v.sound_queue sid (rw more (inl refl))) (popped-Inv st sid rest more v)
            (popped-Settled st sid rest more s) first in
        let (fine, empty) = drain_lem f mid st' one.inv one.settled later in
        (
          record {
            inv = fine.inv;
            settled = fine.settled;
            grows = record {
              held = λ c level k. fine.grows.held c level (one.grows.held c level k);
            };
          },
          empty,
        )
  ]

  -- What the closure returns: an invariant state with nothing left to do, in which every symbol
  -- that a rule keeps is kept explicitly, or dropped by a cascade.
  pub record IsClosed (st : State) : Type 0 where
    pub inv : Inv sema decision st
    pub settled : Settled sema decision none st
    pub empty : st.queue ≡ []
    pub seeds : (j : ℕ) → j < sym_count sema → is_seed j ≡ true → Held st j explicit

  pub blank-Inv : Inv sema decision blank
  blank-Inv = record {
    up_closed = λ i p e m. absurd (omega arith);
    full = λ i m. absurd (omega arith);
    clean = λ i m. absurd (omega arith);
    cascaded = λ i e. cc;
    sound = λ i m. absurd (omega arith);
    sound_queue = λ i m. absurd m;
    sound_container = λ i m. absurd (omega arith);
  }

  pub close-IsClosed : (st : State) → close sema decision ≡ ok st → IsClosed st
  unfolding close
  close-IsClosed st h =
      let (mid, first, later) =
        >>=-eq-ok (seed sema decision (sym_count sema) 0 blank)
          (drain sema decision (sym_count sema)) h in
      let (seeded, held) =
        seed_lem (sym_count sema) 0 blank mid (omega arith) blank-Inv (λ i e. cc) first in
      let (fine, empty) = drain_lem (sym_count sema) mid st seeded.inv seeded.settled later in
      record {
        inv = fine.inv;
        settled = fine.settled;
        empty = empty;
        seeds = λ j b is. fine.grows.held j explicit (held j (omega arith) (omega arith) is);
      }
