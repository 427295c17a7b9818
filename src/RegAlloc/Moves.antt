-- ===== src/RegAlloc/Moves.antt =====
-- Spilling an interval and giving one a register keep the invariant of the linear scan
-- (src/backend/regalloc_linear_scan.c).
use baa.Base.{ℕ, ◌≡◌, refl, sym, ◌∙◌, ◌≢◌, ◌⊎◌, inl, inr, ◌+◌, ◌<◌, Bool, false, List, arith, subst}
use baa.RegAlloc.Convention.{CallingConv, phys_none}
use baa.RegAlloc.Step.{LiveInterval, Placement, ActiveEntry, write, insert_active, remove_active}
use baa.RegAlloc.Active.{
  Holds, write_here, write_other, Nat-cases, Holds-insert_active, insert_active_complete,
  insert_active-Distinct, Holds-remove_active, remove_active_complete, remove_active-Distinct,
  remove_active_gone,
}
use baa.RegAlloc.Invariant.{Fits, Inv}

-- An interval with a register is not one that was just spilled.
still_real :
    (placed : ℕ → Placement) (v k : ℕ) (p : Placement)
    → p.phys_reg ≡ phys_none
    → (write placed v p k).phys_reg ≢ phys_none
    → (k ≢ v) × (write placed v p k ≡ placed k)
still_real placed v k p lost real =
    let other : k ≢ v = λ e. real (rw (e, write_here placed v p) lost) in
    (other, write_other placed v k p other)

module _ (conv : CallingConv) (call_pos : List ℕ) (iv : ℕ → LiveInterval) where
  -- The active interval v is spilled.
  pub drop-Inv :
      (i now v : ℕ) (p : Placement)
      → (placed : ℕ → Placement) (entries : List ActiveEntry) (free : ℕ → Bool)
      → p.phys_reg ≡ phys_none
      → Holds v (placed v).phys_reg entries
      → Inv conv call_pos iv i now placed entries free
      → Inv conv call_pos iv i now (write placed v p) (remove_active v entries) free
  drop-Inv i now v p placed entries free lost victim inv = record {
    held = λ j r h.
        let (below, has, busy, real) = inv.held j r (Holds-remove_active v j r entries h) in
        (
          below,
          elim (Nat-cases j v) [
            | inl e ↦ absurd (
                remove_active_gone v (placed v).phys_reg v entries inv.distinct
                  (λ q g. sym (inv.held v q g).1) victim
                  (subst (λ q. Holds v q (remove_active v entries)) (sym has ∙ rw e refl)
                    (rw e at h)))
            | inr other ↦ rw (write_other placed v j p other) has
          ],
          busy,
          real,
        );
    distinct = remove_active-Distinct v entries inv.distinct;
    on = λ j below real.
        let (other, same) = still_real placed v j p lost real in
        rw same (elim (inv.on j below (rw same at real)) [
          | inl h ↦ inl (remove_active_complete v j (placed j).phys_reg entries other h)
          | inr over ↦ inr over
        ]);
    apart = λ j k before below real equal.
        let (other, same) = still_real placed v k p lost real in
        let (other', same') = still_real placed v j p lost (λ e. real (sym equal ∙ e)) in
        inv.apart j k before below (rw same at real) (rw (same, same') at equal);
    fits = λ j below real.
        let (other, same) = still_real placed v j p lost real in
        rw same (inv.fits j below (rw same at real));
    open_at_start = inv.open_at_start;
  }

  -- The interval of this round goes to the stack.
  pub skip-Inv :
      (i now : ℕ) (p : Placement)
      → (placed : ℕ → Placement) (entries : List ActiveEntry) (free : ℕ → Bool)
      → p.phys_reg ≡ phys_none
      → Inv conv call_pos iv i now placed entries free
      → Inv conv call_pos iv (i + 1) now (write placed i p) entries free
  skip-Inv i now p placed entries free lost inv = record {
    held = λ j r h.
        let (below, has, busy, real) = inv.held j r h in
        (
          omega (arith, below),
          rw (write_other placed i j p (λ e. omega (arith, below, e))) has,
          busy,
          real,
        );
    distinct = inv.distinct;
    on = λ j below real.
        let (other, same) = still_real placed i j p lost real in
        rw same (inv.on j (ground arith) (rw same at real));
    apart = λ j k before below real equal.
        let (other, same) = still_real placed i k p lost real in
        let (other', same') = still_real placed i j p lost (λ e. real (sym equal ∙ e)) in
        inv.apart j k before (ground arith) (rw same at real) (rw (same, same') at equal);
    fits = λ j below real.
        let (other, same) = still_real placed i j p lost real in
        rw same (inv.fits j (ground arith) (rw same at real));
    open_at_start = inv.open_at_start;
  }

  -- The interval of this round gets a register that nobody holds.
  pub put-Inv :
      (i r : ℕ) (p : Placement)
      → (placed : ℕ → Placement) (entries : List ActiveEntry) (free : ℕ → Bool) → p.phys_reg ≡ r
      → r ≢ phys_none
      → free r ≡ false
      → ((j : ℕ) → ¬ Holds j r entries)
      → Fits conv call_pos iv i r
      → Inv conv call_pos iv i (iv i).start placed entries free
      → Inv conv call_pos iv
          (i + 1)
          (iv i).start
          (write placed i p)
          (insert_active iv (iv i).stop (record { interval_idx = i; reg = r }) entries)
          free
  put-Inv i r p placed entries free has real busy idle fit inv =
      let earlier : (j : ℕ) → j < i → write placed i p j ≡ placed j =
        λ j below. write_other placed i j p (λ e. omega (arith, below, e)) in
      let this = write_here placed i p in
      let entry : ActiveEntry = record { interval_idx = i; reg = r } in
      let stop = (iv i).stop in
      let older : (j : ℕ) → j < i + 1 → (j ≡ i) ⊎ (j < i) =
        λ j below. elim (Nat-cases j i) [ inl e ↦ inl e | inr e ↦ inr (ground arith) ] in
      record {
        held = λ j q h. elim (Holds-insert_active iv stop j q entry entries h) [
          | inl (idx, reg) ↦ (
            omega (arith, idx),
            rw (sym idx, this) (has ∙ reg),
            rw (sym reg) busy,
            rw (sym reg) real,
          )
          | inr old ↦
              let (below, had, busy_j, real_j) = inv.held j q old in
              (omega (arith, below), rw (earlier j below) had, busy_j, real_j)
        ];
        distinct = insert_active-Distinct iv stop entry entries (idle, inv.distinct);
        on = λ j below real_j. elim (older j below) [
          | inl e ↦ inl (
              insert_active_complete iv stop j _ entry entries
                (inl (sym e, rw (e, this) (sym has))))
          | inr old ↦ rw (earlier j old) (elim (inv.on j old (rw (earlier j old) at real_j)) [
            | inl h ↦ inl (insert_active_complete iv stop j _ entry entries (inr h))
            | inr over ↦ inr over
          ])
        ];
        apart = λ j k before below real_k equal. elim (older k below) [
          | inl e ↦
              let old : j < i = rw e at before in
              let same : (placed j).phys_reg ≡ r = rw (earlier j old, e, this, has) at equal in
              elim (inv.on j old (λ lost. real (sym same ∙ lost))) [
                | inl h ↦ absurd (idle j (rw same at h))
                | inr over ↦ rw e over
              ]
          | inr old ↦
              let prior : j < i = omega (arith, before, old) in
              inv.apart j k before old (rw (earlier k old) at real_k)
                (rw (earlier k old, earlier j prior) at equal)
        ];
        fits = λ j below real_j. elim (older j below) [
          | inl e ↦ rw (e, this, has) fit
          | inr old ↦ rw (earlier j old) (inv.fits j old (rw (earlier j old) at real_j))
        ];
        open_at_start = inv.open_at_start;
      }
