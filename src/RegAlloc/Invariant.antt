-- ===== src/RegAlloc/Invariant.antt =====
-- What holds between two rounds of the linear scan (src/backend/regalloc_linear_scan.c), and the
-- parts of a round that keep it.
use baa.Base.{ℕ, ◌≡◌, sym, ◌∙◌, ◌≢◌, ◌⊎◌, inl, inr, ◌<◌, ◌≤◌, Bool, true, false, List, arith, subst}
use baa.RegAlloc.Convention.{CallingConv, phys_none, reg_free_at_start, one_of, alloc_order}
use baa.RegAlloc.Step.{
  LiveInterval, Placement, ActiveEntry, write, interval_crosses_call, still_active, freed_by,
}
use baa.RegAlloc.Active.{
  Holds, Distinct, write_here, write_other, Nat-cases, Holds-still_active, still_active_complete,
  still_active-Distinct, freed_by_held, freed_by_source,
}
use baa.RegAlloc.Choice.{may_have}

module _ (conv : CallingConv) (call_pos : List ℕ) (iv : ℕ → LiveInterval) where
  -- The register may serve the interval j.
  abbrev pub Fits : ℕ → ℕ → Type 0
  Fits j r =
      (reg_free_at_start conv r ≡ true)
      × (may_have conv (interval_crosses_call (iv j) call_pos) r ≡ true)
      × (one_of r alloc_order ≡ true)

  -- Before the round i, at the position now.
  pub record Inv (i now : ℕ) (placed : ℕ → Placement) (entries : List ActiveEntry) (free : ℕ → Bool)
      : Type 0 where
    pub held :
        (j r : ℕ)
        → Holds j r entries
        → (j < i) × ((placed j).phys_reg ≡ r) × (free r ≡ false) × (r ≢ phys_none)
    pub distinct : Distinct entries
    pub on :
        (j : ℕ)
        → j < i
        → (placed j).phys_reg ≢ phys_none
        → Holds j (placed j).phys_reg entries ⊎ ((iv j).stop < now)
    pub apart :
        (j k : ℕ)
        → j < k
        → k < i
        → (placed k).phys_reg ≢ phys_none
        → (placed j).phys_reg ≡ (placed k).phys_reg
        → (iv j).stop < (iv k).start
    pub fits : (j : ℕ) → j < i → (placed j).phys_reg ≢ phys_none → Fits j (placed j).phys_reg
    pub open_at_start : (r : ℕ) → free r ≡ true → reg_free_at_start conv r ≡ true

  pub expire-Inv :
      (i now t : ℕ) (placed : ℕ → Placement) (entries : List ActiveEntry) (free : ℕ → Bool)
      → now ≤ t
      → Inv i now placed entries free
      → Inv i t placed (still_active iv t entries) (freed_by iv t entries free)
  expire-Inv i now t placed entries free later inv = record {
    held = λ j r h.
        let (below, has, busy, real) = inv.held j r (Holds-still_active iv t j r entries h) in
        (below, has, freed_by_held iv t j r entries free inv.distinct h ∙ busy, real);
    distinct = still_active-Distinct iv t entries inv.distinct;
    on = λ j below real. elim (inv.on j below real) [
      | inl h ↦ still_active_complete iv t j (placed j).phys_reg entries h
      | inr over ↦ inr (omega (arith, over, later))
    ];
    apart = inv.apart;
    fits = inv.fits;
    open_at_start = λ r h. elim (freed_by_source iv t r entries free h) [
      | inl before ↦ inv.open_at_start r before
      | inr (j, h') ↦
          let (below, has, busy, real) = inv.held j r h' in
          subst (λ q. reg_free_at_start conv q ≡ true) has
            (inv.fits j below (λ e. real (sym has ∙ e))).0
    ];
  }

  -- A register is marked as taken.
  pub claim-Inv :
      (i now r : ℕ) (placed : ℕ → Placement) (entries : List ActiveEntry) (free : ℕ → Bool)
      → Inv i now placed entries free
      → Inv i now placed entries (write free r false)
  claim-Inv i now r placed entries free inv = record {
    held = λ j q h.
        let (below, has, busy, real) = inv.held j q h in
        (
          below,
          has,
          elim (Nat-cases q r) [
            | inl e ↦ rw e (write_here free r false)
            | inr other ↦ write_other free r q false other ∙ busy
          ],
          real,
        );
    distinct = inv.distinct;
    on = inv.on;
    apart = inv.apart;
    fits = inv.fits;
    open_at_start = λ q h. elim (Nat-cases q r) [
      | inl e ↦ absurd (cc (write_here free r false, e, h))
      | inr other ↦ inv.open_at_start q (sym (write_other free r q false other) ∙ h)
    ];
  }
