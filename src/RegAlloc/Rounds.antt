-- ===== src/RegAlloc/Rounds.antt =====
-- A round of the linear scan (src/backend/regalloc_linear_scan.c) keeps its invariant.
use baa.Base.{
  ℕ, ◌≡◌, refl, sym, ◌∙◌, ◌≢◌, ◌⊎◌, inl, inr, ◌+◌, ◌≤◌, true, false, List, Bool-cases, ltb, ◌==◌,
  ==_iff,
}
use baa.RegAlloc.Convention.{CallingConv, phys_none, alloc_order}
use baa.RegAlloc.Step.{
  LiveInterval, Placement, ScanState, write, interval_crosses_call, find_reg, pick_spill,
  record_vreg, place_in, spill_to_stack, expire, take_reg, remove_active, steal_reg, assign,
  scan_step,
}
use baa.RegAlloc.Active.{Holds, write_here}
use baa.RegAlloc.Active.{remove_active_gone}
use baa.RegAlloc.Choice.{find_reg_lem, find_reg-one_of, pick_spill_lem}
use baa.RegAlloc.Invariant.{Fits, Inv, expire-Inv, claim-Inv}
use baa.RegAlloc.Moves.{drop-Inv, skip-Inv, put-Inv}

-- The maps of results are no part of what the scan reads.
pub record_vreg_keeps :
    (max_vreg vreg : ℕ) (p : Placement) (s : ScanState)
    → ((record_vreg max_vreg vreg p s).placements ≡ s.placements)
      × ((record_vreg max_vreg vreg p s).active ≡ s.active)
      × ((record_vreg max_vreg vreg p s).reg_free ≡ s.reg_free)
      × ((record_vreg max_vreg vreg p s).next_spill_offset ≡ s.next_spill_offset)
unfolding record_vreg
record_vreg_keeps max_vreg vreg p s = elim (Bool-cases (ltb vreg max_vreg)) [
  | inl e ↦ rw e (refl, refl, refl, refl)
  | inr e ↦ rw e (refl, refl, refl, refl)
]

module _ (conv : CallingConv) (call_pos : List ℕ) (max_vreg : ℕ) (iv : ℕ → LiveInterval) where
  abbrev pub StateInv : ℕ → ℕ → ScanState → Type 0
  StateInv i now s = Inv conv call_pos iv i now s.placements s.active s.reg_free

  record_vreg-StateInv :
      (i now vreg : ℕ) (p : Placement) (s : ScanState)
      → StateInv i now s
      → StateInv i now (record_vreg max_vreg vreg p s)
  record_vreg-StateInv i now vreg p s inv =
      let (placements, active, reg_free, next) = record_vreg_keeps max_vreg vreg p s in
      rw (placements, active, reg_free) inv

  take_reg-StateInv :
      (i r : ℕ) (s : ScanState)
      → r ≢ phys_none
      → s.reg_free r ≡ true
      → Fits conv call_pos iv i r
      → StateInv i (iv i).start s
      → StateInv (i + 1) (iv i).start (take_reg conv iv i r s)
  unfolding take_reg place_in
  take_reg-StateInv i r s real idle fit inv =
      put-Inv conv call_pos iv i r (record (s.placements i) { phys_reg = r; spilled = false })
        s.placements s.active (write s.reg_free r false) refl real (write_here s.reg_free r false)
        (λ j h. let (below, has, busy, other) = inv.held j r h in cc (busy, idle)) fit
        (claim-Inv conv call_pos iv i (iv i).start r s.placements s.active s.reg_free inv)

  spill_to_stack-StateInv :
      (i now : ℕ) (s : ScanState) → StateInv i now s → StateInv (i + 1) now (spill_to_stack i s)
  unfolding spill_to_stack
  spill_to_stack-StateInv i now s inv =
      skip-Inv conv call_pos iv i now
        (record { phys_reg = phys_none; spilled = true; spill_offset = s.next_spill_offset + 8 })
        s.placements s.active s.reg_free refl inv

  -- The victim is on the stack and has left the active intervals.
  robbed : ℕ → ScanState → ScanState
  robbed victim s =
      let s' = spill_to_stack victim s in
      let s'' = record_vreg max_vreg (iv victim).vreg (s'.placements victim) s' in
      record s'' { active = remove_active victim s''.active }

  robbed-StateInv :
      (i now victim : ℕ) (s : ScanState)
      → Holds victim (s.placements victim).phys_reg s.active
      → StateInv i now s
      → StateInv i now (robbed victim s)
  unfolding robbed spill_to_stack
  robbed-StateInv i now victim s h inv =
      let s' = spill_to_stack victim s in
      let p = s'.placements victim in
      let (placements, active, reg_free, next) = record_vreg_keeps max_vreg (iv victim).vreg p s' in
      rw (placements, active, reg_free)
        (drop-Inv conv call_pos iv i now victim
          (record { phys_reg = phys_none; spilled = true; spill_offset = s.next_spill_offset + 8 })
          s.placements s.active s.reg_free refl h inv)

  robbed_idle :
      (i now victim j : ℕ) (s : ScanState)
      → Holds victim (s.placements victim).phys_reg s.active
      → StateInv i now s
      → ¬ Holds j (s.placements victim).phys_reg (robbed victim s).active
  unfolding robbed spill_to_stack
  robbed_idle i now victim j s h inv g =
      let s' = spill_to_stack victim s in
      let (placements, active, reg_free, next) =
        record_vreg_keeps max_vreg (iv victim).vreg (s'.placements victim) s' in
      remove_active_gone victim (s.placements victim).phys_reg j s.active inv.distinct
        (λ q k. sym (inv.held victim q k).1) h (rw active at g)

  steal_reg-StateInv :
      (i victim : ℕ) (s : ScanState)
      → Holds victim (s.placements victim).phys_reg s.active
      → Fits conv call_pos iv i (s.placements victim).phys_reg
      → StateInv i (iv i).start s
      → StateInv (i + 1) (iv i).start (steal_reg conv max_vreg iv i victim s)
  unfolding steal_reg place_in robbed
  steal_reg-StateInv i victim s h fit inv =
      let r = (s.placements victim).phys_reg in
      let (below, has, busy, real) = inv.held victim r h in
      let s' = robbed victim s in
      let s'' = spill_to_stack victim s in
      let (placements, active, reg_free, next) =
        record_vreg_keeps max_vreg (iv victim).vreg (s''.placements victim) s'' in
      put-Inv conv call_pos iv i r (record (s'.placements i) { phys_reg = r; spilled = false })
        s'.placements s'.active s'.reg_free refl real (rw reg_free busy)
        (λ j. robbed_idle i (iv i).start victim j s h inv) fit
        (robbed-StateInv i (iv i).start victim s h inv)

  -- A round takes a free register, robs an active interval or spills its own.
  abbrev pub Outcome : ℕ → ScanState → ScanState → Type 0
  Outcome i s t =
      ((r : ℕ) × (r ≢ phys_none)
        × (s.reg_free r ≡ true)
        × Fits conv call_pos iv i r
        × (t ≡ take_reg conv iv i r s))
      ⊎ ((victim : ℕ) × Holds victim (s.placements victim).phys_reg s.active
          × Fits conv call_pos iv i (s.placements victim).phys_reg
          × (t ≡ steal_reg conv max_vreg iv i victim s))
      ⊎ (t ≡ spill_to_stack i s)

  pub assign-Outcome :
      (i : ℕ) (s : ScanState)
      → StateInv i (iv i).start s
      → Outcome i s (assign conv call_pos max_vreg iv i s)
  unfolding assign
  assign-Outcome i s inv =
      let crosses = interval_crosses_call (iv i) call_pos in
      let assigned = find_reg conv crosses s.reg_free alloc_order in
      let victim = pick_spill conv crosses iv i (iv i).stop s.active in
      elim (Bool-cases (assigned == phys_none)) [
        | inr found ↦
            let real : assigned ≢ phys_none = λ e. cc (found, (==_iff assigned phys_none).1 e) in
            let (idle, may) = find_reg_lem conv crosses s.reg_free alloc_order real in
            let there = find_reg-one_of conv crosses s.reg_free alloc_order real in
            inl (assigned, real, idle, (inv.open_at_start assigned idle, may, there), rw found refl)
        | inl full ↦ elim (Bool-cases (victim == i)) [
          | inl self ↦ inr (inr (rw (full, self) refl))
          | inr other ↦ elim (pick_spill_lem conv crosses iv i (iv i).stop victim s.active refl) [
            | inl same ↦ absurd (cc (other, (==_iff victim i).1 same))
            | inr (r, h, may) ↦
                let (below, has, busy, real) = inv.held victim r h in
                let (at_start, _, there) = inv.fits victim below (λ e. real (sym has ∙ e)) in
                inr (inl (victim, rw has h, (at_start, rw has may, there), rw (full, other) refl))
          ]
        ]
      ]

  assign-StateInv :
      (i : ℕ) (s : ScanState)
      → StateInv i (iv i).start s
      → StateInv (i + 1) (iv i).start (assign conv call_pos max_vreg iv i s)
  assign-StateInv i s inv = elim (assign-Outcome i s inv) [
    | inl (r, real, idle, fit, e) ↦ rw e (take_reg-StateInv i r s real idle fit inv)
    | inr (inl (victim, h, fit, e)) ↦ rw e (steal_reg-StateInv i victim s h fit inv)
    | inr (inr e) ↦ rw e (spill_to_stack-StateInv i (iv i).start s inv)
  ]

  pub scan_step-StateInv :
      (i now : ℕ) (s : ScanState)
      → now ≤ (iv i).start
      → StateInv i now s
      → StateInv (i + 1) (iv i).start (scan_step conv call_pos max_vreg iv i s)
  unfolding scan_step expire
  scan_step-StateInv i now s later inv =
      let s' = expire iv (iv i).start s in
      let t = assign conv call_pos max_vreg iv i s' in
      record_vreg-StateInv (i + 1) (iv i).start (iv i).vreg (t.placements i) t (
        assign-StateInv i s' (
          expire-Inv conv call_pos iv i now (iv i).start s.placements s.active s.reg_free later
            inv))
