-- ===== src/RegAlloc/Frame.antt =====
-- Whole runs of the linear scan (src/backend/regalloc_linear_scan.c): every interval is placed, and
-- those on the stack have slots of their own.
use baa.Base.{
  ℕ, zero, suc, ◌≡◌, refl, sym, ◌≢◌, inl, inr, ◌+◌, ◌<◌, ◌≤◌, true, false, List, arith, length,
}
use baa.RegAlloc.Convention.{CallingConv, phys_none}
use baa.RegAlloc.Step.{
  LiveInterval, ScanState, record_vreg, place_in, spill_to_stack, expire, take_reg, steal_reg,
  assign, scan_step,
}
use baa.RegAlloc.Invariant.{expire-Inv}
use baa.RegAlloc.Rounds.{record_vreg_keeps, StateInv, assign-Outcome, scan_step-StateInv}
use baa.RegAlloc.Safe.{InOrder, InOrder-le, scan_start-StateInv}
use baa.RegAlloc.Slots.{IsPlaced, Separate, Slots, AllBut, put-Slots, push-Slots}
use baa.RegAlloc.{scan_from, scan_start, nth, regalloc_linear_scan}

abbrev pub StateSlots : ℕ → ℕ → ScanState → Type 0
StateSlots base i s = Slots base i s.next_spill_offset s.placements

this_one : (i : ℕ) → AllBut i i (i + 1)
this_one i j below other = ground arith

module _ (conv : CallingConv) (call_pos : List ℕ) (max_vreg : ℕ) (iv : ℕ → LiveInterval)
    (base : ℕ) where
  take_reg-StateSlots :
      (i r : ℕ) (s : ScanState)
      → r ≢ phys_none
      → StateSlots base i s
      → StateSlots base (i + 1) (take_reg conv iv i r s)
  unfolding take_reg place_in
  take_reg-StateSlots i r s real slots =
      put-Slots base i (i + 1) i s.next_spill_offset
        (record (s.placements i) { phys_reg = r; spilled = false }) s.placements (this_one i) real
        refl slots

  spill_to_stack-StateSlots :
      (i i' v : ℕ) (s : ScanState)
      → AllBut v i i'
      → StateSlots base i s
      → StateSlots base i' (spill_to_stack v s)
  unfolding spill_to_stack
  spill_to_stack-StateSlots i i' v s others slots =
      push-Slots base i i' v s.next_spill_offset s.placements others slots

  steal_reg-StateSlots :
      (i victim : ℕ) (s : ScanState)
      → (s.placements victim).phys_reg ≢ phys_none
      → StateSlots base i s
      → StateSlots base (i + 1) (steal_reg conv max_vreg iv i victim s)
  unfolding steal_reg place_in
  steal_reg-StateSlots i victim s real slots =
      let s' = spill_to_stack victim s in
      let p = s'.placements victim in
      let (placements, active, reg_free, next) = record_vreg_keeps max_vreg (iv victim).vreg p s' in
      let s'' = record_vreg max_vreg (iv victim).vreg p s' in
      let pushed : StateSlots base i s' =
        spill_to_stack-StateSlots i i victim s (λ j below other. below) slots in
      put-Slots base i (i + 1) i s''.next_spill_offset
        (record (s''.placements i) { phys_reg = (s.placements victim).phys_reg; spilled = false })
        s''.placements (this_one i) real refl (rw (placements, next) pushed)

  scan_step-StateSlots :
      (i now : ℕ) (s : ScanState)
      → now ≤ (iv i).start
      → StateInv conv call_pos max_vreg iv i now s
      → StateSlots base i s
      → StateSlots base (i + 1) (scan_step conv call_pos max_vreg iv i s)
  unfolding scan_step expire
  scan_step-StateSlots i now s later inv slots =
      let s' = expire iv (iv i).start s in
      let inv' : StateInv conv call_pos max_vreg iv i (iv i).start s' =
        expire-Inv conv call_pos iv i now (iv i).start s.placements s.active s.reg_free later inv in
      let t = assign conv call_pos max_vreg iv i s' in
      let assigned : StateSlots base (i + 1) t =
        elim (assign-Outcome conv call_pos max_vreg iv i s' inv') [
          | inl (r, real, idle, fit, e) ↦ rw e (take_reg-StateSlots i r s' real slots)
          | inr (inl (victim, h, fit, e)) ↦
              let (below, has, busy, real) = inv'.held victim (s'.placements victim).phys_reg h in
              rw e (steal_reg-StateSlots i victim s' real slots)
          | inr (inr e) ↦ rw e (spill_to_stack-StateSlots i (i + 1) i s' (this_one i) slots)
        ] in
      let (placements, active, reg_free, next) =
        record_vreg_keeps max_vreg (iv i).vreg (t.placements i) t in
      rw (placements, next) assigned

  scan_from-StateSlots :
      (count n i now : ℕ) (s : ScanState)
      → i + n ≡ count
      → ((j k : ℕ) → j ≤ k → k < count → (iv j).start ≤ (iv k).start)
      → ((k : ℕ) → i ≤ k → k < count → now ≤ (iv k).start)
      → StateInv conv call_pos max_vreg iv i now s
      → StateSlots base i s
      → StateSlots base count (scan_from conv call_pos max_vreg iv n i s)
  unfolding scan_from
  scan_from-StateSlots count zero i now s whole order later inv slots =
      let all : i ≡ count = omega (arith, whole) in rw (sym all) slots
  scan_from-StateSlots count (suc n) i now s whole order later inv slots =
      let first = later i (omega arith) (omega (arith, whole)) in
      scan_from-StateSlots count n (i + 1) (iv i).start (scan_step conv call_pos max_vreg iv i s)
        (omega (arith, whole)) order (λ k from below. order i k (omega (arith, from)) below)
        (scan_step-StateInv conv call_pos max_vreg iv i now s first inv)
        (scan_step-StateSlots i now s first inv slots)

scan_start-StateSlots :
    (conv : CallingConv) (stack_size : ℕ) → StateSlots stack_size 0 (scan_start conv stack_size)
scan_start-StateSlots conv stack_size = record {
  grown = omega arith;
  each = λ j below. absurd (omega (arith, below));
  apart = λ j k below_j below_k different spilled_j spilled_k. absurd (omega (arith, below_j));
}

module _ (sort : List LiveInterval → List LiveInterval) (conv : CallingConv) (call_pos : List ℕ)
    (max_vreg stack_size : ℕ) (intervals : List LiveInterval) where
  abbrev pub result : ScanState
  result = regalloc_linear_scan sort conv call_pos max_vreg stack_size intervals

  linear_scan-StateSlots :
      InOrder (sort intervals)
      → length (sort intervals) ≡ length intervals
      → StateSlots stack_size (length intervals) result
  unfolding regalloc_linear_scan
  linear_scan-StateSlots order same =
      let iv = nth (sort intervals) in
      scan_from-StateSlots conv call_pos max_vreg iv stack_size (length intervals)
        (length intervals) 0 0 (scan_start conv stack_size) (omega arith)
        (λ j k before below.
          InOrder-le (sort intervals) j k order before (omega (arith, same, below)))
        (λ k from below. omega arith) (scan_start-StateInv conv call_pos max_vreg stack_size iv)
        (scan_start-StateSlots conv stack_size)

  -- After the scan every interval either has a register and no slot, or has no register and a slot
  -- beyond the locals and within the frame, where `sort` orders the intervals by their starts and keeps
  -- their number.
  pub linear_scan-IsPlaced :
      InOrder (sort intervals)
      → length (sort intervals) ≡ length intervals
      → (j : ℕ) → j < length intervals
      → IsPlaced stack_size result.next_spill_offset (result.placements j)
  linear_scan-IsPlaced order same j below = (linear_scan-StateSlots order same).each j below

  -- Two intervals that are spilled have slots at least eight bytes apart, where `sort` orders the
  -- intervals by their starts and keeps their number.
  pub linear_scan-Separate :
      InOrder (sort intervals)
      → length (sort intervals) ≡ length intervals
      → (j k : ℕ) → j < length intervals
      → k < length intervals
      → j ≢ k
      → (result.placements j).spilled ≡ true
      → (result.placements k).spilled ≡ true
      → Separate (result.placements j) (result.placements k)
  linear_scan-Separate order same j k below_j below_k different spilled_j spilled_k =
      (linear_scan-StateSlots order same).apart j k below_j below_k different spilled_j spilled_k
