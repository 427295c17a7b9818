-- ===== src/Allocate/Apart.antt =====
-- Registers that are live at one place become different operands (src/backend/regalloc_driver.c).
use mathlib.Core.List.{Perm}
use mathlib.Core.HLevel.{¬_prop}
use mathlib.Core.Logic.{∥∥₁_elim}
use baa.Base.{
  ℕ, ◌+◌, ◌-◌, ◌≤◌, ◌<◌, ◌≡◌, ◌≢◌, refl, sym, ◌∙◌, ap, inl, inr, Bool, true, false, List, ◌∷◌, ◌++◌,
  leb, lt→ltb, arith, length,
}
use baa.Base.Int.{pos, negsuc}
use baa.Machine.{MachineOperandData, MachineInst, MachineFunc}
use baa.RegAlloc.Convention.{CallingConv, phys_none, rbp}
use baa.RegAlloc.Step.{LiveInterval, ScanState}
use baa.RegAlloc.Safe.{InOrder}
use baa.Liveness.{block_at, regalloc_compute_liveness}
use baa.Intervals.{inst_count}
use baa.Intervals.Cover.{start_of}
use baa.Intervals.Occupied.{Occupies, Occupies-Spans}
use baa.Intervals.Interfere.{Spans-Result, Overlap, live_registers_apart}
use baa.Allocate.{rewrite_data, scan_func, max_vreg_of, call_positions}
use baa.Allocate.Placed.{HasPlace, different_lem, func_intervals, Result-HasPlace}

-- The number in a place.
abbrev place_number : MachineOperandData → ℕ
place_number (MachineOperandData.vreg (pos n)) = n
place_number (MachineOperandData.mem base (negsuc n)) = n
place_number _ = 0

abbrev is_slot : MachineOperandData → Bool
is_slot (MachineOperandData.mem base offset) = true
is_slot _ = false

module _ (conv : CallingConv) (max_vreg : ℕ) (s : ScanState) where
  abbrev place : ℕ → MachineOperandData
  place v = rewrite_data conv max_vreg s (MachineOperandData.vreg (pos v))

  place_in_reg :
      (v : ℕ)
      → v < max_vreg
      → s.vreg_spilled v ≡ false
      → s.vreg_to_phys v ≢ phys_none
      → place v ≡ MachineOperandData.vreg (pos (s.vreg_to_phys v))
  unfolding rewrite_data
  place_in_reg v below in_reg real =
      rw (lt→ltb v max_vreg below, in_reg, different_lem (s.vreg_to_phys v) phys_none real) refl

  place_on_stack :
      (v : ℕ)
      → v < max_vreg
      → s.vreg_spilled v ≡ true
      → 1 ≤ s.vreg_spill_offset v
      → place v ≡ MachineOperandData.mem (pos rbp) (negsuc (s.vreg_spill_offset v - 0 - 1))
  unfolding rewrite_data
  place_on_stack v below on_stack far =
      let negative : leb (s.vreg_spill_offset v) 0 ≡ false = ground (arith, far) in
      rw (lt→ltb v max_vreg below, on_stack, negative) refl

  module _ (base v w : ℕ) (below_v : v < max_vreg) (below_w : w < max_vreg)
      (regs : s.vreg_to_phys v ≢ phys_none → s.vreg_to_phys v ≢ s.vreg_to_phys w)
      (slots : s.vreg_spilled v ≡ true
        → s.vreg_spilled w ≡ true
        → ¬ Overlap (s.vreg_spill_offset v) (s.vreg_spill_offset w)) where
    HasPlace-apart : HasPlace conv base s v → HasPlace conv base s w → place v ≢ place w
    HasPlace-apart (inl (in_v, real_v, _)) (inl (in_w, real_w, _)) same = regs real_v (
        ap place_number
          (sym (place_in_reg v below_v in_v real_v) ∙ (same ∙ place_in_reg w below_w in_w real_w)))
    HasPlace-apart (inl (in_v, real_v, _)) (inr (on_w, low_w, _)) same = cc (
        ap is_slot (
          sym (place_in_reg v below_v in_v real_v)
          ∙ (same ∙ place_on_stack w below_w on_w (omega (arith, low_w)))))
    HasPlace-apart (inr (on_v, low_v, _)) (inl (in_w, real_w, _)) same = cc (
        ap is_slot (
          sym (place_on_stack v below_v on_v (omega (arith, low_v)))
          ∙ (same ∙ place_in_reg w below_w in_w real_w)))
    HasPlace-apart (inr (on_v, low_v, _)) (inr (on_w, low_w, _)) same =
        let number = ap place_number (
          sym (place_on_stack v below_v on_v (omega (arith, low_v)))
          ∙ (same ∙ place_on_stack w below_w on_w (omega (arith, low_w)))) in
        slots on_v on_w (omega (arith, number, low_v, low_w), omega (arith, number, low_v, low_w))

-- Two different virtual registers that an instruction of a function mentions, or before which they are
-- live, are rewritten to different operands: no register or slot is shared. This holds where `sort` gives
-- the intervals back in the order of their starts and the rounds of the liveness analysis end before
-- their limit.
pub rewrite_apart :
    (sort : List LiveInterval → List LiveInterval) (conv : CallingConv) (func : MachineFunc)
    → InOrder (sort (func_intervals sort conv func))
    → Perm (sort (func_intervals sort conv func)) (func_intervals sort conv func)
    → (regalloc_compute_liveness (max_vreg_of func) func.blocks).1 ≡ false
    → (i v w : ℕ) → i < length func.blocks
    → v < max_vreg_of func
    → w < max_vreg_of func
    → v ≢ w
    → (before after : List MachineInst) (inst : MachineInst)
    → (block_at func.blocks i).insts ≡ before ++ inst ∷ after
    → Occupies (max_vreg_of func) func.blocks i v inst after
    → Occupies (max_vreg_of func) func.blocks i w inst after
    → rewrite_data conv
        (max_vreg_of func)
        (scan_func sort conv func)
        (MachineOperandData.vreg (pos v))
      ≢ rewrite_data conv
          (max_vreg_of func)
          (scan_func sort conv func)
          (MachineOperandData.vreg (pos w))
rewrite_apart sort conv func order perm ended i v w inside below_v below_w other before after inst
      split live_v live_w =
    let bound = max_vreg_of func in
    let calls = call_positions 1 func.blocks in
    let q = start_of 1 func.blocks i + inst_count before in
    let (regs, slots) =
      live_registers_apart sort conv calls bound func.stack_size func.blocks order perm ended i v w
        inside below_v below_w other before after inst split live_v live_w in
    ∥∥₁_elim perm ¬_prop (λ p.
      HasPlace-apart conv bound (scan_func sort conv func) func.stack_size v w below_v below_w regs
        slots
        (Result-HasPlace sort conv func order p v q (
          Spans-Result sort conv calls bound func.stack_size func.blocks order p v q below_v (
            Occupies-Spans bound func.blocks i v ended below_v inside before after inst split
              live_v)))
        (Result-HasPlace sort conv func order p w q (
          Spans-Result sort conv calls bound func.stack_size func.blocks order p w q below_w (
            Occupies-Spans bound func.blocks i w ended below_w inside before after inst split
              live_w))))
