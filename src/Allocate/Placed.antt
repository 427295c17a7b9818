-- ===== src/Allocate/Placed.antt =====
-- What becomes of the virtual registers in operands (src/backend/regalloc_rewrite.c, after
-- src/backend/regalloc_linear_scan.c).
use mathlib.Core.List.{Permᴰ}
use baa.Base.{
  ℕ, ◌+◌, ◌≤◌, ◌≡◌, ◌≢◌, refl, sym, ◌∙◌, ◌⊎◌, inl, inr, Bool, true, false, ◌&&◌, List, [], ◌∷◌,
  ◌==◌, ==_iff, leb, Bool-cases, arith,
}
use baa.Base.Int.{ℤ, pos, negsuc}
use baa.Machine.{MachineOp, MachineOperandData, MachineOperand, MachineInst, MachineFunc}
use baa.RegAlloc.Convention.{CallingConv, phys_none, rbp, one_of, reg_free_at_start, alloc_order}
use baa.RegAlloc.Step.{LiveInterval, ScanState}
use baa.RegAlloc.Safe.{InOrder, linear_scan-StateInv}
use baa.RegAlloc.Frame.{linear_scan-IsPlaced}
use baa.Liveness.{regalloc_compute_liveness}
use baa.Intervals.{regalloc_build_intervals}
use baa.Intervals.Once.{Perm-length}
use baa.Intervals.Interfere.{Result}
use baa.Allocate.{
  rewrite_data, fix_mem_base, below_rbp, scan_func, max_vreg_of, call_positions, rewrite_insts,
}

-- A register that the allocator may give out: it stands in its order and no convention keeps it.
abbrev pub may_give : CallingConv → ℕ → Bool
may_give conv r = reg_free_at_start conv r && one_of r alloc_order

-- A register that may be given out, or a slot of the frame beyond the locals.
abbrev pub is_place : CallingConv → ℕ → ℕ → MachineOperandData → Bool
is_place conv base top (MachineOperandData.vreg (pos n)) = may_give conv n
is_place conv base top (MachineOperandData.mem (pos r) (negsuc n)) =
    r == rbp && (leb (base + 8) (n + 1) && leb (n + 1) top)
is_place conv base top _ = false

-- An address whose base is a register that may be given out.
abbrev pub is_address : CallingConv → MachineOperandData → Bool
is_address conv (MachineOperandData.mem (pos r) offset) = may_give conv r
is_address conv _ = false

abbrev operand : MachineOperandData → MachineOperand
operand p = record { payload = p; size_bits = 64 }

-- The load of R11 from the slot that many bytes below RBP.
abbrev pub load_r11 : ℕ → MachineInst
load_r11 offset = record {
  op = MachineOp.load;
  dst = operand (MachineOperandData.vreg (pos 11));
  src1 = operand (MachineOperandData.mem (pos rbp) (below_rbp offset));
  src2 = record { payload = MachineOperandData.nothing; size_bits = 0 };
}

-- What becomes of an address with the base v: it gets the register of v, with nothing inserted, or v
-- has a slot; then R11 is loaded from the slot in front and is the base, but when the instruction
-- uses R11 already, nothing is done.
abbrev pub BaseOutcome : CallingConv → ℕ → ℕ → ScanState → ℕ → ℤ → Type 0
BaseOutcome conv max_vreg base s v offset =
    let op = operand (MachineOperandData.mem (pos v) offset) in
    ((s.vreg_spilled v ≡ false)
      × (fix_mem_base max_vreg s false op ≡ ([], op, false))
      × (fix_mem_base max_vreg s true op ≡ ([], op, true))
      × (rewrite_data conv max_vreg s op.payload
          ≡ MachineOperandData.mem (pos (s.vreg_to_phys v)) offset)
      × (is_address conv (rewrite_data conv max_vreg s op.payload) ≡ true))
    ⊎ ((s.vreg_spilled v ≡ true)
        × (rewrite_insts conv max_vreg s (fix_mem_base max_vreg s false op).0
            ≡ load_r11 (s.vreg_spill_offset v) ∷ [])
        × (is_place conv base s.next_spill_offset
              (MachineOperandData.mem (pos rbp) (below_rbp (s.vreg_spill_offset v)))
            ≡ true)
        × (rewrite_data conv max_vreg s (fix_mem_base max_vreg s false op).1.payload
            ≡ MachineOperandData.mem (pos 11) offset)
        × ((fix_mem_base max_vreg s false op).2 ≡ true)
        × (fix_mem_base max_vreg s true op ≡ ([], op, true)))

-- The maps of results give the register v a place.
abbrev pub HasPlace : CallingConv → ℕ → ScanState → ℕ → Type 0
HasPlace conv base s v =
    ((s.vreg_spilled v ≡ false)
      × (s.vreg_to_phys v ≢ phys_none)
      × (may_give conv (s.vreg_to_phys v) ≡ true))
    ⊎ ((s.vreg_spilled v ≡ true)
        × (base + 8 ≤ s.vreg_spill_offset v)
        × (s.vreg_spill_offset v ≤ s.next_spill_offset))

pub different_lem : (a b : ℕ) → a ≢ b → (a == b) ≡ false
different_lem a b other = elim (Bool-cases (a == b)) [
  | inl e ↦ absurd (other ((==_iff a b).0 e))
  | inr e ↦ e
]

module _ (sort : List LiveInterval → List LiveInterval) (conv : CallingConv)
    (func : MachineFunc) where
  abbrev bound : ℕ
  bound = max_vreg_of func

  abbrev pub func_intervals : List LiveInterval
  func_intervals =
      regalloc_build_intervals bound (regalloc_compute_liveness bound func.blocks).0 func.blocks

  module _ (order : InOrder (sort func_intervals)) where
    pub Result-HasPlace :
        (perm : Permᴰ (sort func_intervals) func_intervals) (v q : ℕ)
        → Result sort conv
            (call_positions 1 func.blocks)
            bound
            func.stack_size
            func.blocks
            order
            perm
            v
            q
        → HasPlace conv func.stack_size (scan_func sort conv func) v
    Result-HasPlace perm v q (j, inside, _, _, _, (phys, spilled, slot)) =
        let calls = call_positions 1 func.blocks in
        let same = Perm-length perm in
        let p = (scan_func sort conv func).placements j in
        elim (linear_scan-IsPlaced sort conv calls bound func.stack_size func_intervals order same j
          inside) [
            | inl (real, kept) ↦
                let fit =
                  ((linear_scan-StateInv sort conv calls bound func.stack_size func_intervals order
                      same).1.fits
                    j inside real) in
                let both : may_give conv p.phys_reg ≡ true = rw (fit.0, fit.2) refl in
                inl (spilled ∙ kept, (λ e. real (sym phys ∙ e)), rw phys both)
            | inr (none, on_stack, low, high) ↦ inr (
              spilled ∙ on_stack,
              omega (arith, slot on_stack, low),
              omega (arith, slot on_stack, high),
            )
          ]
