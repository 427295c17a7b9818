-- ===== src/Tests/Liveness.antt =====
-- Liveness, intervals and registers of a loop (src/backend/regalloc_liveness.c and
-- src/backend/regalloc_linear_scan.c).
use mathlib.Core.List.{Perm}
use mathlib.Core.List.Perm
use baa.Base.{ℕ, ◌≡◌, refl, ◌≢◌, inl, inr, true, false, List, [], ◌∷◌, ◌↔◌, arith}
use baa.Base.Int.{pos}
use baa.Machine.{MachineOp, MachineOperandData, MachineOperand, MachineInst, MachineBlock}
use baa.RegAlloc.Convention.{phys_none, cc_win_x64}
use baa.RegAlloc.Step.{LiveInterval, ScanState}
use baa.RegAlloc.Safe.{InOrder}
use baa.Tests.RegAlloc.{sort_intervals}
use baa.Liveness.{block_at, regalloc_compute_liveness}
use baa.Liveness.Exposed.{exposed}
use baa.Liveness.Flow.{LiveIn, LiveOut}
use baa.Liveness.Exact.{compute_liveness_exact}
use baa.Intervals.{regalloc_build_intervals}
use baa.Intervals.Interfere.{allocated, Overlap, live_registers_apart}

abbrev pub operand : MachineOperandData → MachineOperand
operand p = record { payload = p; size_bits = 64 }

abbrev pub reg : ℕ → MachineOperand
reg n = operand (MachineOperandData.vreg (pos n))

abbrev pub imm : ℕ → MachineOperand
imm n = operand (MachineOperandData.imm (pos n))

abbrev pub nothing : MachineOperand
nothing = operand MachineOperandData.nothing

abbrev pub move : ℕ → MachineInst
move n = record { op = MachineOp.mov; dst = reg n; src1 = imm 7; src2 = nothing }

-- %0 = %0 + %1.
abbrev pub sum : MachineInst
sum = record { op = MachineOp.add; dst = reg 0; src1 = reg 0; src2 = reg 1 }

abbrev pub back : MachineInst
back = record {
  op = MachineOp.jmp;
  dst = operand (MachineOperandData.label_id 5);
  src1 = nothing;
  src2 = nothing;
}

-- The block 4 sets %0 and %1, and the block 5 adds them for ever.
abbrev pub adding : List MachineBlock
adding =
    record { id = 4; insts = move 0 ∷ move 1 ∷ []; succs = 5 ∷ [] }
    ∷ record { id = 5; insts = sum ∷ back ∷ []; succs = 5 ∷ [] }
    ∷ []

pub adding_ends : (regalloc_compute_liveness 2 adding).1 ≡ false
unfolding regalloc_compute_liveness baa.Liveness.inst_uses baa.Liveness.is_two_address
    baa.Liveness.two_address_use baa.Liveness.round
adding_ends = refl

compute_liveness_exact_example :
    ((((regalloc_compute_liveness 2 adding).0 1).live_in 1 ≡ true) ↔ LiveIn adding 1 1)
    × ((((regalloc_compute_liveness 2 adding).0 1).live_out 1 ≡ true) ↔ LiveOut adding 1 1)
compute_liveness_exact_example =
    compute_liveness_exact 2 adding adding_ends 1 1 (omega arith) (omega arith)

abbrev pub built : List LiveInterval
built = regalloc_build_intervals 2 (regalloc_compute_liveness 2 adding).0 adding

pub built_lem :
    built ≡ record { vreg = 0; start = 1; stop = 4 } ∷ record { vreg = 1; start = 2; stop = 4 } ∷ []
unfolding regalloc_build_intervals regalloc_compute_liveness baa.Liveness.inst_uses
    baa.Liveness.is_two_address baa.Liveness.two_address_use baa.Intervals.inst_mentions
    baa.Liveness.round
built_lem = refl

pub built-InOrder : InOrder (sort_intervals built)
built-InOrder = rw built_lem (omega arith, tt)

pub built-Perm : Perm (sort_intervals built) built
built-Perm = rw built_lem Perm.rfl

abbrev adding_result : ScanState
adding_result = allocated sort_intervals cc_win_x64 [] 2 0 adding

-- Both %0 and %1 are read by the addition.
pub both_read : (exposed 0 (sum ∷ back ∷ []) ≡ true) × (exposed 1 (sum ∷ back ∷ []) ≡ true)
unfolding baa.Liveness.inst_uses baa.Liveness.is_two_address baa.Liveness.two_address_use
both_read = (refl, refl)

live_registers_apart_example :
    (adding_result.vreg_to_phys 0 ≢ phys_none
      → adding_result.vreg_to_phys 0 ≢ adding_result.vreg_to_phys 1)
    × (adding_result.vreg_spilled 0 ≡ true
        → adding_result.vreg_spilled 1 ≡ true
        → ¬ Overlap (adding_result.vreg_spill_offset 0) (adding_result.vreg_spill_offset 1))
live_registers_apart_example =
    live_registers_apart sort_intervals cc_win_x64 [] 2 0 adding built-InOrder built-Perm
      adding_ends 1 0 1 (omega arith) (omega arith) (omega arith) (λ e. omega (arith, e)) []
      (back ∷ []) sum refl (inr (inl both_read.0)) (inr (inl both_read.1))
