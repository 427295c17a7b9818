-- ===== src/Tests/Allocate.antt =====
-- Allocation of a function with a loop (src/backend/regalloc_driver.c).
use mathlib.Core.List.{Permᴰ}
use mathlib.Core.List.Permᴰ
use baa.Base.{ℕ, ◌≡◌, refl, ◌≢◌, inl, inr, false, some, List, [], ◌∷◌, ◌&&◌, arith}
use baa.Base.Int.{pos}
use baa.Machine.{MachineOp, MachineOperandData, MachineFunc}
use baa.RegAlloc.Convention.{cc_win_x64, cc_sysv_amd64, one_of, in_mask}
use baa.RegAlloc.Step.{ScanState}
use baa.RegAlloc.{nth, regalloc_linear_scan}
use baa.RegAlloc.Maps.{Agrees, linear_scan-Agrees}
use baa.Liveness.{regalloc_compute_liveness}
use baa.Intervals.Once.{build_intervals-distinct}
use baa.Allocate.{rewrite_data, scan_func, candidates, machine_func_collect_callee_saved}
use baa.Allocate.Saved.{blocks_name, collect_callee_saved_exact}
use baa.Allocate.Apart.{rewrite_apart}
use baa.Tests.RegAlloc.{sort_intervals}
use baa.Tests.Liveness.{
  operand, reg, sum, back, adding, built, adding_ends, built_lem, built-InOrder, built-Perm,
  both_read,
}

abbrev adding_func : MachineFunc
adding_func = record { is_prototype = false; blocks = adding; next_vreg = 2; stack_size = 16 }

abbrev adding_scan : ScanState
adding_scan = scan_func sort_intervals cc_win_x64 adding_func

rewrite_apart_example :
    rewrite_data cc_win_x64 2 adding_scan (MachineOperandData.vreg (pos 0))
    ≢ rewrite_data cc_win_x64 2 adding_scan (MachineOperandData.vreg (pos 1))
rewrite_apart_example =
    rewrite_apart sort_intervals cc_win_x64 adding_func built-InOrder built-Perm adding_ends 1 0 1
      (omega arith) (omega arith) (omega arith) (λ e. omega (arith, e)) [] (back ∷ []) sum refl
      (inr (inl both_read.0)) (inr (inl both_read.1))

abbrev adding_result : ScanState
adding_result = regalloc_linear_scan sort_intervals cc_win_x64 [] 2 16 built

sorted-Perm : Permᴰ (sort_intervals built) built
sorted-Perm = rw built_lem (Permᴰ.refl _)

linear_scan-Agrees_example :
    Agrees adding_result (nth (sort_intervals built) 1).vreg (adding_result.placements 1)
linear_scan-Agrees_example =
    linear_scan-Agrees sort_intervals cc_win_x64 [] 2 16 built built-InOrder (rw built_lem refl)
      (λ j k below_j below_k.
        build_intervals-distinct 2 (regalloc_compute_liveness 2 adding).0 adding
          (sort_intervals built) sorted-Perm j k (rw built_lem (rw built_lem at below_j))
          (rw built_lem (rw built_lem at below_k)))
      1 (rw built_lem (omega arith)) (rw built_lem (omega arith))

-- Reads RBX and an address from R10, and writes R12.
abbrev saving : MachineFunc
saving = record {
  is_prototype = false;
  blocks =
      record {
        id = 0;
        insts =
            record {
              op = MachineOp.add;
              dst = reg 12;
              src1 = reg 3;
              src2 = operand (MachineOperandData.mem (pos 10) (pos 0));
            }
            ∷ [];
        succs = [];
      }
      ∷ [];
  next_vreg = 0;
  stack_size = 0;
}

saving_saves : machine_func_collect_callee_saved cc_sysv_amd64 7 saving ≡ some (3 ∷ 12 ∷ [])
unfolding machine_func_collect_callee_saved
saving_saves = refl

collect_callee_saved_exact_example :
    (out : List ℕ) × (machine_func_collect_callee_saved cc_sysv_amd64 7 saving ≡ some out)
    × ((r : ℕ)
        → one_of r out ≡ (
            one_of r candidates
            && (blocks_name r saving.blocks && in_mask cc_sysv_amd64.callee_saved_mask r)))
collect_callee_saved_exact_example = collect_callee_saved_exact cc_sysv_amd64 7 saving (omega arith)
