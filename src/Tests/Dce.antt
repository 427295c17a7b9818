-- ===== src/Tests/Dce.antt =====
-- Runs of the removal of dead instructions (src/middleend/ir_dce.c).
use baa.Base.{◌≡◌, refl, none, false, some, true, [], ◌∷◌, length}
use baa.Ir.Types.{IrType}
use baa.Ir.Inst.{IrOp, IrInst, IrFunc}
use baa.Dce.{ir_func_dce_instructions}
use baa.Dce.Trim.{Trimmed}
use baa.Dce.Sweeps.{all_insts}
use baa.Dce.Work.{dce_instructions-Trimmed}
use baa.Dce.Done.{AllNeeded, dce_instructions-AllNeeded}
use baa.Dce.Flag.{dce_instructions-same}
use baa.Tests.Programs.{test_func, const_of_type, reg_of_type, make_inst, make_func}

-- %1 = copy %0, which nothing reads
abbrev copy_inst : IrInst
copy_inst = make_inst IrOp.copy IrType.i8 1 (some 1) (reg_of_type 0 IrType.i8 ∷ [])

-- %0 = add i8 1, 2
abbrev sum_inst : IrInst
sum_inst =
    make_inst IrOp.add IrType.i8 0 (some 0)
      (const_of_type 1 IrType.i8 ∷ const_of_type 2 IrType.i8 ∷ [])

abbrev last_inst : IrInst
last_inst = make_inst IrOp.ret IrType.i8 2 none (const_of_type 0 IrType.i8 ∷ [])

abbrev idle_func : IrFunc
idle_func = make_func (sum_inst ∷ copy_inst ∷ last_inst ∷ [])

-- The sum goes after the copy, its only reader.
idle_shrinks :
    (length (all_insts (ir_func_dce_instructions idle_func).0) ≡ 1)
    × ((ir_func_dce_instructions idle_func).1 ≡ true)
unfolding ir_func_dce_instructions baa.Dce.has_effects baa.Dce.sweep
idle_shrinks = (refl, refl)

dce_instructions-Trimmed_example :
    Trimmed
      (sum_inst ∷ copy_inst ∷ last_inst ∷ [])
      (all_insts (ir_func_dce_instructions idle_func).0)
dce_instructions-Trimmed_example = dce_instructions-Trimmed idle_func

dce_instructions-AllNeeded_example :
    AllNeeded 2
      (all_insts (ir_func_dce_instructions idle_func).0)
      (all_insts (ir_func_dce_instructions idle_func).0)
dce_instructions-AllNeeded_example = dce_instructions-AllNeeded idle_func 0 refl refl

test_func_live : (ir_func_dce_instructions test_func).1 ≡ false
unfolding ir_func_dce_instructions baa.Dce.has_effects baa.Dce.sweep
test_func_live = refl

dce_instructions-same_example : (ir_func_dce_instructions test_func).0 ≡ test_func
dce_instructions-same_example = dce_instructions-same test_func test_func_live
