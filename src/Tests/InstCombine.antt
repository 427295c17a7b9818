-- ===== src/Tests/InstCombine.antt =====
-- Runs of the simplification of arithmetic (src/middleend/ir_instcombine.c).
use baa.Base.{ℕ, ◌≡◌, refl, Option, none, some, List, [], ◌∷◌, arith}
use baa.Ir.Types.{IrType}
use baa.Ir.Inst.{IrOp, Name, IrInst}
use baa.Ir.Eval.{inst_value}
use baa.InstCombine.{ic_simplify_arith}
use baa.InstCombine.Sound.{simplify_arith_sound}
use baa.Tests.Programs.{const_of_type, reg_of_type, make_inst, env}

-- %2 = mul i8 %0, 1
abbrev mul_inst : IrInst
mul_inst =
    make_inst IrOp.mul IrType.i8 3 (some 2)
      (reg_of_type 0 IrType.i8 ∷ const_of_type 1 IrType.i8 ∷ [])

-- %2 = copy i8 %0
abbrev mul_copy : IrInst
mul_copy = make_inst IrOp.copy IrType.i8 3 (some 2) (reg_of_type 0 IrType.i8 ∷ [])

-- A copy of a name at its own address, for the example.
abbrev strdup : Name → Name
strdup n = record n { addr = 0 }

mul_inst-simplifies : ic_simplify_arith strdup mul_inst ≡ some mul_copy
unfolding ic_simplify_arith baa.InstCombine.simplify_operands baa.InstCombine.simplify_binary
    baa.InstCombine.ic_copy_of
mul_inst-simplifies = refl

mul_inst-value : inst_value env mul_inst ≡ some 44
unfolding inst_value baa.Ir.Eval.op_value baa.Ir.Eval.payload_value baa.Ir.Eval.arith_value
    baa.Ir.Eval.wrap_to baa.Base.Int.◌*ℤ◌ baa.Ir.Eval.read_as baa.Base.Word.signed64
mul_inst-value = refl

simplify_arith_sound_example : inst_value env mul_copy ≡ some 44
unfolding baa.Ir.Eval.payload_value
simplify_arith_sound_example =
    simplify_arith_sound strdup env mul_inst mul_copy 44 (λ n. refl) tt
      ((44, refl, omega arith), (1, refl, omega arith)) mul_inst-simplifies mul_inst-value
