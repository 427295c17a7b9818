-- ===== src/Tests/ConstFold.antt =====
-- Runs of the constant-folding pass (src/middleend/ir_constfold.c).
use mathlib.Core.Option
use mathlib.Core.Option.{some-injective}
use baa.Base.{
  ℕ, ◌^◌, ◌-◌, ◌<◌, ◌≡◌, ◌↔◌, ap, sym, refl, ◌∙◌, Bool, true, false, Option, none, some, List, [],
  ◌∷◌, arith,
}
use baa.Base.Word.{IsWord}
use baa.Ir.Types.{IrType}
use baa.Ir.Inst.{IrOp, IrInst, IrFunc}
use baa.Ir.Eval.{arith_value}
use baa.ConstFold.{Folded, ir_try_fold_inst, trunc_wrap_to_type, try_fold_arith, eval_cmp}
use baa.ConstFold.Pass.{ir_constfold_func, ir_constfold_run}
use baa.ConstFold.Trunc.{IsCanonical, trunc-IsCanonical_iff}
use baa.ConstFold.Arith.{fold_arith_value}
use baa.ConstFold.Inst.{IsComputed, try_fold_inst-IsComputed}
use baa.ConstFold.Preserves.{constfold_run_unchanged}
use baa.Tests.Programs.{add_inst, const_of_type, test_func, settled_module}

abbrev first_inst : IrFunc → Option IrInst
first_inst f = elim f.blocks [ [] ↦ none | b ∷ _ ↦ elim b.insts [ [] ↦ none | i ∷ _ ↦ some i ] ]

-- The pass folds both the sum and the comparison that reads it, and leaves the return.
test_func-folded :
    Option.map (λ (i : IrInst). i.operands) (first_inst (ir_constfold_func test_func).0)
    ≡ some (const_of_type 1 IrType.i1 ∷ [])
unfolding ir_constfold_func baa.ConstFold.fold_op baa.ConstFold.fold_arith baa.ConstFold.is_int_type
    baa.ConstFold.arith_folded try_fold_arith baa.Ir.Mutate.ir_block_remove_inst
    baa.ConstFold.fold_cmp baa.ConstFold.new_const_for_type trunc_wrap_to_type eval_cmp
    baa.Base.Word.add64
test_func-folded = refl

abbrev add_folded : Folded
add_folded = record { reg = 0; type = some IrType.i8; value = 44 }

add_inst-folds : ir_try_fold_inst add_inst ≡ some add_folded
unfolding ir_try_fold_inst baa.ConstFold.fold_op baa.ConstFold.fold_arith baa.ConstFold.is_int_type
    baa.ConstFold.arith_folded try_fold_arith trunc_wrap_to_type baa.Base.Word.add64
add_inst-folds = refl

try_fold_inst-IsComputed_example : IsComputed add_inst add_folded
try_fold_inst-IsComputed_example =
    try_fold_inst-IsComputed add_inst add_folded (omega arith, (omega arith, tt)) tt add_inst-folds

-- -7 / 2 at i64 is -3.
fold_arith_value_example :
    Option.map
      (λ v. trunc_wrap_to_type v (some IrType.i64))
      (try_fold_arith IrOp.div (some IrType.i64) (2 ^ 64 - 7) 2)
    ≡ arith_value IrOp.div IrType.i64 (2 ^ 64 - 7) 2
fold_arith_value_example =
    fold_arith_value IrOp.div IrType.i64 (2 ^ 64 - 7) 2 refl (omega arith) (omega arith)

trunc-IsCanonical_iff_example :
    IsCanonical IrType.i8 (trunc_wrap_to_type 300 (some IrType.i8))
    × ((trunc_wrap_to_type 300 (some IrType.i8) ≡ 300) ↔ IsCanonical IrType.i8 300)
trunc-IsCanonical_iff_example = trunc-IsCanonical_iff IrType.i8 300 (omega arith)

settled_module-unfolded : (ir_constfold_run settled_module).1 ≡ false
unfolding ir_constfold_run
settled_module-unfolded = refl

constfold_run_unchanged_example : (ir_constfold_run settled_module).0 ≡ settled_module
constfold_run_unchanged_example = constfold_run_unchanged settled_module settled_module-unfolded
