-- ===== src/Tests/Canon.antt =====
-- Runs of the canonicalisation pass (src/middleend/ir_canon.c).
use baa.Base.{◌≡◌, refl, false, true, some, [], ◌∷◌}
use baa.Ir.Types.{IrType}
use baa.Ir.Inst.{IrOp, IrCmpPred, IrInst, IrFunc, IrModule}
use baa.Canon.{ir_canon_func, ir_canon_run}
use baa.Canon.Value.{FuncReordered, canon_func-FuncReordered}
use baa.Canon.Stable.{canon_run_idem}
use baa.Tests.Programs.{const_of_type, reg_of_type, make_inst, make_func, ret_inst}

-- %1 = add i8 5, %0
abbrev add_const : IrInst
add_const =
    make_inst IrOp.add IrType.i8 0 (some 1)
      (const_of_type 5 IrType.i8 ∷ reg_of_type 0 IrType.i8 ∷ [])

-- %2 = cmp lt 9, %1
abbrev less_const : IrInst
less_const =
    record (make_inst IrOp.cmp IrType.i1 1 (some 2)
      (const_of_type 9 IrType.i8 ∷ reg_of_type 1 IrType.i8 ∷ [])) { cmp_pred = IrCmpPred.lt }

abbrev unordered_func : IrFunc
unordered_func = make_func (add_const ∷ less_const ∷ ret_inst ∷ [])

abbrev unordered_module : IrModule
unordered_module = record { funcs = unordered_func ∷ [] }

unordered_changes : (ir_canon_func unordered_func).1 ≡ true
unfolding ir_canon_func baa.Canon.canon_body
unordered_changes = refl

canon_func-FuncReordered_example : FuncReordered unordered_func (ir_canon_func unordered_func).0
canon_func-FuncReordered_example = canon_func-FuncReordered unordered_func

canon_run_idem_example :
    ir_canon_run (ir_canon_run unordered_module).0 ≡ ((ir_canon_run unordered_module).0, false)
canon_run_idem_example = canon_run_idem unordered_module
