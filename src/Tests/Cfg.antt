-- ===== src/Tests/Cfg.antt =====
-- Runs of the check of the control-flow graph (src/middleend/ir_analysis.c).
use baa.Base.{◌≡◌, ◌↔◌, refl, true, false, [], ◌∷◌}
use baa.Ir.Inst.{IrModule}
use baa.Cfg.{ir_module_validate_cfg}
use baa.Cfg.Valid.{AllValid, validate_cfg_iff}
use baa.Tests.Programs.{make_func, test_func, cmp_inst}

-- A function that returns, and one whose block stops short.
abbrev returning_module : IrModule
returning_module = record { funcs = test_func ∷ [] }

abbrev open_module : IrModule
open_module = record { funcs = test_func ∷ make_func (cmp_inst ∷ []) ∷ [] }

returning_checks :
    (ir_module_validate_cfg returning_module ≡ true) × (ir_module_validate_cfg open_module ≡ false)
unfolding ir_module_validate_cfg baa.Cfg.ir_func_validate_cfg
returning_checks = (refl, refl)

validate_cfg_iff_example :
    (ir_module_validate_cfg returning_module ≡ true) ↔ AllValid returning_module.funcs
validate_cfg_iff_example = validate_cfg_iff returning_module
