-- ===== src/Tests/Blocks.antt =====
-- Runs of the edits of a block (src/middleend/ir_mutate.c) and of the chains of uses
-- (src/middleend/ir_defuse.c).
use baa.Base.{◌<◌, refl, none, some, [], ◌∷◌}
use baa.Ir.Types.{IrType}
use baa.Ir.Inst.{IrOp, IrInst, IrBlock, IrFunc}
use baa.Ir.Mutate.{ir_block_insert_phi}
use baa.DefUse.{Place, ir_defuse_build}
use baa.DefUse.Complete.{defuse_build_complete}
use mathlib.Core.List.{Mem}
use baa.Ir.Phis.{AllOrdered, insert_phi-AllOrdered}
use baa.Tests.Programs.{
  make_inst, make_func, make_block, add_inst, ret_inst, cmp_inst, test_func, reg_of_type,
}

-- A phi that stands in a block, and one that is to be inserted.
abbrev old_phi : IrInst
old_phi = make_inst IrOp.phi IrType.i8 1 (some 1) []

abbrev new_phi : IrInst
new_phi = record (make_inst IrOp.phi IrType.i8 3 (some 2) []) { id = none }

abbrev phi_func : IrFunc
phi_func = make_func (old_phi ∷ add_inst ∷ ret_inst ∷ [])

phi_func-AllOrdered : AllOrdered phi_func.blocks
phi_func-AllOrdered = ((refl, ((1, refl), ((0, refl), ((2, refl), tt)))), tt)

insert_phi-AllOrdered_example : AllOrdered (ir_block_insert_phi 0 new_phi phi_func).blocks
insert_phi-AllOrdered_example = insert_phi-AllOrdered 0 new_phi phi_func refl phi_func-AllOrdered

abbrev phi_block : IrBlock
phi_block = make_block (old_phi ∷ add_inst ∷ ret_inst ∷ [])

defuse_build_complete_example :
    (0 < (ir_defuse_build test_func).max_reg)
    × Mem
        (record { inst = some 1; place = Place.operand 0 })
        ((ir_defuse_build test_func).uses_by_reg 0)
defuse_build_complete_example =
    defuse_build_complete test_func 1 cmp_inst (Place.operand 0) (reg_of_type 0 IrType.i8) 0 refl
      refl refl
