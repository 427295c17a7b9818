-- ===== src/Tests/Unreachable.antt =====
-- Removal of a block that no other leads to (src/middleend/ir_dce.c).
use baa.Base.{ℕ, ◌≡◌, refl, true, none, some, [], ◌∷◌, ◌↔◌}
use baa.Ir.Types.{IrType}
use baa.Ir.Inst.{IrOp, IrValueData, IrInst, IrBlock, IrFunc}
use baa.RegAlloc.Convention.{one_of}
use baa.Cfg.Edges.{ir_func_rebuild_preds}
use baa.Dce.Blocks.{ir_func_remove_unreachable_blocks}
use baa.Dce.Ids.{block_ids}
use baa.Dce.Successors.{DistinctIds}
use baa.Dce.Ways.{Way}
use baa.Dce.Unreachable.{remove_unreachable_iff}
use baa.Tests.Programs.{make_inst, make_func, ret_inst}

abbrev jump_to : ℕ → IrInst
jump_to n =
    make_inst IrOp.br IrType.void 0 none
      (record { payload = IrValueData.block n; type = none } ∷ [])

abbrev block_of : ℕ → IrInst → IrBlock
block_of n i = record {
  label = none;
  id = n;
  insts = i ∷ [];
  succs = [];
  preds = [];
  idom = none;
  dom_frontier = [];
}

-- The blocks 0 and 1 both go on with the block 2, and 0 is the entry.
abbrev skipping : IrFunc
skipping = record (make_func []) {
  blocks = block_of 0 (jump_to 2) ∷ block_of 1 (jump_to 2) ∷ block_of 2 ret_inst ∷ [];
  entry = some 0;
}

skipping_shrinks : block_ids (ir_func_remove_unreachable_blocks skipping).0.blocks ≡ 0 ∷ 2 ∷ []
unfolding ir_func_remove_unreachable_blocks ir_func_rebuild_preds baa.Ir.Mutate.edit_block
    baa.Ir.Mutate.ir_block_add_succ
skipping_shrinks = refl

skipping-DistinctIds : DistinctIds skipping.blocks
skipping-DistinctIds = (refl, (refl, (refl, tt)))

remove_unreachable_iff_example :
    (one_of 2 (block_ids (ir_func_remove_unreachable_blocks skipping).0.blocks) ≡ true)
    ↔ ((one_of 2 (block_ids skipping.blocks) ≡ true) × Way skipping.blocks 0 2)
remove_unreachable_iff_example =
    remove_unreachable_iff skipping 0 2 refl refl skipping-DistinctIds refl
