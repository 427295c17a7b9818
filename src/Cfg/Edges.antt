-- ===== src/Cfg/Edges.antt =====
-- The edges of the control-flow graph (`ir_func_rebuild_preds` of src/middleend/ir_analysis.c).
use baa.Base.{ℕ, Option, none, some, List, [], ◌∷◌, ◌++◌, foldl, if◌then◌else◌}
use baa.Ir.Inst.{IrOp, IrValue, IrInst, IrBlock, IrFunc}
use baa.Ir.Mutate.{edit_block, ir_block_add_succ}
use baa.Cfg.{ir_block_from_block_value, last_inst}

abbrev pub clear_edges : IrBlock → IrBlock
clear_edges b = record b { succs = []; preds = []; idom = none; dom_frontier = [] }

abbrev pub clear_all : List IrBlock → List IrBlock
clear_all [] = []
clear_all (b ∷ bs) = clear_edges b ∷ clear_all bs

abbrev pub target_list : Option ℕ → List ℕ
target_list none = []
target_list (some t) = t ∷ []

-- The blocks that a value names; an operand beyond the list is null.
abbrev pub br_targets : List IrValue → List ℕ
br_targets [] = []
br_targets (v ∷ vs) = target_list (ir_block_from_block_value v.payload)

abbrev pub br_cond_targets : List IrValue → List ℕ
br_cond_targets (c ∷ a ∷ b ∷ rest) =
    target_list (ir_block_from_block_value a.payload)
    ++ target_list (ir_block_from_block_value b.payload)
br_cond_targets (c ∷ a ∷ []) = target_list (ir_block_from_block_value a.payload)
br_cond_targets _ = []

abbrev pub op_targets : IrOp → List IrValue → List ℕ
op_targets IrOp.br vs = br_targets vs
op_targets IrOp.br_cond vs = br_cond_targets vs
op_targets _ vs = []

-- The successors that the last instruction of a block names.
unfoldable pub targets : Option IrInst → List ℕ
targets none = []
targets (some i) = op_targets i.op i.operands

-- The walk over the blocks, which adds to the edges of the function's blocks.
unfoldable pub rebuild_edges : List IrBlock → List IrBlock → List IrBlock
unfolding targets
rebuild_edges [] all = all
rebuild_edges (b ∷ bs) all =
    rebuild_edges bs
      (foldl (λ bs' t. ir_block_add_succ b.id t bs') all (targets (last_inst b.insts)))

abbrev pub mark_entry : Option ℕ → List IrBlock → List IrBlock
mark_entry none bs = bs
mark_entry (some e) bs = edit_block e (λ b. record b { idom = some e }) bs

unfoldable pub ir_func_rebuild_preds : IrFunc → IrFunc
unfolding rebuild_edges
ir_func_rebuild_preds f =
    if f.is_prototype
    then f
    else record f { blocks = mark_entry f.entry (rebuild_edges f.blocks (clear_all f.blocks)) }

abbrev pub rebuild_funcs : List IrFunc → List IrFunc
rebuild_funcs [] = []
rebuild_funcs (f ∷ fs) = ir_func_rebuild_preds f ∷ rebuild_funcs fs
