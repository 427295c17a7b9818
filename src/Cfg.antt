-- ===== src/Cfg.antt =====
-- The check of the control-flow graph (`ir_func_validate_cfg`, `ir_module_validate_cfg` of
-- src/middleend/ir_analysis.c).
pub mod Valid
pub mod Edges
pub mod Leads
use baa.Base.{ℕ, Bool, true, false, ◌&&◌, Option, none, some, List, [], ◌∷◌, if◌then◌else◌}
use baa.Ir.Inst.{IrOp, IrValueData, IrValue, IrInst, IrBlock, IrFunc, IrModule}

unfoldable pub ir_is_terminator_op : IrOp → Bool
ir_is_terminator_op IrOp.br = true
ir_is_terminator_op IrOp.br_cond = true
ir_is_terminator_op IrOp.ret = true
ir_is_terminator_op _ = false

-- The block that a value names, by its id.
abbrev pub ir_block_from_block_value : IrValueData → Option ℕ
ir_block_from_block_value (IrValueData.block n) = some n
ir_block_from_block_value _ = none

abbrev pub names_block : IrValue → Bool
names_block v = elim (ir_block_from_block_value v.payload) [ none ↦ false | some n ↦ true ]

abbrev pub last_inst : List IrInst → Option IrInst
last_inst [] = none
last_inst (i ∷ []) = some i
last_inst (i ∷ j ∷ rest) = last_inst (j ∷ rest)

abbrev pub br_operands : List IrValue → Bool
br_operands [] = false
br_operands (v ∷ rest) = names_block v

abbrev pub br_cond_operands : List IrValue → Bool
br_cond_operands (c ∷ a ∷ b ∷ rest) = names_block a && names_block b
br_cond_operands _ = false

abbrev pub ret_operands : List IrValue → Bool
ret_operands [] = true
ret_operands (v ∷ []) = true
ret_operands _ = false

-- The operands of a terminator.
unfoldable pub terminator_operands : IrOp → List IrValue → Bool
terminator_operands IrOp.br vs = br_operands vs
terminator_operands IrOp.br_cond vs = br_cond_operands vs
terminator_operands IrOp.ret vs = ret_operands vs
terminator_operands _ vs = false

abbrev pub ends_block : Option IrInst → Bool
unfolding ir_is_terminator_op terminator_operands
ends_block none = false
ends_block (some i) =
    if ir_is_terminator_op i.op then terminator_operands i.op i.operands else false

unfoldable pub validate_blocks : List IrBlock → Bool
unfolding ends_block
validate_blocks [] = true
validate_blocks (b ∷ bs) =
    let rest = validate_blocks bs in if ends_block (last_inst b.insts) then rest else false

abbrev pub validate_body : Option ℕ → List IrBlock → Bool
unfolding validate_blocks
validate_body none bs = false
validate_body (some _) bs = validate_blocks bs

unfoldable pub ir_func_validate_cfg : IrFunc → Bool
unfolding validate_body
ir_func_validate_cfg f = if f.is_prototype then true else validate_body f.entry f.blocks

unfoldable pub validate_funcs : List IrFunc → Bool
validate_funcs [] = true
validate_funcs (f ∷ fs) =
    let rest = validate_funcs fs in if ir_func_validate_cfg f then rest else false

unfoldable pub ir_module_validate_cfg : IrModule → Bool
unfolding validate_funcs
ir_module_validate_cfg m = validate_funcs m.funcs
