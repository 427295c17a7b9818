-- ===== src/Canon.antt =====
-- The canonicalisation pass (src/middleend/ir_canon.c): the order of the operands of commutative
-- operations and of comparisons. Whether anything changed is returned with the result.
pub mod Value
pub mod Stable
use baa.Base.{
  ℕ, Bool, true, false, ◌&&◌, ◌||◌, Option, none, some, List, [], ◌∷◌, if◌then◌else◌, ltb,
}
use baa.Ir.Inst.{IrOp, IrCmpPred, IrValueData, IrValue, IrInst, IrBlock, IrFunc, IrModule}
use baa.Ir.Build.{ir_func_invalidate_defuse}

abbrev pub ir_value_is_const_int_local : IrValueData → Bool
ir_value_is_const_int_local (IrValueData.const_int _) = true
ir_value_is_const_int_local _ = false

unfoldable pub ir_op_is_commutative : IrOp → Bool
ir_op_is_commutative IrOp.add = true
ir_op_is_commutative IrOp.mul = true
ir_op_is_commutative IrOp.and = true
ir_op_is_commutative IrOp.or = true
ir_op_is_commutative IrOp.xor = true
ir_op_is_commutative _ = false

unfoldable pub ir_cmp_is_swappable : IrCmpPred → Bool
ir_cmp_is_swappable IrCmpPred.eq = true
ir_cmp_is_swappable IrCmpPred.ne = true
ir_cmp_is_swappable IrCmpPred.gt = true
ir_cmp_is_swappable IrCmpPred.lt = true
ir_cmp_is_swappable IrCmpPred.ge = true
ir_cmp_is_swappable IrCmpPred.le = true
ir_cmp_is_swappable _ = false

unfoldable pub ir_cmp_swap_pred : IrCmpPred → IrCmpPred
ir_cmp_swap_pred IrCmpPred.gt = IrCmpPred.lt
ir_cmp_swap_pred IrCmpPred.lt = IrCmpPred.gt
ir_cmp_swap_pred IrCmpPred.ge = IrCmpPred.le
ir_cmp_swap_pred IrCmpPred.le = IrCmpPred.ge
ir_cmp_swap_pred p = p

-- Are both values registers, the second with the smaller number?
abbrev pub regs_descend : IrValueData → IrValueData → Bool
regs_descend (IrValueData.reg ra) (IrValueData.reg rb) = ltb rb ra
regs_descend _ _ = false

-- A constant on the left of another value, or two registers out of order.
unfoldable pub out_of_order : IrValueData → IrValueData → Bool
out_of_order (IrValueData.const_int _) b = if ir_value_is_const_int_local b then false else true
out_of_order a b = regs_descend a b

unfoldable pub canon_operands : List IrValue → Option (List IrValue)
unfolding out_of_order
canon_operands (a ∷ b ∷ rest) =
    if out_of_order a.payload b.payload then some (b ∷ a ∷ rest) else none
canon_operands _ = none

abbrev pub with_operands : IrInst → Option (List IrValue) → IrInst × Bool
with_operands inst none = (inst, false)
with_operands inst (some vs) = (record inst { operands = vs }, true)

unfoldable pub ir_canon_commutative_two_operand : IrInst → IrInst × Bool
unfolding canon_operands
ir_canon_commutative_two_operand inst = with_operands inst (canon_operands inst.operands)

abbrev pub with_swapped : IrInst → Option (List IrValue) → IrInst × Bool
with_swapped inst none = (inst, false)
with_swapped inst (some vs) =
    (record inst { operands = vs; cmp_pred = ir_cmp_swap_pred inst.cmp_pred }, true)

unfoldable pub ir_canon_cmp : IrInst → IrInst × Bool
unfolding canon_operands ir_cmp_swap_pred ir_cmp_is_swappable
ir_canon_cmp inst =
    if ir_cmp_is_swappable inst.cmp_pred
    then with_swapped inst (canon_operands inst.operands)
    else (inst, false)

abbrev pub is_cmp : IrOp → Bool
is_cmp IrOp.cmp = true
is_cmp _ = false

unfoldable pub canon_inst : IrInst → IrInst × Bool
unfolding ir_op_is_commutative ir_canon_commutative_two_operand ir_canon_cmp
canon_inst inst =
    if ir_op_is_commutative inst.op
    then ir_canon_commutative_two_operand inst
    else if is_cmp inst.op
    then ir_canon_cmp inst
    else (inst, false)

unfoldable pub canon_insts : List IrInst → List IrInst × Bool
unfolding canon_inst
canon_insts [] = ([], false)
canon_insts (i ∷ is) =
    let (j, first) = canon_inst i in let (js, more) = canon_insts is in (j ∷ js, first || more)

unfoldable pub canon_blocks : List IrBlock → List IrBlock × Bool
unfolding canon_insts
canon_blocks [] = ([], false)
canon_blocks (b ∷ bs) =
    let (is, first) = canon_insts b.insts in
    let (cs, more) = canon_blocks bs in (record b { insts = is } ∷ cs, first || more)

-- A function with an entry block; a change invalidates its chains of uses.
unfoldable pub canon_body : IrFunc → IrFunc × Bool
unfolding canon_blocks ir_func_invalidate_defuse
canon_body f =
    let (bs, changed) = canon_blocks f.blocks in
    let f' = record f { blocks = bs } in
    (if changed then ir_func_invalidate_defuse f' else f', changed)

unfoldable pub canon_entered : Option ℕ → IrFunc → IrFunc × Bool
canon_entered none f = (f, false)
canon_entered (some _) f = canon_body f

unfoldable pub ir_canon_func : IrFunc → IrFunc × Bool
unfolding canon_entered
ir_canon_func f = if f.is_prototype then (f, false) else canon_entered f.entry f

unfoldable pub canon_funcs : List IrFunc → List IrFunc × Bool
unfolding ir_canon_func
canon_funcs [] = ([], false)
canon_funcs (f ∷ fs) =
    let (g, first) = ir_canon_func f in let (gs, more) = canon_funcs fs in (g ∷ gs, first || more)

unfoldable pub ir_canon_run : IrModule → IrModule × Bool
unfolding canon_funcs
ir_canon_run m = let (fs, changed) = canon_funcs m.funcs in (record m { funcs = fs }, changed)
