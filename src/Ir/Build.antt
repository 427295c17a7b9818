-- ===== src/Ir/Build.antt =====
-- Constructors of values, instructions, blocks and functions (src/middleend/ir.c and
-- src/middleend/ir_containers.c). Allocation succeeds. `ir_strdup` copies a text to a new place;
-- the place depends on the allocator, so the copy is the parameter `strdup`.
use baa.Base.{
  ℕ, ◌+◌, ◌%◌, ◌^◌, Bool, true, false, Option, none, some, List, [], ◌∷◌, ◌++◌, ltb, length,
  if◌then◌else◌,
}
use baa.Ir.Types.{IrType}
use baa.Ir.Inst.{IrOp, IrCmpPred, Name, IrValueData, IrValue, IrInst, IrBlock, IrFunc}

unfoldable pub ir_value_reg : ℕ → Option IrType → IrValue
ir_value_reg reg_num type = record { payload = IrValueData.reg reg_num; type = type }

abbrev pub or_i64 : Option IrType → Option IrType
or_i64 none = some IrType.i64
or_i64 (some t) = some t

unfoldable pub ir_value_const_int : ℕ → Option IrType → IrValue
ir_value_const_int value type = record { payload = IrValueData.const_int value; type = or_i64 type }

unfoldable pub ir_value_block : ℕ → IrValue
ir_value_block block = record { payload = IrValueData.block block; type = none }

module _ (strdup : Name → Name) where
  abbrev pub copy_name : Option Name → Option Name
  copy_name none = none
  copy_name (some n) = some (strdup n)

  unfoldable pub ir_value_const_str : Option Name → ℕ → IrValue
  ir_value_const_str str id = record {
    payload = IrValueData.const_str (copy_name str) id;
    type = some (IrType.ptr IrType.i8);
  }

  unfoldable pub ir_value_baa_str : Option Name → ℕ → IrValue
  ir_value_baa_str str id = record {
    payload = IrValueData.baa_str (copy_name str) id;
    type = some (IrType.ptr IrType.char);
  }

  abbrev pub ptr_to : Option IrType → Option IrType
  ptr_to none = none
  ptr_to (some t) = some (IrType.ptr t)

  unfoldable pub ir_value_global : Option Name → Option IrType → IrValue
  ir_value_global name type = record {
    payload = IrValueData.global (copy_name name);
    type = ptr_to type;
  }

  unfoldable pub ir_value_func_ref : Option Name → Option IrType → IrValue
  ir_value_func_ref name type = record { payload = IrValueData.func (copy_name name); type = type }

unfoldable pub ir_inst_new : IrOp → Option IrType → Option ℕ → IrInst
ir_inst_new op type dest = record {
  op = op;
  type = type;
  id = none;
  dest = dest;
  operands = [];
  cmp_pred = IrCmpPred.eq;
  phi_entries = [];
  call_target = none;
  call_callee = none;
  call_args = [];
  src_file = none;
  src_line = 0;
  src_col = 0;
  dbg_name = none;
}

-- A fifth operand is refused with a message on stderr, and the instruction stays as it is. The
-- instruction is not yet in a block here, so no cache is invalidated.
unfoldable pub ir_inst_add_operand : IrInst → IrValue → IrInst
ir_inst_add_operand inst operand =
    if ltb (length inst.operands) 4
    then record inst { operands = inst.operands ++ operand ∷ [] }
    else inst

unfoldable pub ir_inst_set_loc : IrInst → Option Name → ℕ → ℕ → IrInst
ir_inst_set_loc inst file line col = record inst { src_file = file; src_line = line; src_col = col }

unfoldable pub ir_inst_set_dbg_name : IrInst → Option Name → IrInst
ir_inst_set_dbg_name inst name = record inst { dbg_name = name }

unfoldable pub ir_inst_binary : IrOp → Option IrType → Option ℕ → IrValue → IrValue → IrInst
unfolding ir_inst_new ir_inst_add_operand
ir_inst_binary op type dest lhs rhs =
    ir_inst_add_operand (ir_inst_add_operand (ir_inst_new op type dest) lhs) rhs

unfoldable pub ir_inst_unary : IrOp → Option IrType → Option ℕ → IrValue → IrInst
unfolding ir_inst_new ir_inst_add_operand
ir_inst_unary op type dest operand = ir_inst_add_operand (ir_inst_new op type dest) operand

unfoldable pub ir_inst_cmp : IrCmpPred → Option ℕ → IrValue → IrValue → IrInst
unfolding ir_inst_new ir_inst_add_operand
ir_inst_cmp pred dest lhs rhs =
    let inst = ir_inst_new IrOp.cmp (some IrType.i1) dest in
    ir_inst_add_operand (ir_inst_add_operand (record inst { cmp_pred = pred }) lhs) rhs

unfoldable pub ir_inst_alloca : IrType → Option ℕ → IrInst
unfolding ir_inst_new
ir_inst_alloca type dest = ir_inst_new IrOp.alloca (some (IrType.ptr type)) dest

unfoldable pub ir_inst_load : Option IrType → Option ℕ → IrValue → IrInst
unfolding ir_inst_new ir_inst_add_operand
ir_inst_load type dest ptr = ir_inst_add_operand (ir_inst_new IrOp.load type dest) ptr

unfoldable pub ir_inst_store : IrValue → IrValue → IrInst
unfolding ir_inst_new ir_inst_add_operand
ir_inst_store value ptr =
    ir_inst_add_operand (ir_inst_add_operand (ir_inst_new IrOp.store (some IrType.void) none) value)
      ptr

unfoldable pub ir_inst_ptr_offset : Option IrType → Option ℕ → IrValue → IrValue → IrInst
unfolding ir_inst_new ir_inst_add_operand
ir_inst_ptr_offset ptr_type dest base index =
    ir_inst_add_operand (ir_inst_add_operand (ir_inst_new IrOp.ptr_offset ptr_type dest) base) index

unfoldable pub ir_inst_br : ℕ → IrInst
unfolding ir_inst_new ir_inst_add_operand ir_value_block
ir_inst_br target =
    ir_inst_add_operand (ir_inst_new IrOp.br (some IrType.void) none) (ir_value_block target)

unfoldable pub ir_inst_br_cond : IrValue → ℕ → ℕ → IrInst
unfolding ir_inst_new ir_inst_add_operand ir_value_block
ir_inst_br_cond cond if_true if_false =
    let inst = ir_inst_add_operand (ir_inst_new IrOp.br_cond (some IrType.void) none) cond in
    ir_inst_add_operand (ir_inst_add_operand inst (ir_value_block if_true))
      (ir_value_block if_false)

unfoldable pub ir_inst_ret : Option IrValue → IrInst
unfolding ir_inst_new ir_inst_add_operand
ir_inst_ret none = ir_inst_new IrOp.ret (some IrType.void) none
ir_inst_ret (some value) = ir_inst_add_operand (ir_inst_new IrOp.ret value.type none) value

unfoldable pub ir_inst_phi : Option IrType → Option ℕ → IrInst
unfolding ir_inst_new
ir_inst_phi type dest = ir_inst_new IrOp.phi type dest

abbrev pub is_phi : IrOp → Bool
is_phi IrOp.phi = true
is_phi _ = false

-- A new entry goes to the front. Anything but a phi stays as it is.
unfoldable pub ir_inst_phi_add : IrInst → IrValue → ℕ → IrInst
ir_inst_phi_add inst value block =
    if is_phi inst.op
    then record inst { phi_entries = record { value = value; block = block } ∷ inst.phi_entries }
    else inst

module _ (strdup : Name → Name) where
  unfoldable pub ir_inst_call : Option Name → Option IrType → Option ℕ → List IrValue → IrInst
  unfolding ir_inst_new
  ir_inst_call target ret_type dest args =
      let inst = ir_inst_new IrOp.call ret_type dest in
      record inst { call_target = copy_name strdup target; call_callee = none; call_args = args }

unfoldable pub ir_inst_call_indirect :
    Option IrValue → Option IrType → Option ℕ → List IrValue → IrInst
unfolding ir_inst_new
ir_inst_call_indirect callee ret_type dest args =
    let inst = ir_inst_new IrOp.call ret_type dest in
    record inst { call_target = none; call_callee = callee; call_args = args }

unfoldable pub ir_block_new : Option Name → ℕ → IrBlock
ir_block_new label id = record {
  label = label;
  id = id;
  insts = [];
  succs = [];
  preds = [];
  idom = none;
  dom_frontier = [];
}

unfoldable pub ir_func_new : Option Name → Option IrType → IrFunc
ir_func_new name ret_type = record {
  name = name;
  ret_type = elim ret_type [ none ↦ IrType.void | some t ↦ t ];
  params = [];
  entry = none;
  blocks = [];
  next_reg = 0;
  next_inst_id = 0;
  ir_epoch = 1;
  next_block_id = 0;
  is_prototype = false;
  is_variadic = false;
}

unfoldable pub ir_func_alloc_reg : IrFunc → IrFunc × ℕ
ir_func_alloc_reg f = (record f { next_reg = f.next_reg + 1 }, f.next_reg)

unfoldable pub ir_func_alloc_block_id : IrFunc → IrFunc × ℕ
ir_func_alloc_block_id f = (record f { next_block_id = f.next_block_id + 1 }, f.next_block_id)

-- The first block becomes the entry.
unfoldable pub ir_func_add_block : IrFunc → IrBlock → IrFunc
ir_func_add_block f b = elim f.blocks [
  | [] ↦ record f { blocks = b ∷ []; entry = some b.id }
  | first ∷ rest ↦ record f { blocks = (first ∷ rest) ++ b ∷ [] }
]

unfoldable pub ir_func_new_block : IrFunc → Option Name → IrFunc × IrBlock
unfolding ir_func_alloc_block_id ir_block_new ir_func_add_block
ir_func_new_block f label =
    let (f', id) = ir_func_alloc_block_id f in
    let block = ir_block_new label id in (ir_func_add_block f' block, block)

unfoldable pub ir_func_add_param : IrFunc → Option Name → Option IrType → IrFunc
unfolding ir_func_alloc_reg
ir_func_add_param f name type =
    let (f', reg) = ir_func_alloc_reg f in
    record f' { params = f'.params ++ record { name = name; type = type; reg = reg } ∷ [] }

-- `ir_epoch` is a uint32_t.
unfoldable pub ir_func_invalidate_defuse : IrFunc → IrFunc
ir_func_invalidate_defuse f = record f { ir_epoch = (f.ir_epoch + 1) % 2 ^ 32 }
