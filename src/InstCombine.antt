-- ===== src/InstCombine.antt =====
-- Local simplification of one instruction (src/middleend/ir_instcombine.c). A result that says
-- whether the instruction was rewritten is an `Option` of the new instruction. The place that
-- `ir_strdup` copies a name to depends on the allocator and is the parameter `strdup`.
pub mod Identities
pub mod Meaning
pub mod Sound
use mathlib.Core.Option
use baa.Base.{
  ℕ, ◌+◌, ◌-◌, ◌%◌, ◌^◌, Bool, true, false, not, ◌&&◌, ◌||◌, Option, none, some, List, [], ◌∷◌,
  ◌++◌, if◌then◌else◌, ◌==◌, leb,
}
use baa.Base.Word.{sub64}
use baa.Ir.Types.{IrType, ir_type_bits}
use baa.Ir.Inst.{
  IrOp, IrCmpPred, Name, IrValueData, IrValue, IrPhiEntry, IrInst, IrBlock, IrFunc, IrModule,
}
use baa.Ir.Build.{
  ir_value_const_int, ir_value_const_str, ir_value_baa_str, ir_value_reg, ir_value_global,
  ir_value_func_ref, ir_value_block, ir_func_invalidate_defuse,
}
use baa.ConstFold.{is_i1, is_f64, ir_type_is_unsigned, mask_extend}

unfoldable pub ic_trunc_to_type : ℕ → Option IrType → ℕ
unfolding ir_type_bits ir_type_is_unsigned mask_extend
ic_trunc_to_type v none = v
ic_trunc_to_type v (some t) =
    if is_i1 (some t)
    then if v == 0 then 0 else 1
    else let bits = ir_type_bits (some t) in
      if bits == 0 || leb 64 bits then v else mask_extend (ir_type_is_unsigned (some t)) bits v

unfoldable pub ic_new_const_for_type : ℕ → Option IrType → IrValue
unfolding ir_value_const_int
ic_new_const_for_type v t = ir_value_const_int (ic_trunc_to_type v t) t

-- All that the rewritten instruction keeps is its type, id, destination and source place.
unfoldable pub ic_rewrite_to_copy : IrInst → IrValue → IrInst
ic_rewrite_to_copy inst src = record inst {
  op = IrOp.copy;
  operands = src ∷ [];
  phi_entries = [];
  call_target = none;
  call_callee = none;
  call_args = [];
}

abbrev pub or_type : Option IrType → Option IrType → Option IrType
or_type none t = t
or_type (some u) t = some u

-- The type that `ir_value_global` is given for a global of this type: what a pointer points to.
abbrev pub pointee_or_self : Option IrType → Option IrType
pointee_or_self (some (IrType.ptr t)) = some t
pointee_or_self t = t

-- Two names at one place, as `==` on `char *` has it.
abbrev pub same_pointer : Option Name → Option Name → Bool
same_pointer none none = true
same_pointer (some m) (some n) = m.addr == n.addr
same_pointer _ _ = false

-- A value of the kinds that a phi is simplified for, equal to another.
abbrev pub same_payload : IrValueData → IrValueData → Bool
same_payload (IrValueData.const_int c) (IrValueData.const_int d) = c == d
same_payload (IrValueData.reg r) (IrValueData.reg s) = r == s
same_payload (IrValueData.global m) (IrValueData.global n) = same_pointer m n
same_payload _ _ = false

unfoldable pub all_same : IrValueData → List IrPhiEntry → Bool
all_same d [] = true
all_same d (x ∷ xs) = same_payload d x.value.payload && all_same d xs

-- The comparison of equal values.
unfoldable pub self_cmp : IrCmpPred → ℕ
self_cmp IrCmpPred.eq = 1
self_cmp IrCmpPred.ne = 0
self_cmp IrCmpPred.gt = 0
self_cmp IrCmpPred.lt = 0
self_cmp IrCmpPred.ge = 1
self_cmp IrCmpPred.le = 1
self_cmp IrCmpPred.ugt = 0
self_cmp IrCmpPred.ult = 0
self_cmp IrCmpPred.uge = 1
self_cmp IrCmpPred.ule = 1

unfoldable pub ic_const : IrInst → ℕ → Option IrInst
unfolding ic_rewrite_to_copy ic_new_const_for_type
ic_const inst c = some (ic_rewrite_to_copy inst (ic_new_const_for_type c inst.type))

-- Is the value the integer constant c?
abbrev pub is_const : ℕ → IrValueData → Bool
is_const c (IrValueData.const_int d) = d == c
is_const c _ = false

abbrev pub cmp_same : IrValueData → IrValueData → Bool
cmp_same (IrValueData.reg r) (IrValueData.reg s) = r == s
cmp_same (IrValueData.const_int c) (IrValueData.const_int d) = c == d
cmp_same _ _ = false

unfoldable pub simplify_cmp : IrInst → IrValue → IrValue → Option IrInst
simplify_cmp inst a b =
    if is_f64 a.type || is_f64 b.type
    then none
    else if cmp_same a.payload b.payload
    then ic_const inst (self_cmp inst.cmp_pred)
    else none

unfoldable pub simplify_unary : IrOp → IrInst → IrValueData → Option IrInst
simplify_unary IrOp.neg inst (IrValueData.const_int c) = ic_const inst (sub64 0 c)
simplify_unary IrOp.not inst (IrValueData.const_int c) =
    if is_i1 inst.type then ic_const inst (if c == 0 then 1 else 0) else none
simplify_unary _ inst _ = none

abbrev pub is_phi : IrOp → Bool
is_phi IrOp.phi = true
is_phi _ = false

module _ (strdup : Name → Name) where
  -- A copy of a value of type `own`, where `t` is the type to give it.
  unfoldable pub clone_payload : Option IrType → Option IrType → IrValueData → Option IrValue
  unfolding ir_value_const_int ir_value_const_str ir_value_baa_str ir_value_reg ir_value_global
      ir_value_func_ref ir_value_block
  clone_payload own t (IrValueData.const_int c) = some (ir_value_const_int c t)
  clone_payload own t (IrValueData.const_str s id) = some (ir_value_const_str strdup s id)
  clone_payload own t (IrValueData.baa_str s id) = some (ir_value_baa_str strdup s id)
  clone_payload own t (IrValueData.reg r) = some (ir_value_reg r t)
  clone_payload own t (IrValueData.global n) = some (ir_value_global strdup n (pointee_or_self own))
  clone_payload own t (IrValueData.func n) = some (ir_value_func_ref strdup n t)
  clone_payload own t (IrValueData.block b) = some (ir_value_block b)
  clone_payload own t IrValueData.nothing = none

  unfoldable pub ic_clone_value_with_type : IrValue → Option IrType → Option IrValue
  unfolding clone_payload
  ic_clone_value_with_type v override_type =
      clone_payload v.type (or_type override_type v.type) v.payload

  unfoldable pub ic_copy_of : IrInst → IrValue → Option IrInst
  unfolding ic_clone_value_with_type ic_rewrite_to_copy
  ic_copy_of inst a = Option.map (ic_rewrite_to_copy inst) (ic_clone_value_with_type a inst.type)

  -- The simplifications whose second operand is an integer constant.
  unfoldable pub simplify_binary : IrOp → IrInst → IrValue → IrValue → Option IrInst
  simplify_binary IrOp.add inst a b = if is_const 0 b.payload then ic_copy_of inst a else none
  simplify_binary IrOp.sub inst a b = if is_const 0 b.payload then ic_copy_of inst a else none
  simplify_binary IrOp.mul inst a b =
      if is_const 1 b.payload
      then ic_copy_of inst a
      else if is_const 0 b.payload
      then ic_const inst 0
      else none
  simplify_binary IrOp.and inst a b = if is_const 0 b.payload then ic_const inst 0 else none
  simplify_binary IrOp.or inst a b = if is_const 0 b.payload then ic_copy_of inst a else none
  simplify_binary IrOp.neg inst a b = simplify_unary IrOp.neg inst a.payload
  simplify_binary IrOp.not inst a b = simplify_unary IrOp.not inst a.payload
  simplify_binary IrOp.cmp inst a b = simplify_cmp inst a b
  simplify_binary _ inst a b = none

  unfoldable pub simplify_operands : IrInst → List IrValue → Option IrInst
  simplify_operands inst [] = none
  simplify_operands inst (a ∷ []) = simplify_unary inst.op inst a.payload
  simplify_operands inst (a ∷ b ∷ _) = simplify_binary inst.op inst a b

  unfoldable pub ic_simplify_arith : IrInst → Option IrInst
  ic_simplify_arith inst = if is_f64 inst.type then none else simplify_operands inst inst.operands

  -- The value that stands for a phi whose entries are all the same.
  unfoldable pub phi_replacement : IrInst → IrValue → IrValueData → Option IrValue
  unfolding ic_new_const_for_type ir_value_reg ir_value_global
  phi_replacement inst first (IrValueData.const_int c) = some (ic_new_const_for_type c inst.type)
  phi_replacement inst first (IrValueData.reg r) = some (ir_value_reg r inst.type)
  phi_replacement inst first (IrValueData.global n) =
      some (ir_value_global strdup n (pointee_or_self first.type))
  phi_replacement inst first _ = none

  unfoldable pub simplify_entries : IrInst → List IrPhiEntry → Option IrInst
  unfolding all_same phi_replacement ic_rewrite_to_copy
  simplify_entries inst [] = none
  simplify_entries inst (x ∷ xs) =
      if all_same x.value.payload xs
      then Option.map (ic_rewrite_to_copy inst) (phi_replacement inst x.value x.value.payload)
      else none

  unfoldable pub ic_simplify_phi : IrInst → Option IrInst
  ic_simplify_phi inst = if is_phi inst.op then simplify_entries inst inst.phi_entries else none

  unfoldable pub simplify_inst : IrInst → Option IrInst
  simplify_inst inst = if is_phi inst.op then ic_simplify_phi inst else ic_simplify_arith inst

  abbrev pub or_same : IrInst → Option IrInst → IrInst × Bool
  or_same inst none = (inst, false)
  or_same inst (some j) = (j, true)

  unfoldable pub combine_insts : List IrInst → List IrInst × Bool
  combine_insts [] = ([], false)
  combine_insts (i ∷ is) =
      let (j, first) = or_same i (simplify_inst i) in
      let (js, more) = combine_insts is in (j ∷ js, first || more)

  unfoldable pub combine_blocks : List IrBlock → List IrBlock × Bool
  combine_blocks [] = ([], false)
  combine_blocks (b ∷ bs) =
      let (is, first) = combine_insts b.insts in
      let (bs', more) = combine_blocks bs in (record b { insts = is } ∷ bs', first || more)

  unfoldable pub ir_instcombine_func : IrFunc → IrFunc × Bool
  ir_instcombine_func f = if f.is_prototype then (f, false) else elim f.entry [
    | none ↦ (f, false)
    | some _ ↦
        let (bs, changed) = combine_blocks f.blocks in
        let f' = record f { blocks = bs } in
        (if changed then ir_func_invalidate_defuse f' else f', changed)
  ]

  unfoldable pub combine_funcs : List IrFunc → List IrFunc × Bool
  combine_funcs [] = ([], false)
  combine_funcs (f ∷ fs) =
      let (f', first) = ir_instcombine_func f in
      let (fs', more) = combine_funcs fs in (f' ∷ fs', first || more)

  unfoldable pub ir_instcombine_run : IrModule → IrModule × Bool
  ir_instcombine_run m =
      let (fs, changed) = combine_funcs m.funcs in (record m { funcs = fs }, changed)
