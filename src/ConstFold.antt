-- ===== src/ConstFold.antt =====
-- The folding of one instruction in the constant-folding pass (src/middleend/ir_constfold.c).
-- An int64_t is its 64-bit pattern, so the casts to and from uint64_t are the identity; `v & mask`
-- with mask 2 ^ bits - 1 is `v % 2 ^ bits`, and `u |= ~mask` on a masked u adds 2 ^ 64 - 2 ^ bits.
-- An output pointer with a success flag is an `Option`.
pub mod Trunc
pub mod Arith
pub mod Inst
pub mod Pass
pub mod Preserves
use baa.Base.{
  ℕ, ◌+◌, ◌-◌, ◌/◌, ◌%◌, ◌^◌, Bool, true, false, not, ◌&&◌, ◌||◌, Option, none, some, List, [], ◌∷◌,
  if◌then◌else◌, ◌==◌, ltb, leb,
}
use baa.Base.Word.{add64, sub64, mul64, sdiv64, srem64, slt64}
use baa.Ir.Types.{IrType, ir_type_bits}
use baa.Ir.Inst.{IrOp, IrCmpPred, IrValueData, IrValue, IrInst}
use baa.Ir.Build.{or_i64, ir_value_const_int}

unfoldable pub is_int_type : Option IrType → Bool
is_int_type (some IrType.i1) = true
is_int_type (some IrType.i8) = true
is_int_type (some IrType.i16) = true
is_int_type (some IrType.i32) = true
is_int_type (some IrType.i64) = true
is_int_type (some IrType.u8) = true
is_int_type (some IrType.u16) = true
is_int_type (some IrType.u32) = true
is_int_type (some IrType.u64) = true
is_int_type _ = false

unfoldable pub ir_type_is_unsigned : Option IrType → Bool
ir_type_is_unsigned (some IrType.u8) = true
ir_type_is_unsigned (some IrType.u16) = true
ir_type_is_unsigned (some IrType.u32) = true
ir_type_is_unsigned (some IrType.u64) = true
ir_type_is_unsigned _ = false

abbrev pub is_i1 : Option IrType → Bool
is_i1 (some IrType.i1) = true
is_i1 _ = false

-- Mask to a width below 64, then extend by the sign or by zeros.
unfoldable pub mask_extend : Bool → ℕ → ℕ → ℕ
mask_extend is_unsigned bits v =
    let u = v % 2 ^ bits in
    if is_unsigned then u else if leb (2 ^ (bits - 1)) u then u + (2 ^ 64 - 2 ^ bits) else u

unfoldable pub trunc_wrap_to_type : ℕ → Option IrType → ℕ
unfolding is_int_type ir_type_is_unsigned mask_extend ir_type_bits
trunc_wrap_to_type v t =
    if not (is_int_type t)
    then v
    else if is_i1 t
    then if v == 0 then 0 else 1
    else let bits = ir_type_bits t in
      if bits == 0 || leb 64 bits then v else mask_extend (ir_type_is_unsigned t) bits v

unfoldable pub new_const_for_type : ℕ → Option IrType → IrValue
unfolding ir_value_const_int
new_const_for_type v t = ir_value_const_int (trunc_wrap_to_type v t) t

abbrev pub int64_min : ℕ
int64_min = 2 ^ 63

abbrev pub minus_one : ℕ
minus_one = 2 ^ 64 - 1

-- `none` is a failure to fold.
unfoldable pub try_fold_arith : IrOp → Option IrType → ℕ → ℕ → Option ℕ
unfolding ir_type_is_unsigned
try_fold_arith IrOp.add type lhs rhs = some (add64 lhs rhs)
try_fold_arith IrOp.sub type lhs rhs = some (sub64 lhs rhs)
try_fold_arith IrOp.mul type lhs rhs = some (mul64 lhs rhs)
try_fold_arith IrOp.div type lhs rhs =
    if rhs == 0
    then none
    else if ir_type_is_unsigned type
    then some (lhs / rhs)
    else if lhs == int64_min && rhs == minus_one
    then some int64_min
    else some (sdiv64 lhs rhs)
try_fold_arith IrOp.rem type lhs rhs =
    if rhs == 0
    then none
    else if ir_type_is_unsigned type
    then some (lhs % rhs)
    else if lhs == int64_min && rhs == minus_one
    then some 0
    else some (srem64 lhs rhs)
try_fold_arith _ type lhs rhs = none

unfoldable pub eval_cmp : IrCmpPred → ℕ → ℕ → Bool
eval_cmp IrCmpPred.eq lhs rhs = lhs == rhs
eval_cmp IrCmpPred.ne lhs rhs = not (lhs == rhs)
eval_cmp IrCmpPred.gt lhs rhs = slt64 rhs lhs
eval_cmp IrCmpPred.lt lhs rhs = slt64 lhs rhs
eval_cmp IrCmpPred.ge lhs rhs = not (slt64 lhs rhs)
eval_cmp IrCmpPred.le lhs rhs = not (slt64 rhs lhs)
eval_cmp IrCmpPred.ugt lhs rhs = ltb rhs lhs
eval_cmp IrCmpPred.ult lhs rhs = ltb lhs rhs
eval_cmp IrCmpPred.uge lhs rhs = leb rhs lhs
eval_cmp IrCmpPred.ule lhs rhs = leb lhs rhs

-- What a folded instruction leaves: its register, the type and the value.
pub record Folded : Type 0 where
  pub reg : ℕ
  pub type : Option IrType
  pub value : ℕ

abbrev pub const_of : IrValueData → Option ℕ
const_of (IrValueData.const_int c) = some c
const_of _ = none

abbrev pub both : Option ℕ → Option ℕ → Option (ℕ × ℕ)
both (some a) (some b) = some (a, b)
both _ _ = none

-- The first two operands, if both are integer constants.
abbrev pub first_consts : List IrValue → Option (ℕ × ℕ)
first_consts (a ∷ b ∷ _) = both (const_of a.payload) (const_of b.payload)
first_consts _ = none

abbrev pub is_f64 : Option IrType → Bool
is_f64 (some IrType.f64) = true
is_f64 _ = false

abbrev pub f64_operand : List IrValue → Bool
f64_operand (a ∷ b ∷ _) = is_f64 a.type || is_f64 b.type
f64_operand _ = false

abbrev pub to_int : Bool → ℕ
to_int true = 1
to_int false = 0

unfoldable pub arith_folded : ℕ → Option IrType → Option ℕ → Option Folded
arith_folded dest t none = none
arith_folded dest t (some v) =
    some (record { reg = dest; type = t; value = trunc_wrap_to_type v t })

unfoldable pub fold_arith : IrInst → ℕ → Option (ℕ × ℕ) → Option Folded
fold_arith inst dest none = none
fold_arith inst dest (some (a, b)) =
    let t = or_i64 inst.type in
    if is_int_type t then arith_folded dest t (try_fold_arith inst.op t a b) else none

unfoldable pub fold_cmp : IrInst → ℕ → Option (ℕ × ℕ) → Option Folded
fold_cmp inst dest none = none
fold_cmp inst dest (some (a, b)) =
    if f64_operand inst.operands
    then none
    else some
        (record { reg = dest; type = some IrType.i1; value = to_int (eval_cmp inst.cmp_pred a b) })

-- The operations that the pass folds.
unfoldable pub fold_op : IrOp → IrInst → ℕ → Option Folded
fold_op IrOp.add inst dest = fold_arith inst dest (first_consts inst.operands)
fold_op IrOp.sub inst dest = fold_arith inst dest (first_consts inst.operands)
fold_op IrOp.mul inst dest = fold_arith inst dest (first_consts inst.operands)
fold_op IrOp.div inst dest = fold_arith inst dest (first_consts inst.operands)
fold_op IrOp.rem inst dest = fold_arith inst dest (first_consts inst.operands)
fold_op IrOp.cmp inst dest = fold_cmp inst dest (first_consts inst.operands)
fold_op _ inst dest = none

unfoldable pub ir_try_fold_inst : IrInst → Option Folded
ir_try_fold_inst inst = elim inst.dest [ none ↦ none | some d ↦ fold_op inst.op inst d ]
