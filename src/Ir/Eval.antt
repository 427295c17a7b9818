-- ===== src/Ir/Eval.antt =====
-- A reference meaning of the operations that the optimiser folds, over the integers: the comments of
-- src/middleend/ir_constfold.c and src/middleend/ir_data_layout.c state it (two's-complement wrap,
-- division cut off toward zero, i1 is 0 or 1). It follows no line of the passes.
use Prim.Native.String.{String}
use Prim.Native.Nat.{bit_and, bit_or, bit_xor}
use baa.Base.{
  ℕ, ◌+◌, ◌-◌, ◌*◌, ◌%◌, ◌^◌, Bool, true, false, not, Option, none, some, List, [], ◌∷◌,
  if◌then◌else◌, ◌==◌, ltb,
}
use baa.Base.Int.{ℤ, pos, negsuc, ◌+ℤ◌, ◌-ℤ◌, ◌*ℤ◌, quot_ℤ, rem_ℤ, ltb_ℤ, leb_ℤ}
use baa.Base.Word.{signed64, encode64}
use baa.Ir.Types.{IrType}
use baa.Ir.Inst.{IrOp, IrCmpPred, Name, IrValueData, IrValue, IrInst}

-- The residue of an integer modulo m.
abbrev pub residue : ℕ → ℤ → ℕ
residue m (pos n) = n % m
residue m (negsuc n) = m - 1 - n % m

-- The word of the signed number with the low bits u, where `half` is the weight of the sign bit.
abbrev pub sign_extend : ℕ → ℕ → ℕ
sign_extend half u = if ltb u half then u else 2 ^ 64 - 2 * half + u

-- The word that stands for an integer at a type.
unfoldable pub wrap_to : IrType → ℤ → ℕ
wrap_to IrType.i1 z = if encode64 z == 0 then 0 else 1
wrap_to IrType.i8 z = sign_extend (2 ^ 7) (residue (2 ^ 8) z)
wrap_to IrType.i16 z = sign_extend (2 ^ 15) (residue (2 ^ 16) z)
wrap_to IrType.i32 z = sign_extend (2 ^ 31) (residue (2 ^ 32) z)
wrap_to IrType.u8 z = residue (2 ^ 8) z
wrap_to IrType.u16 z = residue (2 ^ 16) z
wrap_to IrType.u32 z = residue (2 ^ 32) z
wrap_to _ z = encode64 z

-- The integer that a word stands for at a type.
unfoldable pub read_as : IrType → ℕ → ℤ
read_as IrType.u8 w = pos w
read_as IrType.u16 w = pos w
read_as IrType.u32 w = pos w
read_as IrType.u64 w = pos w
read_as _ w = signed64 w

-- Arithmetic of two words at a type. Division by zero has no value.
unfoldable pub arith_value : IrOp → IrType → ℕ → ℕ → Option ℕ
arith_value IrOp.add t a b = some (wrap_to t (read_as t a +ℤ read_as t b))
arith_value IrOp.sub t a b = some (wrap_to t (read_as t a -ℤ read_as t b))
arith_value IrOp.mul t a b = some (wrap_to t (read_as t a *ℤ read_as t b))
arith_value IrOp.div t a b =
    if b == 0 then none else some (wrap_to t (quot_ℤ (read_as t a) (read_as t b)))
arith_value IrOp.rem t a b =
    if b == 0 then none else some (wrap_to t (rem_ℤ (read_as t a) (read_as t b)))
arith_value IrOp.and t a b = some (wrap_to t (pos (bit_and a b)))
arith_value IrOp.or t a b = some (wrap_to t (pos (bit_or a b)))
arith_value IrOp.xor t a b = some (wrap_to t (pos (bit_xor a b)))
arith_value _ t a b = none

-- The comparison of two words: a signed or an unsigned one, as the predicate says.
unfoldable pub compares : IrCmpPred → ℕ → ℕ → Bool
compares IrCmpPred.eq a b = a == b
compares IrCmpPred.ne a b = not (a == b)
compares IrCmpPred.gt a b = ltb_ℤ (signed64 b) (signed64 a)
compares IrCmpPred.lt a b = ltb_ℤ (signed64 a) (signed64 b)
compares IrCmpPred.ge a b = leb_ℤ (signed64 b) (signed64 a)
compares IrCmpPred.le a b = leb_ℤ (signed64 a) (signed64 b)
compares IrCmpPred.ugt a b = ltb_ℤ (pos b) (pos a)
compares IrCmpPred.ult a b = ltb_ℤ (pos a) (pos b)
compares IrCmpPred.uge a b = leb_ℤ (pos b) (pos a)
compares IrCmpPred.ule a b = leb_ℤ (pos a) (pos b)

abbrev pub word_of : Bool → ℕ
word_of true = 1
word_of false = 0

-- One word at a type.
unfoldable pub unary_value : IrOp → IrType → ℕ → Option ℕ
unary_value IrOp.neg t a = some (wrap_to t (pos 0 -ℤ read_as t a))
unary_value IrOp.not IrType.i1 a = some (word_of (a == 0))
unary_value IrOp.copy t a = some (wrap_to t (pos a))
unary_value _ t a = none

-- What the registers, the global names and the string tables hold, as words.
pub record Env : Type 0 where
  pub reg : ℕ → ℕ
  pub global : String → ℕ
  pub func : String → ℕ
  pub str : ℕ → ℕ
  pub baa_str : ℕ → ℕ

abbrev pub named : (String → ℕ) → Option Name → Option ℕ
named read none = none
named read (some n) = some (read n.text)

-- The word of a value; a block and "nothing" have none.
unfoldable pub payload_value : Env → IrValueData → Option ℕ
payload_value e (IrValueData.const_int c) = some c
payload_value e (IrValueData.reg r) = some (e.reg r)
payload_value e (IrValueData.global n) = named e.global n
payload_value e (IrValueData.func n) = named e.func n
payload_value e (IrValueData.const_str n id) = some (e.str id)
payload_value e (IrValueData.baa_str n id) = some (e.baa_str id)
payload_value e (IrValueData.block b) = none
payload_value e IrValueData.nothing = none

abbrev pub or_word : Option IrType → IrType
or_word none = IrType.i64
or_word (some t) = t

-- The value of an operation on words. A missing type reads as i64.
unfoldable pub op_value : IrOp → IrCmpPred → IrType → List (Option ℕ) → Option ℕ
op_value IrOp.cmp p t (some a ∷ some b ∷ []) = some (word_of (compares p a b))
op_value op p t (some a ∷ some b ∷ []) = arith_value op t a b
op_value op p t (some a ∷ []) = unary_value op t a
op_value op p t _ = none

abbrev pub values : Env → List IrValue → List (Option ℕ)
values e [] = []
values e (v ∷ vs) = payload_value e v.payload ∷ values e vs

-- The value that an instruction gives its destination, for the operations above.
unfoldable pub inst_value : Env → IrInst → Option ℕ
inst_value e i = op_value i.op i.cmp_pred (or_word i.type) (values e i.operands)
