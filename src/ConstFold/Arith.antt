-- ===== src/ConstFold/Arith.antt =====
-- Folded arithmetic and comparisons (`try_fold_arith` and `eval_cmp` of
-- src/middleend/ir_constfold.c) against the integers.
use mathlib.Core.Option
use baa.Base.{
  ℕ, ◌/◌, ◌%◌, ◌≡◌, refl, ap, ◌∙◌, inl, inr, Bool, true, false, not, ◌&&◌, some, arith,
  if◌then◌else◌, ◌==◌, Bool-cases,
}
use baa.Base.Int.{ℤ, pos, negsuc, ◌≤ℤ◌, ◌<ℤ◌, ltb_ℤ, leb_ℤ, quot_ℤ, rem_ℤ}
use mathlib.Core.Bool.{xor}
use baa.Base.Int
use baa.Base.Word
use baa.Base.Word.{IsWord, signed64, encode64, slt64, sdiv64, srem64}
use baa.Ir.Types.{IrType}
use baa.Ir.Inst.{IrOp, IrCmpPred}
use baa.Ir.Eval.{wrap_to, read_as, arith_value, compares}
use baa.ConstFold.{
  try_fold_arith, trunc_wrap_to_type, eval_cmp, ir_type_is_unsigned, int64_min, minus_one,
}
use baa.ConstFold.Trunc.{trunc-encode64}

-- The five operations that the pass folds.
abbrev pub is_folded_op : IrOp → Bool
is_folded_op IrOp.add = true
is_folded_op IrOp.sub = true
is_folded_op IrOp.mul = true
is_folded_op IrOp.div = true
is_folded_op IrOp.rem = true
is_folded_op _ = false

-- Division with the special case for INT64_MIN / -1 is the machine's division all the same.
sdiv64_min : sdiv64 int64_min minus_one ≡ int64_min
unfolding sdiv64 Word.magnitude Word.with_sign Word.is_minus xor
sdiv64_min = refl

srem64_min : srem64 int64_min minus_one ≡ 0
unfolding srem64 Word.magnitude Word.with_sign Word.is_minus
srem64_min = refl

read_as_unsigned : (t : IrType) (w : ℕ) → ir_type_is_unsigned (some t) ≡ true → read_as t w ≡ pos w
unfolding read_as ir_type_is_unsigned
read_as_unsigned IrType.u8 w h = refl
read_as_unsigned IrType.u16 w h = refl
read_as_unsigned IrType.u32 w h = refl
read_as_unsigned IrType.u64 w h = refl
read_as_unsigned _ w h = cc

read_as_signed :
    (t : IrType) (w : ℕ) → ir_type_is_unsigned (some t) ≡ false → read_as t w ≡ signed64 w
unfolding read_as ir_type_is_unsigned
read_as_signed IrType.u8 w h = cc
read_as_signed IrType.u16 w h = cc
read_as_signed IrType.u32 w h = cc
read_as_signed IrType.u64 w h = cc
read_as_signed _ w h = refl

-- A word operation that agrees with an integer operation on both readings of its arguments
-- agrees with it at every type.
at_type :
    (t : IrType) (a b v : ℕ) (op : ℤ → ℤ → ℤ)
    → (ir_type_is_unsigned (some t) ≡ true → v ≡ encode64 (op (pos a) (pos b)))
    → (ir_type_is_unsigned (some t) ≡ false → v ≡ encode64 (op (signed64 a) (signed64 b)))
    → trunc_wrap_to_type v (some t) ≡ wrap_to t (op (read_as t a) (read_as t b))
at_type t a b v op unsigned signed = elim (Bool-cases (ir_type_is_unsigned (some t))) [
  | inl u ↦
      rw (read_as_unsigned t a u, read_as_unsigned t b u, unsigned u)
        (trunc-encode64 t (op (pos a) (pos b)))
  | inr s ↦
      rw (read_as_signed t a s, read_as_signed t b s, signed s)
        (trunc-encode64 t (op (signed64 a) (signed64 b)))
]

-- The quotient that the pass computes when the divisor is not zero.
abbrev quotient : IrType → ℕ → ℕ → ℕ
quotient t a b =
    if ir_type_is_unsigned (some t)
    then a / b
    else if a == int64_min && b == minus_one
    then int64_min
    else sdiv64 a b

abbrev remainder : IrType → ℕ → ℕ → ℕ
remainder t a b =
    if ir_type_is_unsigned (some t)
    then a % b
    else if a == int64_min && b == minus_one
    then 0
    else srem64 a b

div-lt-IsWord : (a b : ℕ) → IsWord a → IsWord (a / b)
div-lt-IsWord a b h = omega (arith, Word.div-le a b)

mod-lt-IsWord : (a b : ℕ) → IsWord a → IsWord (a % b)
mod-lt-IsWord a b h = omega (arith, Word.mod-le a b)

encode64-pos : (n : ℕ) → IsWord n → n ≡ encode64 (pos n)
unfolding encode64
encode64-pos n h = omega arith

-- The special case for INT64_MIN / -1 gives what the machine's division gives.
special_quotient :
    (a b : ℕ) → (if a == int64_min && b == minus_one then int64_min else sdiv64 a b) ≡ sdiv64 a b
special_quotient a b = ground (arith, sdiv64_min)

special_remainder :
    (a b : ℕ) → (if a == int64_min && b == minus_one then 0 else srem64 a b) ≡ srem64 a b
special_remainder a b = ground (arith, srem64_min)

module _ (t : IrType) (a b : ℕ) (ha : IsWord a) (hb : IsWord b) where
  trunc-quotient :
      trunc_wrap_to_type (quotient t a b) (some t) ≡ wrap_to t (quot_ℤ (read_as t a) (read_as t b))
  unfolding quot_ℤ
  trunc-quotient =
      at_type t a b (quotient t a b) quot_ℤ
        (λ u. rw u (encode64-pos (a / b) (div-lt-IsWord a b ha)))
        (λ s. rw s (special_quotient a b ∙ Word.sdiv64-signed a b ha hb))

  trunc-remainder :
      trunc_wrap_to_type (remainder t a b) (some t) ≡ wrap_to t (rem_ℤ (read_as t a) (read_as t b))
  unfolding rem_ℤ
  trunc-remainder =
      at_type t a b (remainder t a b) rem_ℤ
        (λ u. rw u (encode64-pos (a % b) (mod-lt-IsWord a b ha)))
        (λ s. rw s (special_remainder a b ∙ Word.srem64-signed a b ha hb))

-- For every type and all 64-bit constants, each of the five folded operations, truncated to the
-- type, is the operation on the integers wrapped to the type; it fails exactly on division by zero.
pub fold_arith_value :
    (op : IrOp) (t : IrType) (a b : ℕ)
    → is_folded_op op ≡ true
    → IsWord a
    → IsWord b
    → Option.map (λ v. trunc_wrap_to_type v (some t)) (try_fold_arith op (some t) a b)
      ≡ arith_value op t a b
unfolding try_fold_arith arith_value
fold_arith_value IrOp.add t a b h ha hb =
    ap some
      (at_type t a b _ Int.◌+ℤ◌ (λ u. Word.add64-unsigned a b) (λ s. Word.add64-signed a b ha hb))
fold_arith_value IrOp.sub t a b h ha hb = ap some (
    at_type t a b _ Int.◌-ℤ◌ (λ u. Word.sub64-unsigned a b ha hb)
      (λ s. Word.sub64-signed a b ha hb))
fold_arith_value IrOp.mul t a b h ha hb =
    ap some
      (at_type t a b _ Int.◌*ℤ◌ (λ u. Word.mul64-unsigned a b) (λ s. Word.mul64-signed a b ha hb))
fold_arith_value IrOp.div t a b h ha hb = ground (arith, trunc-quotient t a b ha hb)
fold_arith_value IrOp.rem t a b h ha hb = ground (arith, trunc-remainder t a b ha hb)
fold_arith_value _ t a b h ha hb = cc

not-ltb_ℤ : (a b : ℤ) → not (ltb_ℤ a b) ≡ leb_ℤ b a
not-ltb_ℤ a b = ground arith

pub eval_cmp-compares :
    (p : IrCmpPred) (a b : ℕ) → IsWord a → IsWord b → eval_cmp p a b ≡ compares p a b
unfolding eval_cmp compares
eval_cmp-compares IrCmpPred.gt a b ha hb = Word.slt64-signed b a hb ha
eval_cmp-compares IrCmpPred.lt a b ha hb = Word.slt64-signed a b ha hb
eval_cmp-compares IrCmpPred.ge a b ha hb =
    ap not (Word.slt64-signed a b ha hb) ∙ not-ltb_ℤ (signed64 a) (signed64 b)
eval_cmp-compares IrCmpPred.le a b ha hb =
    ap not (Word.slt64-signed b a hb ha) ∙ not-ltb_ℤ (signed64 b) (signed64 a)
eval_cmp-compares _ a b ha hb = ground arith
