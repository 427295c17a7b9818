-- ===== src/InstCombine/Identities.antt =====
-- The identities behind the simplifications of src/middleend/ir_instcombine.c: x + 0, x - 0, x * 1,
-- x * 0, x & 0, x | 0 and a comparison of a value with itself, at every type.
use mathlib.Core.Option
use mathlib.Core.Option.{some-injective}
use baa.Base.{ℕ, ◌≡◌, refl, sym, ap, ◌∙◌, Bool, true, false, Option, none, some, arith}
use baa.Base.Int.{ℤ, pos, ◌-ℤ◌}
use baa.Base.Word.{IsWord, signed64, encode64, add64, sub64, mul64}
use baa.Base.Bits.{bit_and-zero, bit_or-zero}
use baa.Ir.Types.{IrType}
use baa.Ir.Inst.{IrOp, IrCmpPred}
use baa.Ir.Eval.{or_word, arith_value, unary_value, word_of, compares, wrap_to, read_as}
use baa.ConstFold.{trunc_wrap_to_type, try_fold_arith}
use baa.ConstFold.Trunc.{trunc-encode64, trunc_idem, trunc-IsWord}
use baa.ConstFold.Arith.{fold_arith_value, is_folded_op}
use baa.InstCombine.{ic_trunc_to_type, self_cmp}

-- A type of a single word: no array.
abbrev pub IsScalar : Option IrType → Type 0
IsScalar (some (IrType.array _ _)) = ⊥
IsScalar _ = Unit

-- The truncation of this pass and of constant folding are one on scalar types.
pub ic_trunc_lem :
    (v : ℕ) (t : Option IrType) → IsScalar t → ic_trunc_to_type v t ≡ trunc_wrap_to_type v t
unfolding ic_trunc_to_type trunc_wrap_to_type
ic_trunc_lem v none h = refl
ic_trunc_lem v (some (IrType.array _ _)) h = absurd h
ic_trunc_lem v (some _) h = refl

encode64-small : (n : ℕ) → IsWord n → encode64 (pos n) ≡ n
unfolding encode64
encode64-small n h = omega arith

-- Reading a word back at a type is truncating it.
wrap-pos : (t : IrType) (n : ℕ) → IsWord n → wrap_to t (pos n) ≡ trunc_wrap_to_type n (some t)
wrap-pos t n h =
    sym (trunc-encode64 t (pos n)) ∙ ap (λ x. trunc_wrap_to_type x (some t)) (encode64-small n h)

arith-trunc :
    (op : IrOp) (t : IrType) (x y w : ℕ)
    → is_folded_op op ≡ true
    → IsWord x
    → IsWord y
    → IsWord w
    → try_fold_arith op (some t) x y ≡ some w
    → arith_value op t x y ≡ some (wrap_to t (pos w))
arith-trunc op t x y w f hx hy hw e =
    sym (fold_arith_value op t x y f hx hy)
    ∙ ap (Option.map (λ v. trunc_wrap_to_type v (some t))) e
    ∙ ap some (sym (wrap-pos t w hw))

-- The identities that the pass uses, at every type.
pub add_zero_value :
    (t : IrType) (x : ℕ) → IsWord x → arith_value IrOp.add t x 0 ≡ some (wrap_to t (pos x))
unfolding try_fold_arith add64
add_zero_value t x h = arith-trunc IrOp.add t x 0 x refl h (omega arith) h (ap some (omega arith))

pub sub_zero_value :
    (t : IrType) (x : ℕ) → IsWord x → arith_value IrOp.sub t x 0 ≡ some (wrap_to t (pos x))
unfolding try_fold_arith sub64
sub_zero_value t x h = arith-trunc IrOp.sub t x 0 x refl h (omega arith) h (ap some (omega arith))

pub mul_one_value :
    (t : IrType) (x : ℕ) → IsWord x → arith_value IrOp.mul t x 1 ≡ some (wrap_to t (pos x))
unfolding try_fold_arith mul64
mul_one_value t x h = arith-trunc IrOp.mul t x 1 x refl h (omega arith) h (ap some (omega arith))

pub mul_zero_value :
    (t : IrType) (x : ℕ) → IsWord x → arith_value IrOp.mul t x 0 ≡ some (wrap_to t (pos 0))
unfolding try_fold_arith mul64
mul_zero_value t x h =
    arith-trunc IrOp.mul t x 0 0 refl h (omega arith) (omega arith) (ap some (omega arith))

pub and_zero_value : (t : IrType) (x : ℕ) → arith_value IrOp.and t x 0 ≡ some (wrap_to t (pos 0))
unfolding arith_value
and_zero_value t x = ap (λ n. some (wrap_to t (pos n))) (bit_and-zero x)

pub or_zero_value : (t : IrType) (x : ℕ) → arith_value IrOp.or t x 0 ≡ some (wrap_to t (pos x))
unfolding arith_value
or_zero_value t x = ap (λ n. some (wrap_to t (pos n))) (bit_or-zero x)

-- A word that was truncated at a scalar type reads back as the word itself does.
pub wrap-ic_trunc :
    (t : Option IrType) (w : ℕ)
    → IsScalar t
    → IsWord w
    → wrap_to (or_word t) (pos (ic_trunc_to_type w t)) ≡ wrap_to (or_word t) (pos w)
unfolding ic_trunc_to_type
wrap-ic_trunc none w scalar h = refl
wrap-ic_trunc (some t) w scalar h =
    let same = ic_trunc_lem w (some t) scalar in
    ap (λ x. wrap_to t (pos x)) same
    ∙ wrap-pos t (trunc_wrap_to_type w (some t)) (trunc-IsWord (some t) w h)
    ∙ trunc_idem (some t) w
    ∙ sym (wrap-pos t w h)

pub wrap-bit : (t : IrType) (b : Bool) → wrap_to t (pos (word_of b)) ≡ word_of b
unfolding wrap_to encode64
wrap-bit IrType.i1 true = refl
wrap-bit IrType.i1 false = refl
wrap-bit _ true = refl
wrap-bit _ false = refl

pub self_cmp_value : (p : IrCmpPred) (x : ℕ) → word_of (compares p x x) ≡ self_cmp p
unfolding compares self_cmp
self_cmp_value IrCmpPred.eq x = ground arith
self_cmp_value _ x = ground arith

read_as-zero : (t : IrType) → read_as t 0 ≡ pos 0
unfolding read_as signed64
read_as-zero IrType.u8 = refl
read_as-zero _ = refl

pub sub64-IsWord : (x y : ℕ) → IsWord (sub64 x y)
unfolding sub64
sub64-IsWord x y = omega arith

pub neg_value :
    (t : IrType) (x : ℕ) → IsWord x → unary_value IrOp.neg t x ≡ some (wrap_to t (pos (sub64 0 x)))
unfolding unary_value arith_value try_fold_arith
neg_value t x h =
    ap (λ (z : ℤ). some (wrap_to t (z -ℤ read_as t x))) (sym (read_as-zero t))
    ∙ arith-trunc IrOp.sub t 0 x (sub64 0 x) refl (omega arith) h (sub64-IsWord 0 x) refl
