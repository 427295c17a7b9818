-- ===== src/ConstFold/Trunc.antt =====
-- Truncation to a type (`trunc_wrap_to_type` of src/middleend/ir_constfold.c) against the reference
-- meaning of Ir/Eval.
use baa.Base.{
  ℕ, ◌+◌, ◌-◌, ◌*◌, ◌%◌, ◌^◌, ◌<◌, ◌≤◌, ◌≡◌, refl, subst, ◌⊎◌, ◌↔◌, Option, none, some, arith,
  if◌then◌else◌, leb,
}
use baa.Base.Int.{ℤ, pos, negsuc}
use baa.Base.Word.{IsWord, encode64}
use baa.Ir.Types.{IrType}
use baa.Ir.Eval.{wrap_to, residue, sign_extend}
use baa.ConstFold.{trunc_wrap_to_type}

residue-encode64_8 : (z : ℤ) → encode64 z % 2 ^ 8 ≡ residue (2 ^ 8) z
unfolding encode64
residue-encode64_8 (pos n) = omega arith
residue-encode64_8 (negsuc n) = omega arith

residue-encode64_16 : (z : ℤ) → encode64 z % 2 ^ 16 ≡ residue (2 ^ 16) z
unfolding encode64
residue-encode64_16 (pos n) = omega arith
residue-encode64_16 (negsuc n) = omega arith

residue-encode64_32 : (z : ℤ) → encode64 z % 2 ^ 32 ≡ residue (2 ^ 32) z
unfolding encode64
residue-encode64_32 (pos n) = omega arith
residue-encode64_32 (negsuc n) = omega arith

-- The sign bit extended by the test of the source and by that of the reference.
sign_extend_lem :
    (half u : ℕ) → (if leb half u then u + (2 ^ 64 - 2 * half) else u) ≡ sign_extend half u
sign_extend_lem half u = ground arith

-- Truncating the 64-bit word of an integer gives the word of the integer at the type.
pub trunc-encode64 : (t : IrType) (z : ℤ) → trunc_wrap_to_type (encode64 z) (some t) ≡ wrap_to t z
unfolding trunc_wrap_to_type wrap_to
trunc-encode64 IrType.i8 z = rw (residue-encode64_8 z) (sign_extend_lem (2 ^ 7) (residue (2 ^ 8) z))
trunc-encode64 IrType.i16 z =
    rw (residue-encode64_16 z) (sign_extend_lem (2 ^ 15) (residue (2 ^ 16) z))
trunc-encode64 IrType.i32 z =
    rw (residue-encode64_32 z) (sign_extend_lem (2 ^ 31) (residue (2 ^ 32) z))
trunc-encode64 IrType.u8 z = residue-encode64_8 z
trunc-encode64 IrType.u16 z = residue-encode64_16 z
trunc-encode64 IrType.u32 z = residue-encode64_32 z
trunc-encode64 _ z = refl

-- The words that stand for a number of a signed width, given the weight of its sign bit.
abbrev pub IsSignedWord : ℕ → ℕ → Type 0
IsSignedWord half w = (w < half) ⊎ (2 ^ 64 - half ≤ w) × (w < 2 ^ 64)

-- The words that stand for a value of a type: in range, and extended to 64 bits.
abbrev pub IsCanonical : IrType → ℕ → Type 0
IsCanonical IrType.i1 w = w < 2
IsCanonical IrType.i8 w = IsSignedWord (2 ^ 7) w
IsCanonical IrType.i16 w = IsSignedWord (2 ^ 15) w
IsCanonical IrType.i32 w = IsSignedWord (2 ^ 31) w
IsCanonical IrType.u8 w = w < 2 ^ 8
IsCanonical IrType.u16 w = w < 2 ^ 16
IsCanonical IrType.u32 w = w < 2 ^ 32
IsCanonical _ w = IsWord w

trunc-IsCanonical : (t : IrType) (v : ℕ) → IsWord v → IsCanonical t (trunc_wrap_to_type v (some t))
unfolding trunc_wrap_to_type
trunc-IsCanonical IrType.i1 v h = ground arith
trunc-IsCanonical IrType.i8 v h = ground arith
trunc-IsCanonical IrType.i16 v h = ground arith
trunc-IsCanonical IrType.i32 v h = ground arith
trunc-IsCanonical IrType.u8 v h = ground arith
trunc-IsCanonical IrType.u16 v h = ground arith
trunc-IsCanonical IrType.u32 v h = ground arith
trunc-IsCanonical _ v h = h

trunc_canonical : (t : IrType) (v : ℕ) → IsCanonical t v → trunc_wrap_to_type v (some t) ≡ v
unfolding trunc_wrap_to_type
trunc_canonical IrType.i1 v h = ground arith
trunc_canonical IrType.i8 v h = ground arith
trunc_canonical IrType.i16 v h = ground arith
trunc_canonical IrType.i32 v h = ground arith
trunc_canonical IrType.u8 v h = ground arith
trunc_canonical IrType.u16 v h = ground arith
trunc_canonical IrType.u32 v h = ground arith
trunc_canonical _ v h = refl

-- For every type and 64-bit word, truncation gives a word that stands for a value of the type, and
-- it leaves exactly such words as they are.
pub trunc-IsCanonical_iff :
    (t : IrType) (v : ℕ)
    → IsWord v
    → IsCanonical t (trunc_wrap_to_type v (some t))
      × ((trunc_wrap_to_type v (some t) ≡ v) ↔ IsCanonical t v)
trunc-IsCanonical_iff t v h = (
  trunc-IsCanonical t v h,
  (λ e. subst (IsCanonical t) e (trunc-IsCanonical t v h), trunc_canonical t v),
)

-- A second truncation to the same type changes nothing.
pub trunc_idem :
    (t : Option IrType) (v : ℕ)
    → trunc_wrap_to_type (trunc_wrap_to_type v t) t ≡ trunc_wrap_to_type v t
unfolding trunc_wrap_to_type
trunc_idem none v = refl
trunc_idem (some IrType.i1) v = ground arith
trunc_idem (some IrType.i8) v = ground arith
trunc_idem (some IrType.i16) v = ground arith
trunc_idem (some IrType.i32) v = ground arith
trunc_idem (some IrType.u8) v = ground arith
trunc_idem (some IrType.u16) v = ground arith
trunc_idem (some IrType.u32) v = ground arith
trunc_idem (some _) v = refl

pub trunc-IsWord : (t : Option IrType) (v : ℕ) → IsWord v → IsWord (trunc_wrap_to_type v t)
unfolding trunc_wrap_to_type
trunc-IsWord none v h = h
trunc-IsWord (some IrType.i1) v h = ground arith
trunc-IsWord (some IrType.i8) v h = ground arith
trunc-IsWord (some IrType.i16) v h = ground arith
trunc-IsWord (some IrType.i32) v h = ground arith
trunc-IsWord (some IrType.u8) v h = ground arith
trunc-IsWord (some IrType.u16) v h = ground arith
trunc-IsWord (some IrType.u32) v h = ground arith
trunc-IsWord (some _) v h = h
