-- ===== src/Ir/Types.antt =====
-- Types of the intermediate representation (src/middleend/ir.h, and `ir_types_equal` and
-- `ir_type_bits` of src/middleend/ir.c). A NULL type pointer is `none`. The count of an array is
-- a natural number, as the front end builds it, and a product of ints is cut to 32 bits.
use baa.Base.{
  ℕ, ◌*◌, ◌%◌, ◌^◌, ◌≡◌, refl, ap, ap₂, Bool, true, false, ◌&&◌, &&-both, Option, none, some, arith,
  ◌==◌, ==_iff, ◌↔◌,
}

mutual
  -- IRTypeKind with the union of IRType: each kind carries its own data.
  pub data IrType : Type 0 where
    void i1 i8 i16 i32 i64 u8 u16 u32 u64 char f64 : IrType
    ptr : IrType → IrType
    array : IrType → ℕ → IrType
    func : IrType → IrTypes → IrType

  pub data IrTypes : Type 0 where
    nil : IrTypes
    cons : IrType → IrTypes → IrTypes

-- `ir_type_bits` of a type that is there.
unfoldable pub bits_of : IrType → ℕ
bits_of IrType.void = 0
bits_of IrType.i1 = 1
bits_of IrType.i8 = 8
bits_of IrType.i16 = 16
bits_of IrType.i32 = 32
bits_of IrType.i64 = 64
bits_of IrType.u8 = 8
bits_of IrType.u16 = 16
bits_of IrType.u32 = 32
bits_of IrType.u64 = 64
bits_of IrType.char = 64
bits_of IrType.f64 = 64
bits_of (IrType.ptr _) = 64
bits_of (IrType.array element count) = count * bits_of element % 2 ^ 32
bits_of (IrType.func _ _) = 64

unfoldable pub ir_type_bits : Option IrType → ℕ
unfolding bits_of
ir_type_bits none = 0
ir_type_bits (some t) = bits_of t

-- Equality of two types that are there, and of two lists of parameter types.
unfoldable mutual
  pub types_equal : IrType → IrType → Bool
  types_equal IrType.void IrType.void = true
  types_equal IrType.i1 IrType.i1 = true
  types_equal IrType.i8 IrType.i8 = true
  types_equal IrType.i16 IrType.i16 = true
  types_equal IrType.i32 IrType.i32 = true
  types_equal IrType.i64 IrType.i64 = true
  types_equal IrType.u8 IrType.u8 = true
  types_equal IrType.u16 IrType.u16 = true
  types_equal IrType.u32 IrType.u32 = true
  types_equal IrType.u64 IrType.u64 = true
  types_equal IrType.char IrType.char = true
  types_equal IrType.f64 IrType.f64 = true
  types_equal (IrType.ptr a) (IrType.ptr b) = types_equal a b
  types_equal (IrType.array a m) (IrType.array b n) = m == n && types_equal a b
  types_equal (IrType.func a ps) (IrType.func b qs) = types_equal a b && lists_equal ps qs
  types_equal _ _ = false

  pub lists_equal : IrTypes → IrTypes → Bool
  lists_equal IrTypes.nil IrTypes.nil = true
  lists_equal (IrTypes.cons a ps) (IrTypes.cons b qs) = types_equal a b && lists_equal ps qs
  lists_equal _ _ = false

unfoldable pub ir_types_equal : Option IrType → Option IrType → Bool
unfolding types_equal
ir_types_equal none none = true
ir_types_equal (some a) (some b) = types_equal a b
ir_types_equal _ _ = false

mutual
  unfolding types_equal lists_equal

  types_equal_refl : (a : IrType) → types_equal a a ≡ true
  types_equal_refl (IrType.ptr a) = types_equal_refl a
  types_equal_refl (IrType.array a m) = ground (arith, types_equal_refl a)
  types_equal_refl (IrType.func a ps) = ground (arith, types_equal_refl a, lists_equal_refl ps)
  types_equal_refl _ = refl

  lists_equal_refl : (ps : IrTypes) → lists_equal ps ps ≡ true
  lists_equal_refl IrTypes.nil = refl
  lists_equal_refl (IrTypes.cons a ps) = ground (arith, types_equal_refl a, lists_equal_refl ps)

mutual
  unfolding types_equal lists_equal

  types_equal_sound : (a b : IrType) → types_equal a b ≡ true → a ≡ b
  types_equal_sound IrType.void IrType.void h = refl
  types_equal_sound IrType.i1 IrType.i1 h = refl
  types_equal_sound IrType.i8 IrType.i8 h = refl
  types_equal_sound IrType.i16 IrType.i16 h = refl
  types_equal_sound IrType.i32 IrType.i32 h = refl
  types_equal_sound IrType.i64 IrType.i64 h = refl
  types_equal_sound IrType.u8 IrType.u8 h = refl
  types_equal_sound IrType.u16 IrType.u16 h = refl
  types_equal_sound IrType.u32 IrType.u32 h = refl
  types_equal_sound IrType.u64 IrType.u64 h = refl
  types_equal_sound IrType.char IrType.char h = refl
  types_equal_sound IrType.f64 IrType.f64 h = refl
  types_equal_sound (IrType.ptr a) (IrType.ptr b) h = ap IrType.ptr (types_equal_sound a b h)
  types_equal_sound (IrType.array a m) (IrType.array b n) h =
      let (same, rest) = &&-both (m == n) (types_equal a b) h in
      ap₂ IrType.array (types_equal_sound a b rest) ((==_iff m n).0 same)
  types_equal_sound (IrType.func a ps) (IrType.func b qs) h =
      let (same, rest) = &&-both (types_equal a b) (lists_equal ps qs) h in
      ap₂ IrType.func (types_equal_sound a b same) (lists_equal_sound ps qs rest)
  types_equal_sound _ _ h = cc

  lists_equal_sound : (ps qs : IrTypes) → lists_equal ps qs ≡ true → ps ≡ qs
  lists_equal_sound IrTypes.nil IrTypes.nil h = refl
  lists_equal_sound (IrTypes.cons a ps) (IrTypes.cons b qs) h =
      let (same, rest) = &&-both (types_equal a b) (lists_equal ps qs) h in
      ap₂ IrTypes.cons (types_equal_sound a b same) (lists_equal_sound ps qs rest)
  lists_equal_sound _ _ h = cc

-- `ir_types_equal` holds of exactly the types of equal structure, NULL being equal to NULL alone.
pub types_equal_iff : (a b : Option IrType) → (ir_types_equal a b ≡ true) ↔ (a ≡ b)
unfolding ir_types_equal
types_equal_iff none none = (λ _. refl, λ _. refl)
types_equal_iff (some a) (some b) =
    (λ h. ap some (types_equal_sound a b h), λ e. ground (arith, types_equal_refl a, e))
types_equal_iff none (some b) = (λ h. cc, λ e. cc)
types_equal_iff (some a) none = (λ h. cc, λ e. cc)
