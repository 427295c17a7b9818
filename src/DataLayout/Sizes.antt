-- ===== src/DataLayout/Sizes.antt =====
-- What the sizes of src/middleend/ir_data_layout.c promise: padding, alignment and the bit widths.
use baa.Base.{
  ℕ, ◌+◌, ◌-◌, ◌*◌, ◌/◌, ◌%◌, ◌^◌, ◌≤◌, ◌<◌, ◌≡◌, ◌∙◌, subst, refl, ap, sym, none, some, arith,
  if◌then◌else◌, ◌==◌,
}
use native.Mathlib.Nat.{div-mul-le_self, lt-div-mul-add, mul-mod_left, div-eq_of_lt-le, mul_assoc}
use baa.Ir.Types.{IrType, ir_type_bits}
use baa.DataLayout.{
  IrDataLayout, ir_data_layout_win_x64, size_bytes, ir_type_size_bytes, alignment,
  ir_type_alignment, round_up, ir_type_store_size,
}

round_up_plain :
    (size align : ℕ)
    → 0 < align
    → size + align ≤ 2 ^ 31
    → round_up size align ≡ (size + align - 1) / align * align
unfolding round_up
round_up_plain size align h fits =
    let x = size + align - 1 in
    let sum : x % 2 ^ 32 ≡ x = omega (arith, fits, h) in
    let low : x / align * align ≤ x = div-mul-le_self x align in
    rw sum (omega (arith, low, fits, h))

round_up_bounds :
    (size align : ℕ)
    → 0 < align
    → size + align ≤ 2 ^ 31
    → (size ≤ round_up size align)
      × (round_up size align < size + align)
      × (round_up size align % align ≡ 0)
unfolding round_up
round_up_bounds size align h fits =
    let x = size + align - 1 in
    let low : x / align * align ≤ x = div-mul-le_self x align in
    let high : x < x / align * align + align = lt-div-mul-add h in
    rw (round_up_plain size align h fits) (omega arith, omega arith, mul-mod_left (x / align) align)

round_up_exact :
    (k align : ℕ) → 0 < align → k * align + align ≤ 2 ^ 31 → round_up (k * align) align ≡ k * align
round_up_exact k align h fits =
    round_up_plain (k * align) align h fits
    ∙ ap (λ (q : ℕ). q * align)
        (div-eq_of_lt-le {k = k} align {m = k * align + align - 1} (omega arith) (omega arith))

-- The alignments that a layout gives are positive, but for types with no object.
pub record IsAligned (d : IrDataLayout) : Type 0 where
  pub pointer : 0 < d.pointer_align_bytes
  pub byte : 0 < d.i8_align_bytes
  pub half : 0 < d.i16_align_bytes
  pub word : 0 < d.i32_align_bytes
  pub quad : 0 < d.i64_align_bytes

alignment-pos : (d : IrDataLayout) (t : IrType) → IsAligned d → 0 < alignment d t
unfolding alignment
alignment-pos d IrType.void h = omega arith
alignment-pos d IrType.i1 h = omega arith
alignment-pos d IrType.i8 h = h.byte
alignment-pos d IrType.u8 h = h.byte
alignment-pos d IrType.i16 h = h.half
alignment-pos d IrType.u16 h = h.half
alignment-pos d IrType.i32 h = h.word
alignment-pos d IrType.u32 h = h.word
alignment-pos d IrType.i64 h = h.quad
alignment-pos d IrType.u64 h = h.quad
alignment-pos d IrType.char h = h.quad
alignment-pos d IrType.f64 h = h.quad
alignment-pos d (IrType.ptr _) h = h.pointer
alignment-pos d (IrType.array element _) h = alignment-pos d element h
alignment-pos d (IrType.func _ _) h = h.pointer

-- The size of an object of the type without any bound on it: that of its innermost element as often
-- as the arrays around it have places.
abbrev pub exact_size : IrDataLayout → IrType → ℕ
exact_size d (IrType.array element count) = count * exact_size d element
exact_size d t = size_bytes d t

-- No array in the type is above INT_MAX bytes.
abbrev pub HasIntSize : IrDataLayout → IrType → Type 0
HasIntSize d (IrType.array element count) =
    HasIntSize d element × (count * exact_size d element < 2 ^ 31)
HasIntSize d _ = Unit

size_bytes_exact :
    (d : IrDataLayout) (t : IrType) → HasIntSize d t → size_bytes d t ≡ exact_size d t
unfolding size_bytes
size_bytes_exact d (IrType.array element count) (inner, small) =
    rw (size_bytes_exact d element inner) (omega (arith, small))
size_bytes_exact d _ h = refl

-- In every layout with positive alignments and for every type in which no array is above INT_MAX bytes,
-- and whose size and alignment are together at most 2 ^ 31: the size is the exact one, and the storage
-- size is the least multiple of the type's alignment that is not below it.
pub store_size_padded :
    (d : IrDataLayout) (t : IrType)
    → IsAligned d
    → HasIntSize d t
    → exact_size d t + ir_type_alignment (some d) (some t) ≤ 2 ^ 31
    → (ir_type_size_bytes (some d) (some t) ≡ exact_size d t)
      × (exact_size d t ≤ ir_type_store_size (some d) (some t))
      × (ir_type_store_size (some d) (some t)
          < exact_size d t + ir_type_alignment (some d) (some t))
      × (ir_type_store_size (some d) (some t) % ir_type_alignment (some d) (some t) ≡ 0)
unfolding ir_type_store_size
store_size_padded d t h sized fits =
    let pos = alignment-pos d t h in
    let same : (if alignment d t == 0 then 1 else alignment d t) ≡ alignment d t = ground arith in
    let exact = size_bytes_exact d t sized in
    let (low, high, multiple) = round_up_bounds (exact_size d t) (alignment d t) pos fits in
    rw (same, exact) (refl, low, high, multiple)

-- A type's size in units of its alignment.
Units : IrType → Type 0
Units t = (k : ℕ) × (exact_size ir_data_layout_win_x64 t ≡ k * alignment ir_data_layout_win_x64 t)

units : (t : IrType) → Units t
unfolding Units size_bytes alignment
units IrType.void = (0, refl)
units (IrType.array element count) =
    let (k, e) = units element in (count * k, rw e (sym (mul_assoc count k _)))
units _ = (1, refl)

-- In the default layout (Windows x86-64, which a NULL layout stands for) no type is padded, of every
-- nesting of arrays too: its storage size is its exact size, where no array in it is above INT_MAX bytes
-- and its size and alignment are together at most 2 ^ 31.
pub store_size_default :
    (t : IrType)
    → HasIntSize ir_data_layout_win_x64 t
    → exact_size ir_data_layout_win_x64 t + ir_type_alignment none (some t) ≤ 2 ^ 31
    → ir_type_store_size none (some t) ≡ exact_size ir_data_layout_win_x64 t
unfolding ir_type_store_size Units
store_size_default t sized fits =
    let d = ir_data_layout_win_x64 in
    let pos = alignment-pos d t (omega arith) in
    let same : (if alignment d t == 0 then 1 else alignment d t) ≡ alignment d t = ground arith in
    let (k, e) = units t in
    rw (same, size_bytes_exact d t sized, e)
      (round_up_exact k (alignment d t) pos (subst (λ n. n + alignment d t ≤ 2 ^ 31) e fits))

-- The types whose bits fill their bytes: no i1 inside.
abbrev pub HasWholeBytes : IrType → Type 0
HasWholeBytes IrType.i1 = ⊥
HasWholeBytes (IrType.array element _) = HasWholeBytes element
HasWholeBytes _ = Unit

-- No array in the type is above INT_MAX bits.
abbrev pub HasIntBits : IrType → Type 0
HasIntBits (IrType.array element count) =
    HasIntBits element × (count * (8 * exact_size ir_data_layout_win_x64 element) < 2 ^ 31)
HasIntBits _ = Unit

-- The size in bytes (src/middleend/ir_data_layout.c) and the width in bits (src/middleend/ir.c) of a
-- type agree in the default layout: eight bits to a byte, and the exact size, for every type with no i1
-- in it and no array above INT_MAX bits.
pub bits-size_bytes :
    (t : IrType)
    → HasWholeBytes t
    → HasIntBits t
    → (ir_type_bits (some t) ≡ 8 * ir_type_size_bytes none (some t))
      × (ir_type_size_bytes none (some t) ≡ exact_size ir_data_layout_win_x64 t)
unfolding ir_type_bits ir_type_size_bytes
bits-size_bytes IrType.i1 h small = absurd h
bits-size_bytes (IrType.array element count) h (inner, small) =
    let (bits, size) = bits-size_bytes element h inner in
    let product = ap (λ (x : ℕ). count * x) (bits ∙ ap (λ (x : ℕ). 8 * x) size) in
    let product' = ap (λ (x : ℕ). count * x) size in
    (omega (arith, product, product', small), omega (arith, product', small))
bits-size_bytes _ h small = (refl, refl)
