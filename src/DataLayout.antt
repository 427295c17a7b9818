-- ===== src/DataLayout.antt =====
-- Sizes and alignments of types (src/middleend/ir_data_layout.c and ir_data_layout.h). An `int` is a
-- natural number: no size or count in a layout is negative, and a sum or product is cut to 32 bits. One
-- above INT_MAX is undefined in the source. A NULL layout or type is `none`.
pub mod Sizes
use baa.Base.{
  ℕ, ◌+◌, ◌-◌, ◌*◌, ◌/◌, ◌%◌, ◌^◌, Bool, true, false, Option, none, some, if◌then◌else◌, ◌==◌,
}
use baa.Ir.Types.{IrType}

pub record IrDataLayout : Type 0 where
  pub pointer_size_bytes : ℕ
  pub pointer_align_bytes : ℕ
  pub i1_store_size_bytes : ℕ
  pub i8_align_bytes : ℕ
  pub i16_align_bytes : ℕ
  pub i32_align_bytes : ℕ
  pub i64_align_bytes : ℕ

abbrev pub ir_data_layout_win_x64 : IrDataLayout
ir_data_layout_win_x64 = record {
  pointer_size_bytes = 8;
  pointer_align_bytes = 8;
  i1_store_size_bytes = 1;
  i8_align_bytes = 1;
  i16_align_bytes = 2;
  i32_align_bytes = 4;
  i64_align_bytes = 8;
}

unfoldable pub dl_or_default : Option IrDataLayout → IrDataLayout
dl_or_default none = ir_data_layout_win_x64
dl_or_default (some d) = d

unfoldable pub size_bytes : IrDataLayout → IrType → ℕ
size_bytes d IrType.void = 0
size_bytes d IrType.i1 = d.i1_store_size_bytes
size_bytes d IrType.i8 = 1
size_bytes d IrType.u8 = 1
size_bytes d IrType.i16 = 2
size_bytes d IrType.u16 = 2
size_bytes d IrType.i32 = 4
size_bytes d IrType.u32 = 4
size_bytes d IrType.i64 = 8
size_bytes d IrType.u64 = 8
size_bytes d IrType.char = 8
size_bytes d IrType.f64 = 8
size_bytes d (IrType.ptr _) = d.pointer_size_bytes
size_bytes d (IrType.array element count) = count * size_bytes d element % 2 ^ 32
size_bytes d (IrType.func _ _) = d.pointer_size_bytes

unfoldable pub ir_type_size_bytes : Option IrDataLayout → Option IrType → ℕ
unfolding size_bytes dl_or_default
ir_type_size_bytes dl none = 0
ir_type_size_bytes dl (some t) = size_bytes (dl_or_default dl) t

unfoldable pub alignment : IrDataLayout → IrType → ℕ
alignment d IrType.void = 1
alignment d IrType.i1 = 1
alignment d IrType.i8 = d.i8_align_bytes
alignment d IrType.u8 = d.i8_align_bytes
alignment d IrType.i16 = d.i16_align_bytes
alignment d IrType.u16 = d.i16_align_bytes
alignment d IrType.i32 = d.i32_align_bytes
alignment d IrType.u32 = d.i32_align_bytes
alignment d IrType.i64 = d.i64_align_bytes
alignment d IrType.u64 = d.i64_align_bytes
alignment d IrType.char = d.i64_align_bytes
alignment d IrType.f64 = d.i64_align_bytes
alignment d (IrType.ptr _) = d.pointer_align_bytes
alignment d (IrType.array element _) = alignment d element
alignment d (IrType.func _ _) = d.pointer_align_bytes

unfoldable pub ir_type_alignment : Option IrDataLayout → Option IrType → ℕ
unfolding alignment dl_or_default
ir_type_alignment dl none = 1
ir_type_alignment dl (some t) = alignment (dl_or_default dl) t

unfoldable pub round_up : ℕ → ℕ → ℕ
round_up size align = (size + align - 1) % 2 ^ 32 / align * align % 2 ^ 32

unfoldable pub ir_type_store_size : Option IrDataLayout → Option IrType → ℕ
unfolding ir_type_size_bytes ir_type_alignment round_up
ir_type_store_size dl none = 0
ir_type_store_size dl (some t) =
    let size = ir_type_size_bytes dl (some t) in
    let align = ir_type_alignment dl (some t) in round_up size (if align == 0 then 1 else align)

unfoldable pub ir_type_is_integer : Option IrType → Bool
ir_type_is_integer (some IrType.i1) = true
ir_type_is_integer (some IrType.i8) = true
ir_type_is_integer (some IrType.i16) = true
ir_type_is_integer (some IrType.i32) = true
ir_type_is_integer (some IrType.i64) = true
ir_type_is_integer (some IrType.u8) = true
ir_type_is_integer (some IrType.u16) = true
ir_type_is_integer (some IrType.u32) = true
ir_type_is_integer (some IrType.u64) = true
ir_type_is_integer (some IrType.char) = true
ir_type_is_integer _ = false

unfoldable pub ir_type_is_pointer : Option IrType → Bool
ir_type_is_pointer (some (IrType.ptr _)) = true
ir_type_is_pointer _ = false
