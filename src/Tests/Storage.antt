-- ===== src/Tests/Storage.antt =====
-- Runs of the arena (src/middleend/ir_arena.c), of the sizes of types
-- (src/middleend/ir_data_layout.c) and of the equality of types (src/middleend/ir.c).
use baa.Base.{◌⊎◌, ◌^◌, ◌<◌, ◌+◌, ◌*◌, ◌%◌, ◌≤◌, ◌≡◌, ◌↔◌, refl, true, none, some, [], ◌∷◌, arith}
use baa.Ir.Types.{IrType, ir_type_bits, ir_types_equal, types_equal_iff}
use baa.Arena.{IrArena, ir_arena_alloc, ir_arena_calloc}
use baa.Arena.Calloc.{arena_calloc_product}
use baa.Arena.Alloc.{IsServed, arena_alloc-IsServed}
use baa.DataLayout.{
  size_bytes, IrDataLayout, ir_type_size_bytes, ir_type_alignment, ir_type_store_size,
  ir_data_layout_win_x64,
}
use baa.DataLayout.Sizes.{
  exact_size, IsAligned, store_size_padded, store_size_default, bits-size_bytes,
}

abbrev test_arena : IrArena
test_arena = record {
  chunks = record { addr = 4096; used = 65530; cap = 65536 } ∷ [];
  default_chunk_size = 65536;
}

arena_alloc-IsServed_example :
    IsServed 24 16 (some 80000) test_arena (ir_arena_alloc (some 80000) 24 16 test_arena)
arena_alloc-IsServed_example =
    arena_alloc-IsServed (some 80000) 24 16 test_arena (omega arith) (omega arith) (omega arith)
      (omega arith) (omega arith, tt) (omega arith, tt) (omega arith, tt)

-- 2 ^ 33 objects of 2 ^ 32 bytes each.
arena_calloc_product_example :
    ((2 ^ 33 * 2 ^ 32 < 2 ^ 64)
      × (ir_arena_calloc (some 80000) (2 ^ 33) (2 ^ 32) 8 test_arena
          ≡ ir_arena_alloc (some 80000) (2 ^ 33 * 2 ^ 32) 8 test_arena))
    ⊎ ((2 ^ 64 ≤ 2 ^ 33 * 2 ^ 32)
        × (ir_arena_calloc (some 80000) (2 ^ 33) (2 ^ 32) 8 test_arena ≡ (none, test_arena)))
arena_calloc_product_example = arena_calloc_product (some 80000) (2 ^ 33) (2 ^ 32) 8 test_arena

-- An array of three arrays of five 16-bit numbers.
abbrev grid : IrType
grid = IrType.array (IrType.array IrType.i16 5) 3

-- A layout in which 16-bit numbers are aligned to 4 bytes.
abbrev padded_layout : IrDataLayout
padded_layout = record ir_data_layout_win_x64 { i16_align_bytes = 4 }

padded_layout-IsAligned : IsAligned padded_layout
padded_layout-IsAligned = record {
  pointer = omega arith;
  byte = omega arith;
  half = omega arith;
  word = omega arith;
  quad = omega arith;
}

store_size_padded_example :
    (ir_type_size_bytes (some padded_layout) (some grid) ≡ exact_size padded_layout grid)
    × (exact_size padded_layout grid ≤ ir_type_store_size (some padded_layout) (some grid))
    × (ir_type_store_size (some padded_layout) (some grid)
        < exact_size padded_layout grid + ir_type_alignment (some padded_layout) (some grid))
    × (ir_type_store_size (some padded_layout) (some grid)
          % ir_type_alignment (some padded_layout) (some grid)
        ≡ 0)
unfolding ir_type_alignment size_bytes
store_size_padded_example =
    store_size_padded padded_layout grid padded_layout-IsAligned ((tt, omega arith), omega arith)
      (omega arith)

grid-stored : ir_type_store_size (some padded_layout) (some grid) ≡ 32
unfolding ir_type_store_size
grid-stored = refl

store_size_default_example :
    ir_type_store_size none (some grid) ≡ exact_size ir_data_layout_win_x64 grid
unfolding ir_type_alignment size_bytes
store_size_default_example = store_size_default grid ((tt, omega arith), omega arith) (omega arith)

bits-size_bytes_example :
    (ir_type_bits (some grid) ≡ 8 * ir_type_size_bytes none (some grid))
    × (ir_type_size_bytes none (some grid) ≡ exact_size ir_data_layout_win_x64 grid)
unfolding size_bytes
bits-size_bytes_example = bits-size_bytes grid tt ((tt, omega arith), omega arith)

types_equal_iff_example :
    (ir_types_equal (some grid) (some (IrType.ptr grid)) ≡ true)
    ↔ (some grid ≡ some (IrType.ptr grid))
types_equal_iff_example = types_equal_iff (some grid) (some (IrType.ptr grid))
