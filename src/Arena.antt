-- ===== src/Arena.antt =====
-- The arena allocator of the intermediate representation (src/middleend/ir_arena.c and ir_arena.h).
-- A chunk is known by the number of chunks below it, and has the address that `malloc` gave it; a
-- pointer is a chunk, an offset in its data and the address that these make, with the data 24 bytes
-- behind the chunk's address. What the one call of `malloc` gives is an argument: an address or NULL. A size_t is a number below 2 ^ 64
-- and sums wrap. `x & ~(align - 1)` at a power of two is x less its remainder.
pub mod Alloc
pub mod Calloc
use Prim.Native.Nat.{bit_and}
use baa.Base.{
  ℕ, suc, ◌+◌, ◌-◌, ◌*◌, ◌/◌, ◌%◌, ◌^◌, Bool, true, false, not, ◌&&◌, Option, none, some, List, [],
  ◌∷◌, if◌then◌else◌, ◌==◌, ltb, leb, length,
}

pub record Chunk : Type 0 where
  pub addr : ℕ
  pub used : ℕ
  pub cap : ℕ

pub record IrArena : Type 0 where
  pub chunks : List Chunk
  pub default_chunk_size : ℕ

pub record Pointer : Type 0 where
  pub chunk : ℕ
  pub off : ℕ
  pub addr : ℕ

abbrev pub ir_arena_min_chunk_size : ℕ
ir_arena_min_chunk_size = 64 * 1024

abbrev pub sizeof_pointer : ℕ
sizeof_pointer = 8

-- The offset of `data` in a chunk: a pointer and two numbers of type size_t.
abbrev pub data_offset : ℕ
data_offset = 24

unfoldable pub ir_align_up : ℕ → ℕ → ℕ
ir_align_up x align =
    if align == 0 then x else (x + (align - 1)) % 2 ^ 64 - (x + (align - 1)) % 2 ^ 64 % align

unfoldable pub ir_max_size : ℕ → ℕ → ℕ
ir_max_size a b = if ltb b a then a else b

unfoldable pub ir_arena_init : ℕ → IrArena
ir_arena_init default_chunk_size = record {
  chunks = [];
  default_chunk_size =
      if ltb default_chunk_size ir_arena_min_chunk_size
      then ir_arena_min_chunk_size
      else default_chunk_size;
}

unfoldable pub ir_arena_destroy : IrArena → IrArena
ir_arena_destroy arena = record arena { chunks = [] }

pub record IrArenaStats : Type 0 where
  pub chunks : ℕ
  pub used_bytes : ℕ
  pub cap_bytes : ℕ

unfoldable pub add_stats : IrArenaStats → List Chunk → IrArenaStats
add_stats s [] = s
add_stats s (c ∷ cs) =
    add_stats
      (record {
        chunks = (s.chunks + 1) % 2 ^ 64;
        used_bytes = (s.used_bytes + c.used) % 2 ^ 64;
        cap_bytes = (s.cap_bytes + c.cap) % 2 ^ 64;
      })
      cs

unfoldable pub ir_arena_get_stats : IrArena → IrArenaStats
unfolding add_stats
ir_arena_get_stats arena =
    add_stats (record { chunks = 0; used_bytes = 0; cap_bytes = 0 }) arena.chunks

-- A size of 0 asks for one byte.
unfoldable pub at_least_one : ℕ → ℕ
at_least_one size = if size == 0 then 1 else size

-- An alignment that is 0 or no power of two becomes that of a pointer.
unfoldable pub checked_align : ℕ → ℕ
checked_align align =
    let a = if align == 0 then sizeof_pointer else align in
    if bit_and a (a - 1) == 0 then a else sizeof_pointer

-- A new chunk in front, for a request that the first chunk has no room for.
unfoldable pub alloc_chunk : Option ℕ → ℕ → ℕ → IrArena → Option Pointer × IrArena
unfolding ir_align_up ir_max_size
alloc_chunk none size align arena = (none, arena)
alloc_chunk (some base) size align arena =
    let cap = ir_max_size arena.default_chunk_size (ir_align_up size align) in
    let off = ir_align_up 0 align in
    (
      some (record { chunk = length arena.chunks; off = off; addr = base + data_offset + off }),
      record arena {
        chunks = record { addr = base; used = (off + size) % 2 ^ 64; cap = cap } ∷ arena.chunks;
      },
    )

-- The request with its size and alignment checked.
unfoldable pub alloc_in : Option ℕ → ℕ → ℕ → List Chunk → IrArena → Option Pointer × IrArena
unfolding ir_align_up alloc_chunk
alloc_in malloc size align [] arena = alloc_chunk malloc size align arena
alloc_in malloc size align (c ∷ cs) arena =
    let off = ir_align_up c.used align in
    if leb ((off + size) % 2 ^ 64) c.cap
    then (
      some (record { chunk = length cs; off = off; addr = c.addr + data_offset + off }),
      record arena { chunks = record c { used = (off + size) % 2 ^ 64 } ∷ cs },
    )
    else alloc_chunk malloc size align arena

unfoldable pub ir_arena_alloc : Option ℕ → ℕ → ℕ → IrArena → Option Pointer × IrArena
unfolding at_least_one checked_align alloc_in
ir_arena_alloc malloc size align arena =
    alloc_in malloc (at_least_one size) (checked_align align) arena.chunks arena

-- The zeroing of the memory is not modelled.
unfoldable pub ir_arena_calloc : Option ℕ → ℕ → ℕ → ℕ → IrArena → Option Pointer × IrArena
unfolding ir_arena_alloc
ir_arena_calloc malloc count size align arena =
    if count == 0
    then ir_arena_alloc malloc 1 align arena
    else if size == 0
    then ir_arena_alloc malloc 1 align arena
    else let total = count * size % 2 ^ 64 in
      if total / size == count then ir_arena_alloc malloc total align arena else (none, arena)
