-- ===== src/Arena/Alloc.antt =====
-- What an allocation of src/middleend/ir_arena.c promises: a range inside its chunk, aligned, and
-- beyond everything handed out before.
use native.Mathlib.Nat.{mul-mod_left, div-add-mod', div-mul-le_self, lt-div-mul-add, div-eq_of_lt}
use baa.Base.{
  ℕ, ◌+◌, ◌-◌, ◌*◌, ◌/◌, ◌%◌, ◌^◌, ◌≤◌, ◌<◌, ◌≡◌, ◌⊎◌, inl, inr, refl, sym, ◌∙◌, ap, subst, zero,
  suc, ==_iff, false, Option, none, some, List, [], ◌∷◌, arith, ◌==◌, leb, leb→le, length,
  Bool-cases,
}
use Prim.Native.Nat.{bit_and}
use baa.Base.Bits.{bit_and-power, pow-pos}
use baa.Arena.{
  data_offset, Chunk, IrArena, Pointer, ir_align_up, ir_max_size, ir_arena_alloc, at_least_one,
  checked_align, alloc_chunk, alloc_in,
}

align_up_product :
    (x align : ℕ)
    → 0 < align
    → x + align ≤ 2 ^ 64
    → ir_align_up x align ≡ (x + align - 1) / align * align
unfolding ir_align_up
align_up_product x align h bound =
    let y = x + align - 1 in
    let plain : (x + (align - 1)) % 2 ^ 64 ≡ y = omega arith in
    let nonzero : (align == 0) ≡ false = ground arith in
    rw (nonzero, plain) (omega (arith, div-add-mod' y align))

-- Below 2 ^ 64 rounding up gives the least multiple of the alignment from x on.
align_up_bounds :
    (x align : ℕ)
    → 0 < align
    → x + align ≤ 2 ^ 64
    → (x ≤ ir_align_up x align)
      × (ir_align_up x align < x + align)
      × (ir_align_up x align % align ≡ 0)
align_up_bounds x align h bound =
    let y = x + align - 1 in
    let low : y / align * align ≤ y = div-mul-le_self y align in
    let high : y < y / align * align + align = lt-div-mul-add h in
    rw (align_up_product x align h bound) (omega arith, omega arith, mul-mod_left (y / align) align)

checked_align-pos : (align : ℕ) → 0 < checked_align align
unfolding checked_align
checked_align-pos align = ground arith

-- The first chunk's free range starts at `used`; no chunk is filled beyond its capacity.
abbrev pub Filled : List Chunk → Type 0
Filled [] = Unit
Filled (c ∷ cs) = (c.used ≤ c.cap) × Filled cs

-- Where an allocation of `size` bytes went: into the first chunk beyond all that was used
-- there, or to the start of a new chunk. No other chunk is touched.
pub data Placed (size : ℕ) (before : List Chunk) (p : Pointer) : List Chunk → Type 0 where
  in_first :
      (c d : Chunk) (rest : List Chunk)
      → before ≡ c ∷ rest
      → c.used ≤ p.off
      → d.used ≡ p.off + size
      → d.cap ≡ c.cap
      → d.used ≤ d.cap
      → d.addr ≡ c.addr
      → p.chunk ≡ length rest
      → p.addr ≡ c.addr + data_offset + p.off
      → Placed size before p (d ∷ rest)
  in_new :
      (d : Chunk)
      → p.off ≡ 0
      → d.used ≡ size
      → d.used ≤ d.cap
      → p.chunk ≡ length before
      → p.addr ≡ d.addr + data_offset
      → Placed size before p (d ∷ before)

align_up_zero : (align : ℕ) → 0 < align → align ≤ 2 ^ 64 → ir_align_up 0 align ≡ 0
align_up_zero align h bound =
    let none_left : (0 + align - 1) / align ≡ 0 = div-eq_of_lt (omega arith) in
    rw (align_up_product 0 align h (omega arith), none_left) (omega arith)

-- Capacities small enough that no sum of the allocator wraps.
abbrev pub Capped : List Chunk → Type 0
Capped [] = Unit
Capped (c ∷ cs) = (c.cap ≤ 2 ^ 62) × Capped cs

-- Every chunk is at an address that `malloc` may give: a multiple of eight at least.
abbrev pub AtWords : List Chunk → Type 0
AtWords [] = Unit
AtWords (c ∷ cs) = (c.addr % 8 ≡ 0) × AtWords cs

abbrev pub AtWord : Option ℕ → Type 0
AtWord none = Unit
AtWord (some base) = base % 8 ≡ 0

-- What an allocation may do: fail with the arena as it was, or place the bytes at an aligned offset.
abbrev ServedIn : ℕ → ℕ → Option ℕ → IrArena → Option Pointer × IrArena → Type 0
ServedIn size align malloc arena r =
    ((malloc ≡ none) × (r.0 ≡ none) × (r.1 ≡ arena))
    ⊎ ((p : Pointer) × (r.0 ≡ some p)
        × Placed size arena.chunks p r.1.chunks
        × (p.off % align ≡ 0)
        × (p.addr % 8 ≡ p.off % 8)
        × Filled r.1.chunks
        × AtWords r.1.chunks)

module _ (size align : ℕ) (arena : IrArena) (size_ok : size ≤ 2 ^ 62) (align_ok : align ≤ 2 ^ 62)
    (default_ok : arena.default_chunk_size ≤ 2 ^ 62) (pos : 0 < align) where
  max_size_bounds : (x y : ℕ) → (x ≤ ir_max_size x y) × (y ≤ ir_max_size x y)
  unfolding ir_max_size
  max_size_bounds x y = ground arith

  alloc_chunk-ServedIn :
      (malloc : Option ℕ)
      → AtWord malloc
      → Filled arena.chunks
      → AtWords arena.chunks
      → ServedIn size align malloc arena (alloc_chunk malloc size align arena)
  unfolding alloc_chunk
  alloc_chunk-ServedIn none word filled words = inl (refl, refl, refl)
  alloc_chunk-ServedIn (some base) word filled words =
      let zero_off = align_up_zero align pos (omega arith) in
      let up = align_up_bounds size align pos (omega arith) in
      let room = max_size_bounds arena.default_chunk_size (ir_align_up size align) in
      let fits : (0 + size) % 2 ^ 64 ≡ size = omega arith in
      rw (zero_off, fits)
        (inr (
          record { chunk = length arena.chunks; off = 0; addr = base + data_offset + 0 },
          refl,
          in_new (record { addr = base; used = size; cap = _ }) refl refl (omega arith) refl
              (omega arith),
          omega arith,
          omega (arith, word),
          (omega arith, filled),
          (word, words),
        ))

  alloc_in-ServedIn :
      (malloc : Option ℕ) (cs : List Chunk)
      → arena.chunks ≡ cs
      → AtWord malloc
      → Filled cs
      → AtWords cs
      → Capped cs
      → ServedIn size align malloc arena (alloc_in malloc size align cs arena)
  unfolding alloc_in
  alloc_in-ServedIn malloc [] e word filled words capped =
      alloc_chunk-ServedIn malloc word (subst Filled (sym e) filled) (subst AtWords (sym e) words)
  alloc_in-ServedIn malloc (c ∷ cs) e word filled words capped =
      elim (Bool-cases (leb ((ir_align_up c.used align + size) % 2 ^ 64) c.cap)) [
        | inl room ↦
            let off = ir_align_up c.used align in
            let up = align_up_bounds c.used align pos (omega (arith, filled.0, capped.0)) in
            let plain : (off + size) % 2 ^ 64 ≡ off + size =
              omega (arith, up.1, filled.0, capped.0) in
            let inside : off + size ≤ c.cap =
              subst (λ (x : ℕ). x ≤ c.cap) plain (leb→le _ c.cap room) in
            let d = record c { used = (off + size) % 2 ^ 64 } in
            rw room (
              inr (
                record { chunk = length cs; off = off; addr = c.addr + data_offset + off },
                refl,
                in_first c d cs e up.0 plain refl (omega (arith, plain)) refl refl refl,
                up.2,
                omega (arith, words.0),
                (omega (arith, plain), filled.1),
                words,
              ))
        | inr full ↦ rw full (
            alloc_chunk-ServedIn malloc word (subst Filled (sym e) filled)
              (subst AtWords (sym e) words))
      ]

checked_align-le : (align : ℕ) → align ≤ 2 ^ 62 → checked_align align ≤ 2 ^ 62
unfolding checked_align
checked_align-le align h = ground arith

at_least_one-le : (size : ℕ) → size ≤ 2 ^ 62 → at_least_one size ≤ 2 ^ 62
unfolding at_least_one
at_least_one-le size h = ground arith

checked_align_power : (k : ℕ) → checked_align (2 ^ k) ≡ 2 ^ k
unfolding checked_align
checked_align_power k =
    let some_align : (2 ^ k == 0) ≡ false = different_zero (2 ^ k) (pow-pos k) in
    rw (some_align, (==_iff (bit_and (2 ^ k) (2 ^ k - 1)) 0).1 (bit_and-power k)) refl
  where
    different_zero : (n : ℕ) → 0 < n → (n == 0) ≡ false
    different_zero n h = ground (arith, h)

checked_align_zero : checked_align 0 ≡ 8
unfolding checked_align
checked_align_zero = refl

-- An address that is a multiple of eight just when its offset is: for what divides eight.
address_lem : (k addr off : ℕ) → k ≤ 3 → addr % 8 ≡ off % 8 → off % 2 ^ k ≡ 0 → addr % 2 ^ k ≡ 0
address_lem zero addr off small same aligned = omega arith
address_lem (suc zero) addr off small same aligned = omega (arith, same, aligned)
address_lem (suc (suc zero)) addr off small same aligned = omega (arith, same, aligned)
address_lem (suc (suc (suc zero))) addr off small same aligned = omega (arith, same, aligned)
address_lem (suc (suc (suc (suc k)))) addr off small same aligned = absurd (omega (arith, small))

-- The pointer of a request for the alignment: a power of two divides the offset, and the address too
-- where it is eight at most; no alignment gives an address at a multiple of eight.
abbrev pub IsAlignedTo : ℕ → Pointer → Type 0
IsAlignedTo align p =
    ((k : ℕ) → align ≡ 2 ^ k → (p.off % 2 ^ k ≡ 0) × (k ≤ 3 → p.addr % 2 ^ k ≡ 0))
    × (align ≡ 0 → p.addr % 8 ≡ 0)

-- What a request may lead to: a failure with the arena as it was, or that many bytes, one at least, at
-- the alignment asked for.
abbrev pub IsServed : ℕ → ℕ → Option ℕ → IrArena → Option Pointer × IrArena → Type 0
IsServed size align malloc arena r =
    ((malloc ≡ none) × (r.0 ≡ none) × (r.1 ≡ arena))
    ⊎ ((p : Pointer) × (n : ℕ) × (r.0 ≡ some p)
        × (size ≤ n)
        × (1 ≤ n)
        × Placed n arena.chunks p r.1.chunks
        × IsAlignedTo align p
        × Filled r.1.chunks
        × AtWords r.1.chunks)

served_lem :
    (size align : ℕ) (malloc : Option ℕ) (arena : IrArena) (r : Option Pointer × IrArena)
    → ServedIn (at_least_one size) (checked_align align) malloc arena r
    → IsServed size align malloc arena r
unfolding at_least_one
served_lem size align malloc arena r (inl failed) = inl failed
served_lem size align malloc arena r (inr (p, at, placed, aligned, same, filled, words)) = inr (
  p,
  at_least_one size,
  at,
  ground arith,
  ground arith,
  placed,
  (
    (λ k e. let off = power_lem k e in (off, (λ small. address_lem k p.addr p.off small same off))),
    (λ e. same ∙ subst (λ a. p.off % a ≡ 0) (ap checked_align e ∙ checked_align_zero) aligned),
  ),
  filled,
  words,
)
  where
    power_lem : (k : ℕ) → align ≡ 2 ^ k → p.off % 2 ^ k ≡ 0
    power_lem k e = subst (λ a. p.off % a ≡ 0) (ap checked_align e ∙ checked_align_power k) aligned

-- With the requested size and alignment, the default chunk size and all capacities at most 2 ^ 62, no
-- chunk filled beyond its capacity, and the addresses that `malloc` gave multiples of eight: an
-- allocation fails only where `malloc` does, and then changes nothing; else it hands out at least the
-- bytes asked for, and one at least, in the first chunk beyond all that was used there or at the start
-- of a new chunk, inside the chunk's capacity. A power of two that is asked for as the alignment divides
-- the offset, and up to eight the address, and with no alignment the address is a multiple of eight. No
-- chunk is filled beyond its capacity afterwards.
pub arena_alloc-IsServed :
    (malloc : Option ℕ) (size align : ℕ) (arena : IrArena)
    → size ≤ 2 ^ 62
    → align ≤ 2 ^ 62
    → arena.default_chunk_size ≤ 2 ^ 62
    → AtWord malloc
    → Filled arena.chunks
    → AtWords arena.chunks
    → Capped arena.chunks
    → IsServed size align malloc arena (ir_arena_alloc malloc size align arena)
unfolding ir_arena_alloc
arena_alloc-IsServed malloc size align arena size_ok align_ok default_ok word filled words capped =
    served_lem size align malloc arena _ (
      alloc_in-ServedIn (at_least_one size) (checked_align align) arena
        (at_least_one-le size size_ok) (checked_align-le align align_ok) default_ok
        (checked_align-pos align) malloc arena.chunks refl word filled words capped)
