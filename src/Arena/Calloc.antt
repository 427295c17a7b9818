-- ===== src/Arena/Calloc.antt =====
-- The overflow test of `ir_arena_calloc` (src/middleend/ir_arena.c).
use native.Mathlib.Nat.{div-mul-le_self, mul-div_cancel, zero-mul, mul-zero}
use baa.Base.{
  ℕ, ◌*◌, ◌/◌, ◌%◌, ◌^◌, ◌≤◌, ◌<◌, ◌≡◌, refl, sym, ◌∙◌, ap, subst, inl, inr, true, Option, none,
  arith, ◌==◌, ==_iff, ltb, ltb→lt, ◌⊎◌, Bool-cases,
}
use baa.Arena.{IrArena, ir_arena_alloc, ir_arena_calloc, at_least_one}

fits_total : (n : ℕ) → n < 2 ^ 64 → n % 2 ^ 64 ≡ n
fits_total n h = omega arith

total-lt : (n : ℕ) → n % 2 ^ 64 < 2 ^ 64
total-lt n = omega arith

alloc-one :
    (malloc : Option ℕ) (align : ℕ) (arena : IrArena)
    → ir_arena_alloc malloc 1 align arena ≡ ir_arena_alloc malloc 0 align arena
unfolding ir_arena_alloc at_least_one
alloc-one malloc align arena = refl

-- A request for no bytes is one for one byte.
nothing_asked :
    (malloc : Option ℕ) (n align : ℕ) (arena : IrArena)
    → n ≡ 0
    → ir_arena_alloc malloc 1 align arena ≡ ir_arena_alloc malloc n align arena
nothing_asked malloc n align arena h =
    alloc-one malloc align arena ∙ ap (λ (k : ℕ). ir_arena_alloc malloc k align arena) (sym h)

arena_calloc_cases :
    (malloc : Option ℕ) (count size align : ℕ) (arena : IrArena)
    → (count * size < 2 ^ 64
        → ir_arena_calloc malloc count size align arena
          ≡ ir_arena_alloc malloc (count * size) align arena)
      × (2 ^ 64 ≤ count * size → ir_arena_calloc malloc count size align arena ≡ (none, arena))
unfolding ir_arena_calloc
arena_calloc_cases malloc count size align arena = elim (Bool-cases (count == 0)) [
  | inl none_asked ↦
      let zero : count * size ≡ 0 =
        ap (λ (c : ℕ). c * size) ((==_iff count 0).0 none_asked) ∙ zero-mul size in
      rw none_asked (
        λ _. nothing_asked malloc (count * size) align arena zero,
        λ large. absurd (omega (arith, zero, large)),
      )
  | inr some_asked ↦ elim (Bool-cases (size == 0)) [
    | inl empty ↦
        let zero : count * size ≡ 0 =
          ap (λ (k : ℕ). count * k) ((==_iff size 0).0 empty) ∙ mul-zero count in
        rw (some_asked, empty)
          (
            λ _. nothing_asked malloc (count * size) align arena zero,
            λ large. absurd (omega (arith, zero, large)),
          )
    | inr full ↦
        let pos : 0 < size = ground (arith, full) in
        (
          λ fits.
              let plain = fits_total (count * size) fits in
              let test : (count * size / size == count) ≡ true =
                (==_iff (count * size / size) count).1 (mul-div_cancel count pos) in
              rw (some_asked, full, plain, test),
          λ large. elim (Bool-cases (count * size % 2 ^ 64 / size == count)) [
            | inl same ↦
                let q = (==_iff (count * size % 2 ^ 64 / size) count).0 same in
                let low =
                  subst (λ (x : ℕ). x * size ≤ count * size % 2 ^ 64) q
                    (div-mul-le_self (count * size % 2 ^ 64) size) in
                absurd (omega (arith, low, large, total-lt (count * size)))
            | inr other ↦ rw (some_asked, full, other)
          ],
        )
  ]
]

-- For all counts, sizes and alignments: either the product of count and size fits a size_t and
-- `calloc` serves it as an allocation of that many bytes, or it does not fit and `calloc` fails and
-- changes nothing.
pub arena_calloc_product :
    (malloc : Option ℕ) (count size align : ℕ) (arena : IrArena)
    → ((count * size < 2 ^ 64)
        × (ir_arena_calloc malloc count size align arena
            ≡ ir_arena_alloc malloc (count * size) align arena))
      ⊎ ((2 ^ 64 ≤ count * size) × (ir_arena_calloc malloc count size align arena ≡ (none, arena)))
arena_calloc_product malloc count size align arena =
    let cases = arena_calloc_cases malloc count size align arena in
    elim (Bool-cases (ltb (count * size) (2 ^ 64))) [
      | inl small ↦ let fits = ltb→lt (count * size) (2 ^ 64) small in inl (fits, cases.0 fits)
      | inr large ↦
          let over : 2 ^ 64 ≤ count * size = ground (arith, large) in inr (over, cases.1 over)
    ]
