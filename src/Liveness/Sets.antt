-- ===== src/Liveness/Sets.antt =====
-- The operations on bit sets (src/backend/regalloc.c), bit by bit.
use baa.Base.{
  ℕ, zero, suc, ◌<◌, ◌≡◌, refl, sym, inl, inr, Bool, true, false, not, ◌&&◌, ◌||◌, ||-neither,
  if◌then◌else◌, Bool-cases, arith,
}
use baa.RegAlloc.Active.{Nat-cases}
use baa.Liveness.{BitSet, any_below, bitset_union, update_live_in}

pub any_below-none :
    (n : ℕ) (test : ℕ → Bool) (v : ℕ) → any_below n test ≡ false → v < n → test v ≡ false
unfolding any_below
any_below-none zero test v h below = absurd (omega (arith, below))
any_below-none (suc n) test v h below =
    let (last, rest) = ||-neither (test n) (any_below n test) h in
    elim (Nat-cases v n) [
      | inl e ↦ rw e last
      | inr other ↦ any_below-none n test v rest (ground (arith, other, below))
    ]

union_bit : (a b : Bool) → (not a && b) ≡ false → a ≡ (a || b)
union_bit true b h = refl
union_bit false b h = sym h

pub bitset_union-bit :
    (bits : ℕ) (dst src : BitSet) (v : ℕ)
    → v < bits
    → (bitset_union bits dst src).0 v ≡ (dst v || src v)
unfolding bitset_union
bitset_union-bit bits dst src v below =
    elim (Bool-cases (any_below bits (λ w. not (dst w) && src w))) [
      | inl grows ↦ rw grows refl
      | inr same ↦
          rw same (
            union_bit (dst v) (src v)
              (any_below-none bits (λ w. not (dst w) && src w) v same below))
    ]

pub bitset_union-same :
    (bits : ℕ) (dst src : BitSet)
    → (bitset_union bits dst src).1 ≡ false
    → (bitset_union bits dst src).0 ≡ dst
unfolding bitset_union
bitset_union-same bits dst src h = elim (Bool-cases (any_below bits (λ w. not (dst w) && src w))) [
  | inl grows ↦ absurd (cc (rw grows at h))
  | inr same ↦ rw same refl
]

equal_bit : (a b : Bool) → (if a then not b else b) ≡ false → a ≡ b
equal_bit true true h = refl
equal_bit true false h = cc
equal_bit false b h = sym h

pub update_live_in-bit :
    (bits : ℕ) (live temp : BitSet) (v : ℕ)
    → v < bits
    → (update_live_in bits live temp).0 v ≡ temp v
unfolding update_live_in
update_live_in-bit bits live temp v below =
    elim (Bool-cases (any_below bits (λ w. if live w then not (temp w) else temp w))) [
      | inl differs ↦ rw differs refl
      | inr same ↦ rw same (
          equal_bit (live v) (temp v)
            (any_below-none bits (λ w. if live w then not (temp w) else temp w) v same below))
    ]

pub update_live_in-same :
    (bits : ℕ) (live temp : BitSet)
    → (update_live_in bits live temp).1 ≡ false
    → (update_live_in bits live temp).0 ≡ live
unfolding update_live_in
update_live_in-same bits live temp h =
    elim (Bool-cases (any_below bits (λ w. if live w then not (temp w) else temp w))) [
      | inl differs ↦ absurd (cc (rw differs at h))
      | inr same ↦ rw same refl
    ]
