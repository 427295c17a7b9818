-- ===== src/Dce/Unmarked.antt =====
-- Counting the blocks that are not marked yet (`ir_mark_reachable` of src/middleend/ir_dce.c).
use baa.Base.{
  ℕ, zero, suc, ◌+◌, ◌≤◌, ◌<◌, ◌≡◌, refl, ◌∙◌, inl, inr, Bool, true, false, if◌then◌else◌,
  Bool-cases, arith,
}
use baa.RegAlloc.Step.{write}
use baa.RegAlloc.Active.{write_here, write_other, Nat-cases}

-- How many numbers below n are not marked.
abbrev pub unmarked : (ℕ → Bool) → ℕ → ℕ
unmarked r zero = 0
unmarked r (suc n) = (if r n then 0 else 1) + unmarked r n

unmarked_above : (r : ℕ → Bool) (s n : ℕ) → n ≤ s → unmarked (write r s true) n ≡ unmarked r n
unmarked_above r s zero above = refl
unmarked_above r s (suc n) above =
    rw
      (
        write_other r s n true (λ e. omega (arith, above, e)),
        unmarked_above r s n (omega (arith, above)),
      )
      refl

pub unmarked-write :
    (r : ℕ → Bool) (s n : ℕ) → r s ≡ false → s < n → unmarked (write r s true) n + 1 ≡ unmarked r n
unmarked-write r s zero fresh below = absurd (omega (arith, below))
unmarked-write r s (suc n) fresh below = elim (Nat-cases n s) [
  | inl e ↦ rw (e, write_here r s true, fresh, unmarked_above r s s (omega arith)) (omega arith)
  | inr other ↦
      rw (write_other r s n true other)
        (omega (arith, unmarked-write r s n fresh (omega (arith, below, other))))
]

pub unmarked_le : (r : ℕ → Bool) (n : ℕ) → unmarked r n ≤ n
unmarked_le r zero = omega arith
unmarked_le r (suc n) = elim (Bool-cases (r n)) [
  | inl e ↦ rw e (omega (arith, unmarked_le r n))
  | inr e ↦ rw e (omega (arith, unmarked_le r n))
]

pub write_grows : (r : ℕ → Bool) (s n : ℕ) → r n ≡ true → write r s true n ≡ true
write_grows r s n h = elim (Nat-cases n s) [
  | inl e ↦ rw e (write_here r s true)
  | inr other ↦ write_other r s n true other ∙ h
]
