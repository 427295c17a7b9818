-- ===== src/Base/Bits.antt =====
-- Bitwise `and` and `or` with zero, at a variable, and the order of the operands of the bitwise
-- operations.
use Prim.Native.Nat.{
  ℕ, zero, suc, ◌+◌, ◌-◌, ◌^◌, ◌<◌, ◌/◌, ◌%◌, ◌≤◌, min, max, differ, bit_and, bit_or, bit_xor,
  digits, bit_and-bitwise, bit_or-bitwise, bit_xor-bitwise,
}
use mathlib.Core.Path.{◌≡◌, refl, sym, ◌∙◌}
use native.Mathlib.Omega.{arith}

digits-and_zero : (n a : ℕ) → digits (λ b. zero) min n a 0 ≡ 0
digits-and_zero zero zero = refl
digits-and_zero zero (suc a) = refl
digits-and_zero (suc n) zero = refl
digits-and_zero (suc n) (suc a) = omega (arith, digits-and_zero n (suc a / 2))

digits-or_zero : (n a : ℕ) → a ≤ n → digits (λ b. b) max n a 0 ≡ a
digits-or_zero zero zero h = refl
digits-or_zero zero (suc a) h = absurd (omega arith)
digits-or_zero (suc n) zero h = refl
digits-or_zero (suc n) (suc a) h = omega (arith, digits-or_zero n (suc a / 2) (omega arith))

pub bit_and-zero : (a : ℕ) → bit_and a 0 ≡ 0
bit_and-zero a = (λ i. bit_and-bitwise a 0 i) ∙ digits-and_zero a a

pub bit_or-zero : (a : ℕ) → bit_or a 0 ≡ a
bit_or-zero a = (λ i. bit_or-bitwise a 0 i) ∙ digits-or_zero a a (omega arith)

digits-and_comm :
    (n m a b : ℕ) → a ≤ n → b ≤ m → digits (λ b. zero) min n a b ≡ digits (λ b. zero) min m b a
digits-and_comm zero m zero b p q = sym (digits-and_zero m b)
digits-and_comm zero m (suc a) b p q = absurd (omega arith)
digits-and_comm (suc n) m zero b p q = sym (digits-and_zero m b)
digits-and_comm (suc n) zero (suc a) zero p q = digits-and_zero (suc n) (suc a)
digits-and_comm (suc n) zero (suc a) (suc b) p q = absurd (omega arith)
digits-and_comm (suc n) (suc m) (suc a) zero p q = digits-and_zero (suc n) (suc a)
digits-and_comm (suc n) (suc m) (suc a) (suc b) p q =
    omega (arith, digits-and_comm n m (suc a / 2) (suc b / 2) (omega arith) (omega arith))

digits-or_comm :
    (n m a b : ℕ) → a ≤ n → b ≤ m → digits (λ b. b) max n a b ≡ digits (λ b. b) max m b a
digits-or_comm zero m zero b p q = sym (digits-or_zero m b q)
digits-or_comm zero m (suc a) b p q = absurd (omega arith)
digits-or_comm (suc n) m zero b p q = sym (digits-or_zero m b q)
digits-or_comm (suc n) zero (suc a) zero p q = digits-or_zero (suc n) (suc a) p
digits-or_comm (suc n) zero (suc a) (suc b) p q = absurd (omega arith)
digits-or_comm (suc n) (suc m) (suc a) zero p q = digits-or_zero (suc n) (suc a) p
digits-or_comm (suc n) (suc m) (suc a) (suc b) p q =
    omega (arith, digits-or_comm n m (suc a / 2) (suc b / 2) (omega arith) (omega arith))

differ-zero : (x : ℕ) → differ x 0 ≡ x
differ-zero zero = refl
differ-zero (suc x) = refl

differ_comm : (x y : ℕ) → differ x y ≡ differ y x
differ_comm zero y = sym (differ-zero y)
differ_comm (suc x) zero = refl
differ_comm (suc x) (suc y) = differ_comm x y

digits-xor_zero : (n a : ℕ) → a ≤ n → digits (λ b. b) differ n a 0 ≡ a
digits-xor_zero zero zero h = refl
digits-xor_zero zero (suc a) h = absurd (omega arith)
digits-xor_zero (suc n) zero h = refl
digits-xor_zero (suc n) (suc a) h =
    omega (arith, digits-xor_zero n (suc a / 2) (omega arith), differ-zero (suc a % 2))

digits-xor_comm :
    (n m a b : ℕ) → a ≤ n → b ≤ m → digits (λ b. b) differ n a b ≡ digits (λ b. b) differ m b a
digits-xor_comm zero m zero b p q = sym (digits-xor_zero m b q)
digits-xor_comm zero m (suc a) b p q = absurd (omega arith)
digits-xor_comm (suc n) m zero b p q = sym (digits-xor_zero m b q)
digits-xor_comm (suc n) zero (suc a) zero p q = digits-xor_zero (suc n) (suc a) p
digits-xor_comm (suc n) zero (suc a) (suc b) p q = absurd (omega arith)
digits-xor_comm (suc n) (suc m) (suc a) zero p q = digits-xor_zero (suc n) (suc a) p
digits-xor_comm (suc n) (suc m) (suc a) (suc b) p q = omega (
  arith,
  digits-xor_comm n m (suc a / 2) (suc b / 2) (omega arith) (omega arith),
  differ_comm (suc a % 2) (suc b % 2),
)

pub bit_and_comm : (a b : ℕ) → bit_and a b ≡ bit_and b a
bit_and_comm a b =
    (λ i. bit_and-bitwise a b i)
    ∙ digits-and_comm a b a b (omega arith) (omega arith)
    ∙ sym (λ i. bit_and-bitwise b a i)

pub bit_or_comm : (a b : ℕ) → bit_or a b ≡ bit_or b a
bit_or_comm a b =
    (λ i. bit_or-bitwise a b i)
    ∙ digits-or_comm a b a b (omega arith) (omega arith)
    ∙ sym (λ i. bit_or-bitwise b a i)

pub bit_xor_comm : (a b : ℕ) → bit_xor a b ≡ bit_xor b a
bit_xor_comm a b =
    (λ i. bit_xor-bitwise a b i)
    ∙ digits-xor_comm a b a b (omega arith) (omega arith)
    ∙ sym (λ i. bit_xor-bitwise b a i)

pub pow-pos : (k : ℕ) → 0 < 2 ^ k
pow-pos zero = omega arith
pow-pos (suc k) = omega (arith, pow-pos k)

-- A power of two and the number below it share no bit.
digits-power : (k n a b : ℕ) → a ≡ 2 ^ k → b + 1 ≡ a → a ≤ n → digits (λ c. zero) min n a b ≡ 0
digits-power zero n a zero e below enough = digits-and_zero n a
digits-power zero n a (suc b) e below enough = absurd (omega (arith, e, below))
digits-power (suc k) zero a b e below enough = absurd (omega (arith, below, enough))
digits-power (suc k) (suc n) zero b e below enough = absurd (omega (arith, below))
digits-power (suc k) (suc n) (suc a) zero e below enough = digits-and_zero (suc n) (suc a)
digits-power (suc k) (suc n) (suc a) (suc b) e below enough = omega (
  arith,
  digits-power k n (suc a / 2) (suc b / 2) (omega (arith, e)) (omega (arith, e, below))
      (omega (arith, enough)),
  e,
  below,
)

pub bit_and-power : (k : ℕ) → bit_and (2 ^ k) (2 ^ k - 1) ≡ 0
bit_and-power k =
    (λ i. bit_and-bitwise (2 ^ k) (2 ^ k - 1) i)
    ∙ digits-power k (2 ^ k) (2 ^ k) (2 ^ k - 1) refl (omega (arith, pow-pos k)) (omega arith)
