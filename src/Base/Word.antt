-- ===== src/Base/Word.antt =====
-- 64-bit machine words: a word is the native number of its bit pattern, below 2 ^ 64, read as an
-- unsigned number or, in two's complement, as a signed one.
use Prim.Native.Nat.{ℕ, suc, ◌+◌, ◌-◌, ◌*◌, ◌/◌, ◌%◌, ◌^◌, ◌≤◌, ◌<◌}
use mathlib.Core.Path.{◌≡◌, refl, ap}
use mathlib.Core.Logic.{◌⊎◌, inl, inr}
use mathlib.Core.Bool.{Bool, true, false, xor}
use native.Mathlib.Omega.{arith}
use baa.Base.Tests.{ltb, leb, Bool-cases, if◌then◌else◌}
use baa.Base.Int.{ℤ, pos, negsuc, sub_ℕ, ◌+ℤ◌, ◌-ℤ◌, ◌*ℤ◌, ltb_ℤ, quot_ℤ, rem_ℤ}

abbrev pub IsWord : ℕ → Type 0
IsWord w = w < 2 ^ 64

-- The number that a word stands for as an int64_t.
unfoldable pub signed64 : ℕ → ℤ
signed64 w = if ltb w (2 ^ 63) then pos w else negsuc (2 ^ 64 - w - 1)

-- The word of an integer modulo 2 ^ 64.
unfoldable pub encode64 : ℤ → ℕ
encode64 (pos n) = n % 2 ^ 64
encode64 (negsuc n) = 2 ^ 64 - 1 - n % 2 ^ 64

unfoldable pub add64 : ℕ → ℕ → ℕ
add64 a b = (a + b) % 2 ^ 64

unfoldable pub sub64 : ℕ → ℕ → ℕ
sub64 a b = (a + 2 ^ 64 - b) % 2 ^ 64

unfoldable pub mul64 : ℕ → ℕ → ℕ
mul64 a b = (a * b) % 2 ^ 64

-- int64_t comparison of two patterns: with the sign bit turned over it is the unsigned one.
unfoldable pub slt64 : ℕ → ℕ → Bool
slt64 a b = ltb ((a + 2 ^ 63) % 2 ^ 64) ((b + 2 ^ 63) % 2 ^ 64)

-- The magnitude of a signed word, and the word of a magnitude with a sign.
unfoldable pub magnitude : ℕ → ℕ
magnitude w = if ltb w (2 ^ 63) then w else 2 ^ 64 - w

unfoldable pub with_sign : Bool → ℕ → ℕ
with_sign minus n = if minus then (2 ^ 64 - n) % 2 ^ 64 else n % 2 ^ 64

unfoldable pub is_minus : ℕ → Bool
is_minus w = leb (2 ^ 63) w

-- int64_t `/` and `%` on patterns, as C has them: the quotient is cut off toward zero and the
-- remainder takes the dividend's sign.
unfoldable pub sdiv64 : ℕ → ℕ → ℕ
sdiv64 a b = with_sign (xor (is_minus a) (is_minus b)) (magnitude a / magnitude b)

unfoldable pub srem64 : ℕ → ℕ → ℕ
srem64 a b = with_sign (is_minus a) (magnitude a % magnitude b)

pub encode64-lt : (z : ℤ) → encode64 z < 2 ^ 64
unfolding encode64
encode64-lt (pos n) = omega arith
encode64-lt (negsuc n) = omega arith

pub encode64-signed64 : (w : ℕ) → IsWord w → encode64 (signed64 w) ≡ w
unfolding encode64 signed64
encode64-signed64 w h = ground arith

pub add64-signed : (a b : ℕ) → IsWord a → IsWord b → add64 a b ≡ encode64 (signed64 a +ℤ signed64 b)
unfolding add64 encode64 signed64 ◌+ℤ◌
add64-signed a b ha hb = ground arith

pub sub64-signed : (a b : ℕ) → IsWord a → IsWord b → sub64 a b ≡ encode64 (signed64 a -ℤ signed64 b)
unfolding sub64 encode64 signed64 ◌-ℤ◌
sub64-signed a b ha hb = ground arith

pub add64-unsigned : (a b : ℕ) → add64 a b ≡ encode64 (pos a +ℤ pos b)
unfolding add64 encode64 ◌+ℤ◌
add64-unsigned a b = ground arith

pub sub64-unsigned : (a b : ℕ) → IsWord a → IsWord b → sub64 a b ≡ encode64 (pos a -ℤ pos b)
unfolding sub64 encode64 ◌-ℤ◌
sub64-unsigned a b ha hb = ground arith

pub mul64-unsigned : (a b : ℕ) → mul64 a b ≡ encode64 (pos a *ℤ pos b)
unfolding mul64 encode64 ◌*ℤ◌
mul64-unsigned a b = refl

neg_residue : (x y k : ℕ) → x + y ≡ 2 ^ 64 * k → x % 2 ^ 64 ≡ encode64 (sub_ℕ 0 y)
unfolding encode64
neg_residue x y k h = ground arith

-- The signed reading of a word, with the equation that each case gives.
signed64-cases :
    (w : ℕ)
    → IsWord w
    → (signed64 w ≡ pos w) ⊎ ((m : ℕ) × (signed64 w ≡ negsuc m) × (w + suc m ≡ 2 ^ 64))
unfolding signed64
signed64-cases w h = elim (Bool-cases (ltb w (2 ^ 63))) [
  | inl small ↦ inl (rw small)
  | inr big ↦ inr (2 ^ 64 - w - 1, rw big, omega arith)
]

mul64-pos_neg : (a b m : ℕ) → b + suc m ≡ 2 ^ 64 → mul64 a b ≡ encode64 (pos a *ℤ negsuc m)
unfolding mul64 ◌*ℤ◌
mul64-pos_neg a b m e = neg_residue (a * b) (a * suc m) a (omega (arith, ap (λ (t : ℕ). a * t) e))

mul64-neg_pos : (a b m : ℕ) → a + suc m ≡ 2 ^ 64 → mul64 a b ≡ encode64 (negsuc m *ℤ pos b)
unfolding mul64 ◌*ℤ◌
mul64-neg_pos a b m e = neg_residue (a * b) (suc m * b) b (omega (arith, ap (λ (t : ℕ). t * b) e))

mul64-neg_neg :
    (a b m n : ℕ)
    → a + suc m ≡ 2 ^ 64
    → b + suc n ≡ 2 ^ 64
    → mul64 a b ≡ encode64 (negsuc m *ℤ negsuc n)
unfolding mul64 ◌*ℤ◌ encode64
mul64-neg_neg a b m n e f = omega (arith, ap (λ (t : ℕ). t * b) e, ap (λ (t : ℕ). suc m * t) f)

pub mul64-signed : (a b : ℕ) → IsWord a → IsWord b → mul64 a b ≡ encode64 (signed64 a *ℤ signed64 b)
mul64-signed a b ha hb = go (signed64-cases a ha) (signed64-cases b hb)
  where
    go :
        (signed64 a ≡ pos a) ⊎ ((m : ℕ) × (signed64 a ≡ negsuc m) × (a + suc m ≡ 2 ^ 64))
        → (signed64 b ≡ pos b) ⊎ ((n : ℕ) × (signed64 b ≡ negsuc n) × (b + suc n ≡ 2 ^ 64))
        → mul64 a b ≡ encode64 (signed64 a *ℤ signed64 b)
    go (inl p) (inl q) = rw (p, q) (mul64-unsigned a b)
    go (inl p) (inr (n, q, f)) = rw (p, q) (mul64-pos_neg a b n f)
    go (inr (m, p, e)) (inl q) = rw (p, q) (mul64-neg_pos a b m e)
    go (inr (m, p, e)) (inr (n, q, f)) = rw (p, q) (mul64-neg_neg a b m n e f)

pub slt64-signed : (a b : ℕ) → IsWord a → IsWord b → slt64 a b ≡ ltb_ℤ (signed64 a) (signed64 b)
unfolding slt64 signed64
slt64-signed a b ha hb = ground arith

-- How the sign test and the magnitude of a word go with its signed reading.
reading :
    (w : ℕ)
    → IsWord w
    → ((is_minus w ≡ false) × (magnitude w ≡ w) × (signed64 w ≡ pos w))
      ⊎ ((m : ℕ) × (is_minus w ≡ true)
          × (magnitude w ≡ suc m)
          × (signed64 w ≡ negsuc m)
          × (m < 2 ^ 63))
unfolding signed64 magnitude is_minus
reading w h = elim (Bool-cases (ltb w (2 ^ 63))) [
  | inl small ↦ inl (ground arith, ground arith, rw small)
  | inr big ↦ inr (2 ^ 64 - w - 1, ground arith, ground arith, rw big, ground arith)
]

pub div-le : (a b : ℕ) → a / b ≤ a
div-le a b = grind arith

pub mod-le : (a b : ℕ) → a % b ≤ a
mod-le a b = grind arith

with_sign_plus : (n : ℕ) → with_sign false n ≡ encode64 (pos n)
unfolding with_sign encode64
with_sign_plus n = refl

with_sign_minus : (n : ℕ) → n < 2 ^ 64 → with_sign true n ≡ encode64 (sub_ℕ 0 n)
unfolding with_sign encode64
with_sign_minus n h = ground arith

-- The machine's signed division is the truncated division of the integers, wrapped.
pub sdiv64-signed :
    (a b : ℕ) → IsWord a → IsWord b → sdiv64 a b ≡ encode64 (quot_ℤ (signed64 a) (signed64 b))
unfolding sdiv64 quot_ℤ xor
sdiv64-signed a b ha hb = elim (reading a ha) [
  | inl (s, m, z) ↦ elim (reading b hb) [
    | inl (t, n, y) ↦ rw (s, t, m, n, z, y) (with_sign_plus (a / b))
    | inr (k, t, n, y, l) ↦
        rw (s, t, m, n, z, y) (with_sign_minus (a / suc k) (omega (arith, div-le a (suc k))))
  ]
  | inr (j, s, m, z, l) ↦ elim (reading b hb) [
    | inl (t, n, y) ↦
        rw (s, t, m, n, z, y) (with_sign_minus (suc j / b) (omega (arith, div-le (suc j) b)))
    | inr (k, t, n, y, l') ↦ rw (s, t, m, n, z, y) (with_sign_plus (suc j / suc k))
  ]
]

-- So is its remainder.
pub srem64-signed :
    (a b : ℕ) → IsWord a → IsWord b → srem64 a b ≡ encode64 (rem_ℤ (signed64 a) (signed64 b))
unfolding srem64 rem_ℤ
srem64-signed a b ha hb = elim (reading a ha) [
  | inl (s, m, z) ↦ elim (reading b hb) [
    | inl (t, n, y) ↦ rw (s, m, n, z, y) (with_sign_plus (a % b))
    | inr (k, t, n, y, l) ↦ rw (s, m, n, z, y) (with_sign_plus (a % suc k))
  ]
  | inr (j, s, m, z, l) ↦ elim (reading b hb) [
    | inl (t, n, y) ↦
        rw (s, m, n, z, y) (with_sign_minus (suc j % b) (omega (arith, mod-le (suc j) b)))
    | inr (k, t, n, y, l') ↦
        rw (s, m, n, z, y) (with_sign_minus (suc j % suc k) (omega (arith, mod-le (suc j) (suc k))))
  ]
]
