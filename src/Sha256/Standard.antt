-- ===== src/Sha256/Standard.antt =====
-- SHA-256 as FIPS 180-4 states it (sections 4.1.2, 4.2.2, 5 and 6.2), on bytes and 32-bit words; it
-- follows no code.
use Prim.Native.Nat.{bit_and, bit_or, bit_xor}
use baa.Base.{
  ℕ, zero, suc, ◌+◌, ◌-◌, ◌*◌, ◌/◌, ◌%◌, ◌^◌, List, [], ◌∷◌, ◌++◌, get_or, foldl, length, take,
  drop, replicate,
}

-- The n bytes of a number, the highest first.
abbrev pub big_endian : ℕ → ℕ → List ℕ
big_endian zero x = []
big_endian (suc n) x = (x / 256 ^ n % 256) ∷ big_endian n x

-- A 1 bit, zeros up to eight bytes below a multiple of 64, and the length in bits.
abbrev pub standard_padded : List ℕ → List ℕ
standard_padded message =
    message
    ++ 0x80 ∷ (replicate ((119 - length message % 64) % 64) 0 ++ big_endian 8 (8 * length message))

-- The first n blocks.
abbrev pub blocks64 : ℕ → List ℕ → List (List ℕ)
blocks64 zero xs = []
blocks64 (suc n) xs = take 64 xs ∷ blocks64 n (drop 64 xs)

abbrev pub rotr : ℕ → ℕ → ℕ
rotr n x = bit_or (x / 2 ^ n) (x * 2 ^ (32 - n) % 2 ^ 32)

abbrev pub shr : ℕ → ℕ → ℕ
shr n x = x / 2 ^ n

abbrev pub ch : ℕ → ℕ → ℕ → ℕ
ch x y z = bit_xor (bit_and x y) (bit_and (2 ^ 32 - 1 - x) z)

abbrev pub maj : ℕ → ℕ → ℕ → ℕ
maj x y z = bit_xor (bit_xor (bit_and x y) (bit_and x z)) (bit_and y z)

abbrev pub big_sigma0 : ℕ → ℕ
big_sigma0 x = bit_xor (bit_xor (rotr 2 x) (rotr 13 x)) (rotr 22 x)

abbrev pub big_sigma1 : ℕ → ℕ
big_sigma1 x = bit_xor (bit_xor (rotr 6 x) (rotr 11 x)) (rotr 25 x)

abbrev pub small_sigma0 : ℕ → ℕ
small_sigma0 x = bit_xor (bit_xor (rotr 7 x) (rotr 18 x)) (shr 3 x)

abbrev pub small_sigma1 : ℕ → ℕ
small_sigma1 x = bit_xor (bit_xor (rotr 17 x) (rotr 19 x)) (shr 10 x)

-- The constants of the rounds, from the cube roots of the first 64 primes.
abbrev pub constants : List ℕ
constants =
    0x428a2f98 ∷ 0x71374491 ∷ 0xb5c0fbcf ∷ 0xe9b5dba5 ∷ 0x3956c25b ∷ 0x59f111f1 ∷ 0x923f82a4
    ∷ 0xab1c5ed5 ∷ 0xd807aa98 ∷ 0x12835b01 ∷ 0x243185be ∷ 0x550c7dc3 ∷ 0x72be5d74 ∷ 0x80deb1fe
    ∷ 0x9bdc06a7 ∷ 0xc19bf174 ∷ 0xe49b69c1 ∷ 0xefbe4786 ∷ 0x0fc19dc6 ∷ 0x240ca1cc ∷ 0x2de92c6f
    ∷ 0x4a7484aa ∷ 0x5cb0a9dc ∷ 0x76f988da ∷ 0x983e5152 ∷ 0xa831c66d ∷ 0xb00327c8 ∷ 0xbf597fc7
    ∷ 0xc6e00bf3 ∷ 0xd5a79147 ∷ 0x06ca6351 ∷ 0x14292967 ∷ 0x27b70a85 ∷ 0x2e1b2138 ∷ 0x4d2c6dfc
    ∷ 0x53380d13 ∷ 0x650a7354 ∷ 0x766a0abb ∷ 0x81c2c92e ∷ 0x92722c85 ∷ 0xa2bfe8a1 ∷ 0xa81a664b
    ∷ 0xc24b8b70 ∷ 0xc76c51a3 ∷ 0xd192e819 ∷ 0xd6990624 ∷ 0xf40e3585 ∷ 0x106aa070 ∷ 0x19a4c116
    ∷ 0x1e376c08 ∷ 0x2748774c ∷ 0x34b0bcb5 ∷ 0x391c0cb3 ∷ 0x4ed8aa4a ∷ 0x5b9cca4f ∷ 0x682e6ff3
    ∷ 0x748f82ee ∷ 0x78a5636f ∷ 0x84c87814 ∷ 0x8cc70208 ∷ 0x90befffa ∷ 0xa4506ceb ∷ 0xbef9a3f7
    ∷ 0xc67178f2 ∷ []

-- The initial hash value, from the square roots of the first eight primes.
abbrev pub initial_hash : List ℕ
initial_hash =
    0x6a09e667 ∷ 0xbb67ae85 ∷ 0x3c6ef372 ∷ 0xa54ff53a ∷ 0x510e527f ∷ 0x9b05688c ∷ 0x1f83d9ab
    ∷ 0x5be0cd19 ∷ []

-- The words of a block.
abbrev pub block_words : List ℕ → List ℕ
block_words (b0 ∷ b1 ∷ b2 ∷ b3 ∷ rest) =
    bit_or (bit_or (bit_or (b0 * 2 ^ 24) (b1 * 2 ^ 16)) (b2 * 2 ^ 8)) b3 ∷ block_words rest
block_words _ = []

-- The word t of the message schedule, for t from 16 on.
abbrev pub schedule_word : ℕ → List ℕ → ℕ
schedule_word t w =
    (small_sigma1 (get_or w (t - 2) 0)
      + get_or w (t - 7) 0
      + small_sigma0 (get_or w (t - 15) 0)
      + get_or w (t - 16) 0)
    % 2 ^ 32

abbrev pub message_schedule : ℕ → ℕ → List ℕ → List ℕ
message_schedule zero t w = w
message_schedule (suc n) t w = message_schedule n (t + 1) (w ++ schedule_word t w ∷ [])

-- The eight working variables, from a to h.
pub record Variables : Type 0 where
  pub a : ℕ
  pub b : ℕ
  pub c : ℕ
  pub d : ℕ
  pub e : ℕ
  pub f : ℕ
  pub g : ℕ
  pub h : ℕ

abbrev pub standard_round : ℕ → ℕ → Variables → Variables
standard_round k w v =
    let t1 = (v.h + big_sigma1 v.e + ch v.e v.f v.g + k + w) % 2 ^ 32 in
    let t2 = (big_sigma0 v.a + maj v.a v.b v.c) % 2 ^ 32 in
    record {
      a = (t1 + t2) % 2 ^ 32;
      b = v.a;
      c = v.b;
      d = v.c;
      e = (v.d + t1) % 2 ^ 32;
      f = v.e;
      g = v.f;
      h = v.g;
    }

abbrev pub standard_rounds : List ℕ → List ℕ → Variables → Variables
standard_rounds (k ∷ ks) (w ∷ ws) v = standard_rounds ks ws (standard_round k w v)
standard_rounds _ _ v = v

abbrev pub variables : List ℕ → Variables
variables s = record {
  a = get_or s 0 0;
  b = get_or s 1 0;
  c = get_or s 2 0;
  d = get_or s 3 0;
  e = get_or s 4 0;
  f = get_or s 5 0;
  g = get_or s 6 0;
  h = get_or s 7 0;
}

-- The next hash value.
abbrev pub next_hash : List ℕ → Variables → List ℕ
next_hash s v =
    ((v.a + get_or s 0 0) % 2 ^ 32)
    ∷ ((v.b + get_or s 1 0) % 2 ^ 32)
    ∷ ((v.c + get_or s 2 0) % 2 ^ 32)
    ∷ ((v.d + get_or s 3 0) % 2 ^ 32)
    ∷ ((v.e + get_or s 4 0) % 2 ^ 32)
    ∷ ((v.f + get_or s 5 0) % 2 ^ 32)
    ∷ ((v.g + get_or s 6 0) % 2 ^ 32)
    ∷ ((v.h + get_or s 7 0) % 2 ^ 32)
    ∷ []

unfoldable pub compress : List ℕ → List ℕ → List ℕ
compress s block =
    next_hash s
      (standard_rounds constants (message_schedule 48 16 (block_words block)) (variables s))

abbrev pub hash_bytes : List ℕ → List ℕ
hash_bytes [] = []
hash_bytes (w ∷ ws) = big_endian 4 w ++ hash_bytes ws

-- The digest of a message.
abbrev pub standard_digest : List ℕ → List ℕ
standard_digest message = hash_bytes (
    foldl compress initial_hash
      (blocks64 (length (standard_padded message) / 64) (standard_padded message)))
