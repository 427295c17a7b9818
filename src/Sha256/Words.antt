-- ===== src/Sha256/Words.antt =====
-- The compression function of src/runtime/hash_runtime.c, on 32-bit words.
use Prim.Native.Nat.{bit_and, bit_or, bit_xor}
use baa.Base.{ℕ, zero, suc, ◌+◌, ◌-◌, ◌*◌, ◌/◌, ◌%◌, ◌^◌, List, [], ◌∷◌, ◌++◌, get_or}

abbrev pub sha256_k : List ℕ
sha256_k =
    0x428a2f98 ∷ 0x71374491 ∷ 0xb5c0fbcf ∷ 0xe9b5dba5 ∷ 0x3956c25b ∷ 0x59f111f1 ∷ 0x923f82a4
    ∷ 0xab1c5ed5 ∷ 0xd807aa98 ∷ 0x12835b01 ∷ 0x243185be ∷ 0x550c7dc3 ∷ 0x72be5d74 ∷ 0x80deb1fe
    ∷ 0x9bdc06a7 ∷ 0xc19bf174 ∷ 0xe49b69c1 ∷ 0xefbe4786 ∷ 0x0fc19dc6 ∷ 0x240ca1cc ∷ 0x2de92c6f
    ∷ 0x4a7484aa ∷ 0x5cb0a9dc ∷ 0x76f988da ∷ 0x983e5152 ∷ 0xa831c66d ∷ 0xb00327c8 ∷ 0xbf597fc7
    ∷ 0xc6e00bf3 ∷ 0xd5a79147 ∷ 0x06ca6351 ∷ 0x14292967 ∷ 0x27b70a85 ∷ 0x2e1b2138 ∷ 0x4d2c6dfc
    ∷ 0x53380d13 ∷ 0x650a7354 ∷ 0x766a0abb ∷ 0x81c2c92e ∷ 0x92722c85 ∷ 0xa2bfe8a1 ∷ 0xa81a664b
    ∷ 0xc24b8b70 ∷ 0xc76c51a3 ∷ 0xd192e819 ∷ 0xd6990624 ∷ 0xf40e3585 ∷ 0x106aa070 ∷ 0x19a4c116
    ∷ 0x1e376c08 ∷ 0x2748774c ∷ 0x34b0bcb5 ∷ 0x391c0cb3 ∷ 0x4ed8aa4a ∷ 0x5b9cca4f ∷ 0x682e6ff3
    ∷ 0x748f82ee ∷ 0x78a5636f ∷ 0x84c87814 ∷ 0x8cc70208 ∷ 0x90befffa ∷ 0xa4506ceb ∷ 0xbef9a3f7
    ∷ 0xc67178f2 ∷ []

abbrev pub initial : List ℕ
initial =
    0x6a09e667 ∷ 0xbb67ae85 ∷ 0x3c6ef372 ∷ 0xa54ff53a ∷ 0x510e527f ∷ 0x9b05688c ∷ 0x1f83d9ab
    ∷ 0x5be0cd19 ∷ []

unfoldable pub rotr32 : ℕ → ℕ → ℕ
rotr32 value count = bit_or (value / 2 ^ count) (value * 2 ^ (32 - count) % 2 ^ 32)

unfoldable pub load_be32 : ℕ → ℕ → ℕ → ℕ → ℕ
load_be32 b0 b1 b2 b3 = bit_or (bit_or (bit_or (b0 * 2 ^ 24) (b1 * 2 ^ 16)) (b2 * 2 ^ 8)) b3

-- The words of a block of bytes.
unfoldable pub load_words : List ℕ → List ℕ
unfolding load_be32
load_words (b0 ∷ b1 ∷ b2 ∷ b3 ∷ rest) = load_be32 b0 b1 b2 b3 ∷ load_words rest
load_words _ = []

abbrev pub xor3 : ℕ → ℕ → ℕ → ℕ
xor3 x y z = bit_xor (bit_xor x y) z

-- The word w[i] from those before it.
unfoldable pub next_word : ℕ → List ℕ → ℕ
unfolding rotr32
next_word i w =
    let x = get_or w (i - 15) 0 in
    let y = get_or w (i - 2) 0 in
    let s0 = xor3 (rotr32 x 7) (rotr32 x 18) (x / 2 ^ 3) in
    let s1 = xor3 (rotr32 y 17) (rotr32 y 19) (y / 2 ^ 10) in
    (get_or w (i - 16) 0 + s0 + get_or w (i - 7) 0 + s1) % 2 ^ 32

-- n words more, from w[i] on.
unfoldable pub schedule : ℕ → ℕ → List ℕ → List ℕ
unfolding next_word
schedule zero i w = w
schedule (suc n) i w = schedule n (i + 1) (w ++ next_word i w ∷ [])

pub record Working : Type 0 where
  pub a : ℕ
  pub b : ℕ
  pub c : ℕ
  pub d : ℕ
  pub e : ℕ
  pub f : ℕ
  pub g : ℕ
  pub h : ℕ

unfoldable pub round : ℕ → ℕ → Working → Working
unfolding rotr32
round k w v =
    let sum1 = xor3 (rotr32 v.e 6) (rotr32 v.e 11) (rotr32 v.e 25) in
    let choose = bit_xor (bit_and v.e v.f) (bit_and (2 ^ 32 - 1 - v.e) v.g) in
    let temp1 = (v.h + sum1 + choose + k + w) % 2 ^ 32 in
    let sum0 = xor3 (rotr32 v.a 2) (rotr32 v.a 13) (rotr32 v.a 22) in
    let majority = xor3 (bit_and v.a v.b) (bit_and v.a v.c) (bit_and v.b v.c) in
    let temp2 = (sum0 + majority) % 2 ^ 32 in
    record {
      a = (temp1 + temp2) % 2 ^ 32;
      b = v.a;
      c = v.b;
      d = v.c;
      e = (v.d + temp1) % 2 ^ 32;
      f = v.e;
      g = v.f;
      h = v.g;
    }

unfoldable pub rounds : List ℕ → List ℕ → Working → Working
unfolding round
rounds (k ∷ ks) (w ∷ ws) v = rounds ks ws (round k w v)
rounds _ _ v = v

abbrev pub working : List ℕ → Working
working s = record {
  a = get_or s 0 0;
  b = get_or s 1 0;
  c = get_or s 2 0;
  d = get_or s 3 0;
  e = get_or s 4 0;
  f = get_or s 5 0;
  g = get_or s 6 0;
  h = get_or s 7 0;
}

-- The working variables are added to the state.
abbrev pub add_working : List ℕ → Working → List ℕ
add_working s v =
    ((get_or s 0 0 + v.a) % 2 ^ 32)
    ∷ ((get_or s 1 0 + v.b) % 2 ^ 32)
    ∷ ((get_or s 2 0 + v.c) % 2 ^ 32)
    ∷ ((get_or s 3 0 + v.d) % 2 ^ 32)
    ∷ ((get_or s 4 0 + v.e) % 2 ^ 32)
    ∷ ((get_or s 5 0 + v.f) % 2 ^ 32)
    ∷ ((get_or s 6 0 + v.g) % 2 ^ 32)
    ∷ ((get_or s 7 0 + v.h) % 2 ^ 32)
    ∷ []

unfoldable pub sha256_transform : List ℕ → List ℕ → List ℕ
unfolding load_words schedule rounds
sha256_transform state block =
    add_working state (rounds sha256_k (schedule 48 16 (load_words block)) (working state))
