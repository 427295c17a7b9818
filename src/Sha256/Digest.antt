-- ===== src/Sha256/Digest.antt =====
-- The digest of a stream (src/runtime/hash_runtime.c) against the standard's description: pad the
-- message, cut it into blocks of 64 bytes, and compress these in turn.
use mathlib.Core.List.{append_assoc, append-nil, foldl-append}
use baa.Base.{
  ℕ, zero, suc, ◌+◌, ◌-◌, ◌*◌, ◌/◌, ◌%◌, ◌^◌, ◌≤◌, ◌<◌, ◌≡◌, refl, sym, ap, ap₂, ◌∙◌, inl, inr,
  true, List, [], ◌∷◌, ◌++◌, arith, ◌==◌, ltb, length, take, drop, replicate, foldl, length-append,
  length-take, length-drop, length-replicate, take-append-drop, Bool-cases,
}
use baa.Sha256.{
  BaaSha256, sha256_init, flush_full, sha256_update, zeros_to, be_bytes64, mark_end, final_state,
  digest_bytes, sha256_final,
}
use baa.Sha256.Words.{sha256_transform, initial}
use baa.Sha256.Standard.{
  big_endian, standard_padded, blocks64, compress, initial_hash, hash_bytes, standard_digest,
}
use baa.Sha256.Agree.{transforms_lem, be_bytes64_lem, digest_bytes_lem, initial_lem}
use baa.Sha256.Stream.{
  absorb, IsOpen, absorb_fitting, absorb_all-IsOpen, absorb_all-counted, update_lem, update-append,
}

-- What the code puts behind a message of n bytes: a 1 bit, zeros up to eight bytes below a
-- multiple of 64, and the length in bits.
abbrev padding : ℕ → List ℕ
padding n = 0x80 ∷ (replicate ((119 - n % 64) % 64) 0 ++ be_bytes64 (n * 8))

abbrev padded : List ℕ → List ℕ
padded message = message ++ padding (length message)

padded_lem : (message : List ℕ) → padded message ≡ standard_padded message
padded_lem message =
    let n = length message in
    let bits : n * 8 ≡ 8 * n = omega arith in
    ap (λ (tail : List ℕ). message ++ 0x80 ∷ (replicate ((119 - n % 64) % 64) 0 ++ tail))
      (be_bytes64_lem (n * 8) ∙ ap (big_endian 8) bits)

be_bytes64-length : (bits : ℕ) → length (be_bytes64 bits) ≡ 8
unfolding be_bytes64
be_bytes64-length bits = refl

flush_full_full :
    (ctx : BaaSha256)
    → length ctx.block ≡ 64
    → flush_full ctx ≡ record ctx { state = sha256_transform ctx.state ctx.block; block = [] }
unfolding flush_full
flush_full_full ctx h = let full : (length ctx.block == 64) ≡ true = ground arith in rw full

-- Bytes that fill the block exactly.
absorb_filling :
    (ctx : BaaSha256) (xs : List ℕ)
    → IsOpen ctx
    → length ctx.block + length xs ≡ 64
    → foldl absorb ctx xs
      ≡ record ctx { state = sha256_transform ctx.state (ctx.block ++ xs); block = [] }
absorb_filling ctx xs h fills =
    absorb_fitting ctx xs h (omega (arith, fills))
    ∙ flush_full_full (record ctx { block = ctx.block ++ xs }) (length-append ctx.block xs ∙ fills)

-- Whole blocks, absorbed from an empty block on.
absorb_blocks :
    (n : ℕ) (ctx : BaaSha256) (xs : List ℕ)
    → ctx.block ≡ []
    → length xs ≡ 64 * n
    → (foldl absorb ctx xs).state ≡ foldl sha256_transform ctx.state (blocks64 n xs)
absorb_blocks zero ctx [] empty h = refl
absorb_blocks zero ctx (x ∷ xs) empty h = absurd (omega (arith, h))
absorb_blocks (suc n) ctx xs empty h =
    let none_held : length ctx.block ≡ 0 = ap length empty in
    let taken : length (take 64 xs) ≡ 64 = omega (arith, length-take 64 xs, h) in
    let left : length (drop 64 xs) ≡ 64 * n = omega (arith, length-drop 64 xs, h) in
    let ctx' = record ctx {
      state = sha256_transform ctx.state (ctx.block ++ take 64 xs);
      block = [];
    } in
    let first : foldl absorb ctx (take 64 xs) ≡ ctx' =
      absorb_filling ctx (take 64 xs) (omega (arith, none_held))
        (omega (arith, none_held, taken)) in
    ap (λ (ys : List ℕ). (foldl absorb ctx ys).state) (sym (take-append-drop 64 xs))
    ∙ ap (λ (c : BaaSha256). c.state) (foldl-append absorb ctx (take 64 xs) (drop 64 xs))
    ∙ ap (λ (c : BaaSha256). (foldl absorb c (drop 64 xs)).state) first
    ∙ absorb_blocks n ctx' (drop 64 xs) refl left
    ∙ ap
        (λ (b : List ℕ).
          foldl sha256_transform (sha256_transform ctx.state (b ++ take 64 xs))
            (blocks64 n (drop 64 xs)))
        empty

replicate-append :
    (m n : ℕ) → replicate (m + n) (let z : ℕ = 0 in z) ≡ replicate m 0 ++ replicate n 0
replicate-append zero n = let e : 0 + n ≡ n = omega arith in rw e
replicate-append (suc m) n =
    let e : suc m + n ≡ suc (m + n) = omega arith in rw e (ap (◌∷◌ 0) (replicate-append m n))

-- The tail that `sha256_final` writes, with k zeros.
abbrev tail_of : ℕ → ℕ → List ℕ
tail_of k bits = 0x80 ∷ (replicate k 0 ++ be_bytes64 bits)

tail_of-length : (k bits : ℕ) → length (tail_of k bits) ≡ k + 9
tail_of-length k bits =
    let zero_byte : ℕ = 0 in
    omega (
      arith,
      length-append {0} (replicate k 0) (be_bytes64 bits),
      length-replicate k zero_byte,
      be_bytes64-length bits,
    )

-- A block with room for the length.
final_short :
    (ctx : BaaSha256) (bits : ℕ)
    → length ctx.block < 56
    → sha256_transform ctx.state (zeros_to 56 (ctx.block ++ 0x80 ∷ []) ++ be_bytes64 bits)
      ≡ (foldl absorb ctx (tail_of (55 - length ctx.block) bits)).state
final_short ctx bits h =
    let k = 55 - length ctx.block in
    let zeros : 56 - length (ctx.block ++ 0x80 ∷ []) ≡ k =
      omega (arith, length-append {0} ctx.block (0x80 ∷ [])) in
    ap
      (λ (n : ℕ).
        sha256_transform ctx.state (ctx.block ++ 0x80 ∷ [] ++ replicate n 0 ++ be_bytes64 bits))
      zeros
    ∙ ap (sha256_transform ctx.state) (
        append_assoc (ctx.block ++ 0x80 ∷ []) (replicate k 0) (be_bytes64 bits)
        ∙ append_assoc ctx.block (0x80 ∷ []) (replicate k 0 ++ be_bytes64 bits))
    ∙ ap (λ (c : BaaSha256). c.state)
        (sym (
          absorb_filling ctx (tail_of k bits) (omega arith) (omega (arith, tail_of-length k bits))))

length_block-length :
    (bits : ℕ) → length (replicate 56 (let z : ℕ = 0 in z) ++ be_bytes64 bits) ≡ 64
unfolding be_bytes64
length_block-length bits = refl

-- A block with none: it is filled first, and the length goes to one more block.
final_long :
    (ctx : BaaSha256) (bits : ℕ)
    → 55 < length ctx.block
    → length ctx.block < 64
    → sha256_transform
        (sha256_transform ctx.state (zeros_to 64 (ctx.block ++ 0x80 ∷ [])))
        (zeros_to 56 [] ++ be_bytes64 bits)
      ≡ (foldl absorb ctx (tail_of (119 - length ctx.block) bits)).state
final_long ctx bits low h =
    let j = 63 - length ctx.block in
    let zero_byte : ℕ = 0 in
    let zeros : 64 - length (ctx.block ++ 0x80 ∷ []) ≡ j =
      omega (arith, length-append {0} ctx.block (0x80 ∷ [])) in
    let sum : 119 - length ctx.block ≡ j + 56 = omega arith in
    let front : List ℕ = 0x80 ∷ replicate j 0 in
    let back : List ℕ = replicate 56 0 ++ be_bytes64 bits in
    let split : tail_of (119 - length ctx.block) bits ≡ front ++ back =
      ap (λ (n : ℕ). tail_of n bits) sum
      ∙ ap (λ (zs : List ℕ). 0x80 ∷ (zs ++ be_bytes64 bits)) (replicate-append j 56)
      ∙ ap (◌∷◌ 0x80) (append_assoc (replicate j 0) (replicate 56 0) (be_bytes64 bits)) in
    let ctx' = record ctx { state = sha256_transform ctx.state (ctx.block ++ front); block = [] } in
    let first : foldl absorb ctx front ≡ ctx' =
      absorb_filling ctx front h (omega (arith, length-replicate j zero_byte)) in
    let second = absorb_filling ctx' back (omega arith) (omega (arith, length_block-length bits)) in
    ap
      (λ (n : ℕ).
        sha256_transform (sha256_transform ctx.state (ctx.block ++ 0x80 ∷ [] ++ replicate n 0))
          back)
      zeros
    ∙ ap (λ (bs : List ℕ). sha256_transform (sha256_transform ctx.state bs) back)
        (append_assoc ctx.block (0x80 ∷ []) (replicate j 0))
    ∙ ap (λ (c : BaaSha256). c.state) (sym second)
    ∙ ap (λ (c : BaaSha256). (foldl absorb c back).state) (sym first)
    ∙ ap (λ (c : BaaSha256). c.state) (sym (foldl-append absorb ctx front back))
    ∙ ap (λ (xs : List ℕ). (foldl absorb ctx xs).state) (sym split)

final_lem :
    (ctx : BaaSha256)
    → IsOpen ctx
    → final_state ctx
      ≡ (foldl absorb ctx
          (tail_of ((119 - length ctx.block) % 64) (ctx.total_bytes * 8 % 2 ^ 64))).state
unfolding final_state mark_end
final_lem ctx h =
    let bits = ctx.total_bytes * 8 % 2 ^ 64 in
    let len = length-append {0} ctx.block (0x80 ∷ []) in
    elim (Bool-cases (ltb 56 (length (ctx.block ++ 0x80 ∷ [])))) [
      | inl crowded ↦
          let low : 56 < length (ctx.block ++ 0x80 ∷ []) = ground (arith, crowded) in
          let k : (119 - length ctx.block) % 64 ≡ 119 - length ctx.block =
            omega (arith, low, len) in
          simp crowded (rw k (final_long ctx bits (omega (arith, low, len)) h))
      | inr room ↦
          let high : length (ctx.block ++ 0x80 ∷ []) ≤ 56 = ground (arith, room) in
          let k : (119 - length ctx.block) % 64 ≡ 55 - length ctx.block =
            omega (arith, high, len) in
          simp room (rw k (final_short ctx bits (omega (arith, high, len))))
    ]

abbrev pub joined : List (List ℕ) → List ℕ
joined [] = []
joined (b ∷ bs) = b ++ joined bs

updates_joined :
    (ctx : BaaSha256) (xs : List ℕ) (bs : List (List ℕ))
    → IsOpen ctx
    → foldl sha256_update (sha256_update ctx xs) bs ≡ sha256_update ctx (xs ++ joined bs)
updates_joined ctx xs [] h = ap (sha256_update ctx) (sym (append-nil xs))
updates_joined ctx xs (b ∷ bs) h =
    ap (λ (c : BaaSha256). foldl sha256_update c bs) (update-append ctx xs b h).0
    ∙ updates_joined ctx (xs ++ b) bs h
    ∙ ap (sha256_update ctx) (append_assoc xs b (joined bs))

absorb-length :
    (ctx : BaaSha256) (b : ℕ)
    → IsOpen ctx
    → length (absorb ctx b).block ≡ (length ctx.block + 1) % 64
unfolding flush_full
absorb-length ctx b h =
    let len = length-append {0} ctx.block (b ∷ []) in
    elim (Bool-cases (length (ctx.block ++ b ∷ []) == 64)) [
      | inl full ↦ simp full (ground (arith, full, len))
      | inr room ↦ simp room (ground (arith, room, len, h))
    ]

absorb_all-length :
    (ctx : BaaSha256) (xs : List ℕ)
    → IsOpen ctx
    → length (foldl absorb ctx xs).block ≡ (length ctx.block + length xs) % 64
absorb_all-length ctx [] h = omega arith
absorb_all-length ctx (x ∷ xs) h = omega (
  arith,
  absorb-length ctx x h,
  absorb_all-length (absorb ctx x) xs (absorb_all-IsOpen ctx (x ∷ []) h),
)

nothing_read : sha256_init ≡ sha256_update sha256_init []
unfolding sha256_init sha256_update
nothing_read = refl

init-IsOpen : IsOpen sha256_init
unfolding sha256_init
init-IsOpen = omega arith

-- A message hashed in one piece.
whole_digest :
    (message : List ℕ)
    → length message < 2 ^ 61
    → final_state (sha256_update sha256_init message)
      ≡ foldl sha256_transform initial (blocks64 (length (padded message) / 64) (padded message))
unfolding sha256_init
whole_digest message h =
    let n = length message in
    let body = foldl absorb sha256_init message in
    let ctx = record body { total_bytes = (0 + n) % 2 ^ 64 } in
    let held : length body.block ≡ n % 64 =
      absorb_all-length sha256_init message (omega arith) ∙ omega arith in
    let open_still = absorb_all-IsOpen sha256_init message (omega arith) in
    let bits : (0 + n) % 2 ^ 64 * 8 % 2 ^ 64 ≡ n * 8 = omega (arith, h) in
    let size : length (padded message) ≡ 64 * (length (padded message) / 64) = omega (
      arith,
      length-append {0} message (padding n),
      tail_of-length ((119 - n % 64) % 64) (n * 8),
    ) in
    ap final_state (update_lem sha256_init message (omega arith))
    ∙ final_lem ctx open_still
    ∙ ap₂ (λ (l b : ℕ). (foldl absorb ctx (tail_of ((119 - l) % 64) b)).state) held bits
    ∙ ap (λ (c : BaaSha256). c.state) (absorb_all-counted body ((0 + n) % 2 ^ 64) (padding n))
    ∙ ap (λ (c : BaaSha256). c.state) (sym (foldl-append absorb sha256_init message (padding n)))
    ∙ absorb_blocks (length (padded message) / 64) sha256_init (padded message) refl size

-- For every sequence of pieces with fewer than 2 ^ 61 bytes together, hashing them one after the
-- other and finishing gives the digest of FIPS 180-4 of their concatenation: the message padded with its
-- length, the highest byte first, to blocks of 64 bytes, which are compressed in turn.
pub sha256_final-standard :
    (pieces : List (List ℕ))
    → length (joined pieces) < 2 ^ 61
    → sha256_final (foldl sha256_update sha256_init pieces) ≡ standard_digest (joined pieces)
unfolding sha256_final
sha256_final-standard pieces h =
    let message = joined pieces in
    let blocks = λ (m : List ℕ). blocks64 (length m / 64) m in
    ap (λ (c : BaaSha256). digest_bytes (final_state (foldl sha256_update c pieces))) nothing_read
    ∙ ap (λ (c : BaaSha256). digest_bytes (final_state c))
        (updates_joined sha256_init [] pieces init-IsOpen)
    ∙ ap digest_bytes (whole_digest message h)
    ∙ digest_bytes_lem (foldl sha256_transform initial (blocks (padded message)))
    ∙ ap hash_bytes (transforms_lem initial (blocks (padded message)))
    ∙ ap (λ (s : List ℕ). hash_bytes (foldl compress s (blocks (padded message)))) initial_lem
    ∙ ap (λ (m : List ℕ). hash_bytes (foldl compress initial_hash (blocks m))) (padded_lem message)
