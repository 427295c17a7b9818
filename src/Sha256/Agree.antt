-- ===== src/Sha256/Agree.antt =====
-- The functions of src/runtime/hash_runtime.c compute what the standard states.
use baa.Base.{
  ℕ, zero, suc, ◌+◌, ◌/◌, ◌%◌, ◌^◌, ◌≡◌, refl, ◌∙◌, ap, List, [], ◌∷◌, ◌++◌, get_or, foldl, arith,
}
use baa.Sha256.{be_bytes64, digest_bytes}
use baa.Sha256.Words.{
  sha256_k, initial, rotr32, load_be32, load_words, next_word, schedule, Working, round, rounds,
  working, add_working, sha256_transform,
}
use baa.Sha256.Standard.{
  big_endian, constants, initial_hash, block_words, schedule_word, message_schedule, Variables,
  standard_round, standard_rounds, variables, next_hash, compress, hash_bytes,
}

load_words_lem : (bs : List ℕ) → load_words bs ≡ block_words bs
unfolding load_words load_be32
load_words_lem (b0 ∷ b1 ∷ b2 ∷ b3 ∷ rest) = ap (◌∷◌ (load_be32 b0 b1 b2 b3)) (load_words_lem rest)
load_words_lem [] = refl
load_words_lem (b0 ∷ []) = refl
load_words_lem (b0 ∷ b1 ∷ []) = refl
load_words_lem (b0 ∷ b1 ∷ b2 ∷ []) = refl

next_word_lem : (t : ℕ) (w : List ℕ) → next_word t w ≡ schedule_word t w
unfolding next_word rotr32
next_word_lem t w = omega arith

schedule_lem : (n t : ℕ) (w : List ℕ) → schedule n t w ≡ message_schedule n t w
unfolding schedule
schedule_lem zero t w = refl
schedule_lem (suc n) t w =
    schedule_lem n (t + 1) (w ++ next_word t w ∷ [])
    ∙ ap (λ (x : ℕ). message_schedule n (t + 1) (w ++ x ∷ [])) (next_word_lem t w)

-- The working variables of the code and those of the standard.
abbrev same_variables : Working → Variables
same_variables v = record { a = v.a; b = v.b; c = v.c; d = v.d; e = v.e; f = v.f; g = v.g; h = v.h }

round_lem :
    (k w : ℕ) (v : Working) → same_variables (round k w v) ≡ standard_round k w (same_variables v)
unfolding round rotr32
round_lem k w v = refl

rounds_lem :
    (ks ws : List ℕ) (v : Working)
    → same_variables (rounds ks ws v) ≡ standard_rounds ks ws (same_variables v)
unfolding rounds
rounds_lem [] ws v = refl
rounds_lem (k ∷ ks) [] v = refl
rounds_lem (k ∷ ks) (w ∷ ws) v =
    rounds_lem ks ws (round k w v) ∙ ap (standard_rounds ks ws) (round_lem k w v)

add_comm : (m n : ℕ) → (m + n) % 2 ^ 32 ≡ (n + m) % 2 ^ 32
add_comm m n = omega arith

add_working_lem : (s : List ℕ) (v : Working) → add_working s v ≡ next_hash s (same_variables v)
add_working_lem s v =
    rw
      (
        add_comm (get_or s 0 0) v.a,
        add_comm (get_or s 1 0) v.b,
        add_comm (get_or s 2 0) v.c,
        add_comm (get_or s 3 0) v.d,
        add_comm (get_or s 4 0) v.e,
        add_comm (get_or s 5 0) v.f,
        add_comm (get_or s 6 0) v.g,
        add_comm (get_or s 7 0) v.h,
      )
      refl

constants_lem : sha256_k ≡ constants
constants_lem = refl

transform_lem : (s block : List ℕ) → sha256_transform s block ≡ compress s block
unfolding sha256_transform compress
transform_lem s block =
    let words = schedule 48 16 (load_words block) in
    add_working_lem s (rounds sha256_k words (working s))
    ∙ ap (next_hash s) (rounds_lem sha256_k words (working s))
    ∙ ap (λ (w : List ℕ). next_hash s (standard_rounds sha256_k w (variables s)))
        (schedule_lem 48 16 (load_words block) ∙ ap (message_schedule 48 16) (load_words_lem block))
    ∙ ap
        (λ (ks : List ℕ).
          next_hash s
            (standard_rounds ks (message_schedule 48 16 (block_words block)) (variables s)))
        constants_lem

pub transforms_lem :
    (s : List ℕ) (blocks : List (List ℕ))
    → foldl sha256_transform s blocks ≡ foldl compress s blocks
transforms_lem s [] = refl
transforms_lem s (b ∷ bs) =
    transforms_lem (sha256_transform s b) bs
    ∙ ap (λ (t : List ℕ). foldl compress t bs) (transform_lem s b)

pub be_bytes64_lem : (n : ℕ) → be_bytes64 n ≡ big_endian 8 n
unfolding be_bytes64
be_bytes64_lem n = let one : n / 256 ^ 0 % 256 ≡ n % 256 = omega arith in rw one refl

pub digest_bytes_lem : (ws : List ℕ) → digest_bytes ws ≡ hash_bytes ws
unfolding digest_bytes
digest_bytes_lem [] = refl
digest_bytes_lem (w ∷ ws) =
    let one : w / 256 ^ 0 % 256 ≡ w % 256 = omega arith in rw (one, digest_bytes_lem ws) refl

pub initial_lem : initial ≡ initial_hash
initial_lem = refl
