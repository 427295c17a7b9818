-- ===== src/Sha256.antt =====
-- SHA-256 of a file (src/runtime/hash_runtime.c). A uint32_t is a number below 2 ^ 32 and sums wrap;
-- `v >> n` is `v / 2 ^ n`, and a field taken from a word by a mask is a remainder. The array `block`
-- is the list of its first `block_len` bytes: the others are written before they are read.
pub mod Words
pub mod Stream
pub mod Standard
pub mod Agree
pub mod Digest
pub mod Texts
use baa.Base.{
  ℕ, zero, suc, ◌+◌, ◌-◌, ◌*◌, ◌/◌, ◌%◌, ◌^◌, Bool, true, false, not, ◌&&◌, ◌||◌, Option, none,
  some, List, [], ◌∷◌, ◌++◌, if◌then◌else◌, ◌==◌, ltb, length, take, drop, replicate, foldl,
}
use baa.Sha256.Words.{sha256_transform, sha256_k, initial}

pub record BaaSha256 : Type 0 where
  pub state : List ℕ
  pub total_bytes : ℕ
  pub block : List ℕ

unfoldable pub sha256_init : BaaSha256
sha256_init = record { state = initial; total_bytes = 0; block = [] }

-- A full block is hashed and emptied.
unfoldable pub flush_full : BaaSha256 → BaaSha256
flush_full ctx =
    if length ctx.block == 64
    then record ctx { state = sha256_transform ctx.state ctx.block; block = [] }
    else ctx

abbrev pub smaller_of : ℕ → ℕ → ℕ
smaller_of a b = if ltb a b then a else b

-- The loop of `sha256_update`. The first argument bounds its rounds; each takes a byte at least.
unfoldable pub update_loop : ℕ → BaaSha256 → List ℕ → BaaSha256
update_loop fuel ctx [] = ctx
update_loop zero ctx (b ∷ bs) = ctx
update_loop (suc fuel) ctx (b ∷ bs) =
    let n = smaller_of (length (b ∷ bs)) (64 - length ctx.block) in
    update_loop fuel (flush_full (record ctx { block = ctx.block ++ take n (b ∷ bs) }))
      (drop n (b ∷ bs))

unfoldable pub sha256_update : BaaSha256 → List ℕ → BaaSha256
unfolding update_loop
sha256_update ctx data_bytes =
    update_loop (length data_bytes)
      (record ctx { total_bytes = (ctx.total_bytes + length data_bytes) % 2 ^ 64 }) data_bytes

-- Zeros up to the position n.
abbrev pub zeros_to : ℕ → List ℕ → List ℕ
zeros_to n block = block ++ replicate (n - length block) 0

-- The eight bytes of a 64-bit number, the highest first.
unfoldable pub be_bytes64 : ℕ → List ℕ
be_bytes64 bits =
    (bits / 2 ^ 56 % 256)
    ∷ (bits / 2 ^ 48 % 256)
    ∷ (bits / 2 ^ 40 % 256)
    ∷ (bits / 2 ^ 32 % 256)
    ∷ (bits / 2 ^ 24 % 256)
    ∷ (bits / 2 ^ 16 % 256)
    ∷ (bits / 2 ^ 8 % 256)
    ∷ (bits % 256)
    ∷ []

-- The 0x80 byte; a block with no room for the length behind it is filled and hashed.
unfoldable pub mark_end : BaaSha256 → BaaSha256
mark_end ctx =
    let marked = ctx.block ++ 0x80 ∷ [] in
    if ltb 56 (length marked)
    then record ctx { state = sha256_transform ctx.state (zeros_to 64 marked); block = [] }
    else record ctx { block = marked }

-- The state after the last block.
unfoldable pub final_state : BaaSha256 → List ℕ
final_state ctx =
    let ctx' = mark_end ctx in
    sha256_transform ctx'.state
      (zeros_to 56 ctx'.block ++ be_bytes64 (ctx.total_bytes * 8 % 2 ^ 64))

unfoldable pub digest_bytes : List ℕ → List ℕ
digest_bytes [] = []
digest_bytes (w ∷ ws) =
    (w / 2 ^ 24 % 256) ∷ (w / 2 ^ 16 % 256) ∷ (w / 2 ^ 8 % 256) ∷ (w % 256) ∷ digest_bytes ws

unfoldable pub sha256_final : BaaSha256 → List ℕ
unfolding digest_bytes
sha256_final ctx = digest_bytes (final_state ctx)

-- What the file functions of the C library did: whether the file was opened, the buffers that the
-- reads filled, whether an error was met, and whether the file was closed.
pub record FileReads : Type 0 where
  pub opened : Bool
  pub buffers : List (List ℕ)
  pub failed : Bool
  pub closed : Bool

-- A hexadecimal digit as a BaaRuntimeChar: one UTF-8 byte, whose length stands above bit 32.
abbrev pub hex_char : ℕ → ℕ
hex_char d = 2 ^ 32 + (if ltb d 10 then 0x30 + d else 0x61 + (d - 10))

unfoldable pub hex_text : List ℕ → List ℕ
hex_text [] = []
hex_text (b ∷ bs) = hex_char (b / 16) ∷ hex_char (b % 16) ∷ hex_text bs

-- The text of the digest, or NULL. `path` is what `hash_text_to_utf8` gives.
unfoldable pub baa_runtime_sha256_file :
    Option (List ℕ) → (List ℕ → FileReads) → Bool → Option (List ℕ)
unfolding hex_text
baa_runtime_sha256_file none open_and_read calloc_ok = none
baa_runtime_sha256_file (some path) open_and_read calloc_ok =
    let r = open_and_read path in
    if not r.opened || r.failed || not r.closed || not calloc_ok
    then none
    else some (hex_text (sha256_final (foldl sha256_update sha256_init r.buffers)))

abbrev pub char_len : ℕ → ℕ
char_len c = c / 2 ^ 32 % 256

-- The first n bytes of a 32-bit field, the lowest first.
unfoldable pub low_bytes : ℕ → ℕ → List ℕ
low_bytes zero raw = []
low_bytes (suc n) raw = (raw % 256) ∷ low_bytes n (raw / 256)

-- The length in bytes, if every character has one to four and the sum stays a size_t.
unfoldable pub utf8_size : ℕ → List ℕ → Option ℕ
utf8_size bytes [] = some bytes
utf8_size bytes (c ∷ cs) =
    let n = char_len c in
    if ltb n 1 || ltb 4 n || ltb (2 ^ 64 - 1 - n) bytes then none else utf8_size (bytes + n) cs

unfoldable pub utf8_bytes : List ℕ → List ℕ
unfolding low_bytes
utf8_bytes [] = []
utf8_bytes (c ∷ cs) = low_bytes (char_len c) (c % 2 ^ 32) ++ utf8_bytes cs

abbrev pub checked_bytes : Option ℕ → List ℕ → Option (List ℕ)
checked_bytes none text = none
checked_bytes (some _) text = some (utf8_bytes text)

-- The bytes of a text before its terminating NUL. Allocation succeeds where `malloc_ok` says so.
unfoldable pub hash_text_to_utf8 : Bool → Option (List ℕ) → Option (List ℕ)
unfolding utf8_size utf8_bytes
hash_text_to_utf8 malloc_ok none = none
hash_text_to_utf8 malloc_ok (some text) =
    if malloc_ok then checked_bytes (utf8_size 0 text) text else none
