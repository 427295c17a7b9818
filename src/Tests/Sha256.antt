-- ===== src/Tests/Sha256.antt =====
-- Runs of SHA-256 (src/runtime/hash_runtime.c).
use baa.Base.{ℕ, ◌+◌, ◌*◌, ◌^◌, ◌<◌, ◌≡◌, refl, true, false, some, List, [], ◌∷◌, foldl, arith}
use baa.Sha256.{FileReads, sha256_init, sha256_update, sha256_final, utf8_size, hash_text_to_utf8}
use baa.Sha256.Stream.{IsOpen, update-append}
use baa.Sha256.Standard.{standard_digest}
use baa.Sha256.Digest.{sha256_final-standard}
use baa.Sha256.Texts.{hash_text-sized}

sha256_abc :
    sha256_final (sha256_update sha256_init (0x61 ∷ 0x62 ∷ 0x63 ∷ []))
    ≡ 0xba ∷ 0x78 ∷ 0x16 ∷ 0xbf ∷ 0x8f ∷ 0x01 ∷ 0xcf ∷ 0xea ∷ 0x41 ∷ 0x41 ∷ 0x40 ∷ 0xde ∷ 0x5d
      ∷ 0xae ∷ 0x22 ∷ 0x23 ∷ 0xb0 ∷ 0x03 ∷ 0x61 ∷ 0xa3 ∷ 0x96 ∷ 0x17 ∷ 0x7a ∷ 0x9c ∷ 0xb4 ∷ 0x10
      ∷ 0xff ∷ 0x61 ∷ 0xf2 ∷ 0x00 ∷ 0x15 ∷ 0xad ∷ []
unfolding sha256_update sha256_init sha256_final baa.Sha256.final_state baa.Sha256.mark_end
    baa.Sha256.be_bytes64 baa.Sha256.flush_full baa.Sha256.Words.sha256_transform
sha256_abc = refl

abbrev pieces : List (List ℕ)
pieces = (0x61 ∷ []) ∷ [] ∷ (0x62 ∷ 0x63 ∷ []) ∷ []

init-IsOpen : IsOpen sha256_init
unfolding sha256_init
init-IsOpen = omega arith

update-append_example :
    (sha256_update (sha256_update sha256_init (0x61 ∷ [])) (0x62 ∷ 0x63 ∷ [])
      ≡ sha256_update sha256_init (0x61 ∷ 0x62 ∷ 0x63 ∷ []))
    × IsOpen (sha256_update sha256_init (0x61 ∷ 0x62 ∷ 0x63 ∷ []))
update-append_example = update-append sha256_init (0x61 ∷ []) (0x62 ∷ 0x63 ∷ []) init-IsOpen

sha256_final-standard_example :
    sha256_final (foldl sha256_update sha256_init pieces)
    ≡ standard_digest (0x61 ∷ 0x62 ∷ 0x63 ∷ [])
sha256_final-standard_example = sha256_final-standard pieces (omega arith)

-- The letter beh takes two bytes.
abbrev arabic : List ℕ
arabic = (2 * 2 ^ 32 + 0xa8d8) ∷ (2 ^ 32 + 0x61) ∷ []

arabic_bytes : hash_text_to_utf8 true (some arabic) ≡ some (0xd8 ∷ 0xa8 ∷ 0x61 ∷ [])
unfolding hash_text_to_utf8
arabic_bytes = refl

hash_text-sized_example : (utf8_size 0 arabic ≡ some 3) × (3 < 2 ^ 64)
hash_text-sized_example = hash_text-sized true arabic (0xd8 ∷ 0xa8 ∷ 0x61 ∷ []) arabic_bytes

abbrev one_file : List ℕ → FileReads
one_file path = record { opened = true; buffers = pieces; failed = false; closed = true }
