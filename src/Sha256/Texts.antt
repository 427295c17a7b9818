-- ===== src/Sha256/Texts.antt =====
-- The texts of src/runtime/hash_runtime.c: the path in bytes, and the digest in hexadecimal digits.
use mathlib.Core.Option.{some-injective}
use baa.Base.{
  ℕ, zero, suc, ◌+◌, ◌-◌, ◌*◌, ◌/◌, ◌%◌, ◌^◌, ◌<◌, ◌≡◌, refl, ap, ◌∙◌, subst, inl, inr, Bool, true,
  false, ◌||◌, some, List, [], ◌∷◌, ◌++◌, arith, if◌then◌else◌, ltb, length, length-append,
  Bool-cases, Option-cases,
}
use baa.Sha256.{
  FileReads, char_len, low_bytes, utf8_size, utf8_bytes, checked_bytes, hash_text_to_utf8,
}

low_bytes-length : (n raw : ℕ) → length (low_bytes n raw) ≡ n
unfolding low_bytes
low_bytes-length zero raw = refl
low_bytes-length (suc n) raw = ap suc (low_bytes-length n (raw / 256))

utf8_size-length :
    (bytes n : ℕ) (text : List ℕ)
    → utf8_size bytes text ≡ some n
    → n ≡ bytes + length (utf8_bytes text)
unfolding utf8_size utf8_bytes
utf8_size-length bytes n [] h = ground arith
utf8_size-length bytes n (c ∷ cs) h =
    elim (Bool-cases
      (ltb (char_len c) 1 || ltb 4 (char_len c) || ltb (2 ^ 64 - 1 - char_len c) bytes)) [
        | inl bad ↦ cc (rw bad at h)
        | inr good ↦ omega (
          arith,
          utf8_size-length (bytes + char_len c) n cs (rw good at h),
          length-append {0} (low_bytes (char_len c) (c % 2 ^ 32)) (utf8_bytes cs),
          low_bytes-length (char_len c) (c % 2 ^ 32),
        )
      ]

utf8_size-bound :
    (bytes n : ℕ) (text : List ℕ) → bytes < 2 ^ 64 → utf8_size bytes text ≡ some n → n < 2 ^ 64
unfolding utf8_size
utf8_size-bound bytes n [] small h = ground arith
utf8_size-bound bytes n (c ∷ cs) small h =
    elim (Bool-cases
      (ltb (char_len c) 1 || ltb 4 (char_len c) || ltb (2 ^ 64 - 1 - char_len c) bytes)) [
        | inl bad ↦ cc (rw bad at h)
        | inr good ↦ utf8_size-bound (bytes + char_len c) n cs (ground (arith, good)) (rw good at h)
      ]

-- Where a text is converted, the size that was computed for the buffer is the number of bytes
-- written, and it fits a size_t.
pub hash_text-sized :
    (malloc_ok : Bool) (text bytes : List ℕ)
    → hash_text_to_utf8 malloc_ok (some text) ≡ some bytes
    → (utf8_size 0 text ≡ some (length bytes)) × (length bytes < 2 ^ 64)
unfolding hash_text_to_utf8
hash_text-sized false text bytes h = cc
hash_text-sized true text bytes h = elim (Option-cases (utf8_size 0 text)) [
  | inl bad ↦ cc (rw (bad, checked_bytes) at h)
  | inr (n, sized) ↦
      let same : utf8_bytes text ≡ bytes =
        some-injective _ bytes (rw (sized, checked_bytes) at h) in
      let count : n ≡ length bytes =
        utf8_size-length 0 n text sized ∙ omega (arith, ap length same) in
      (
        sized ∙ ap some count,
        subst (λ (k : ℕ). k < 2 ^ 64) count (utf8_size-bound 0 n text (omega arith) sized),
      )
]

-- The value of a hexadecimal digit, and the bytes of a text of such digits.
abbrev pub digit_value : ℕ → ℕ
digit_value c = if ltb (c % 2 ^ 32) 0x61 then c % 2 ^ 32 - 0x30 else c % 2 ^ 32 - 0x61 + 10

abbrev pub unhex : List ℕ → List ℕ
unhex (hi ∷ lo ∷ rest) = (digit_value hi * 16 + digit_value lo) ∷ unhex rest
unhex _ = []

abbrev pub AllBytes : List ℕ → Type 0
AllBytes [] = Unit
AllBytes (b ∷ bs) = (b < 256) × AllBytes bs

AllBytes-append : (xs ys : List ℕ) → AllBytes xs → AllBytes ys → AllBytes (xs ++ ys)
AllBytes-append [] ys hx hy = hy
AllBytes-append (x ∷ xs) ys (small, rest) hy = (small, AllBytes-append xs ys rest hy)

-- What the file gives: all that was read, where each call of the C library was well.
abbrev pub IsRead : FileReads → Bool → Type 0
IsRead r calloc_ok = (r.opened ≡ true) × (r.failed ≡ false) × (r.closed ≡ true) × (calloc_ok ≡ true)
