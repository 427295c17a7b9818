-- ===== src/Sha256/Stream.antt =====
-- Hashing a stream in pieces (`sha256_update` of src/runtime/hash_runtime.c).
use mathlib.Core.List.{append_assoc, append-nil, foldl-append}
use baa.Base.{
  ℕ, zero, suc, ◌+◌, ◌-◌, ◌%◌, ◌^◌, ◌≤◌, ◌<◌, ◌≡◌, refl, sym, ap, ap₂, ◌∙◌, subst, inl, inr, false,
  List, [], ◌∷◌, ◌++◌, arith, ◌==◌, length, take, drop, foldl, length-append, length-take,
  length-drop, take-append-drop, Bool-cases,
}
use baa.Sha256.{BaaSha256, flush_full, smaller_of, update_loop, sha256_update}

-- One byte.
abbrev pub absorb : BaaSha256 → ℕ → BaaSha256
absorb ctx b = flush_full (record ctx { block = ctx.block ++ b ∷ [] })

-- A context between two calls: the block is not full.
abbrev pub IsOpen : BaaSha256 → Type 0
IsOpen ctx = length ctx.block < 64

flush_full-open : (ctx : BaaSha256) → IsOpen ctx → flush_full ctx ≡ ctx
unfolding flush_full
flush_full-open ctx h = let no_room : (length ctx.block == 64) ≡ false = ground arith in rw no_room

pub flush_full-IsOpen : (ctx : BaaSha256) → length ctx.block ≤ 64 → IsOpen (flush_full ctx)
unfolding flush_full
flush_full-IsOpen ctx h = elim (Bool-cases (length ctx.block == 64)) [
  | inl full ↦ simp full (omega arith)
  | inr room ↦ simp room (ground (arith, room, h))
]

-- Bytes that fit the block, one at a time or at once.
pub absorb_fitting :
    (ctx : BaaSha256) (xs : List ℕ)
    → IsOpen ctx
    → length ctx.block + length xs ≤ 64
    → foldl absorb ctx xs ≡ flush_full (record ctx { block = ctx.block ++ xs })
absorb_fitting ctx [] h fits =
    sym (flush_full-open ctx h)
    ∙ ap (λ (bs : List ℕ). flush_full (record ctx { block = bs })) (sym (append-nil ctx.block))
absorb_fitting ctx (x ∷ []) h fits = refl
absorb_fitting ctx (x ∷ y ∷ r) h fits =
    let ctx' = record ctx { block = ctx.block ++ x ∷ [] } in
    let len = length-append {0} ctx.block (x ∷ []) in
    let open_still : IsOpen ctx' = omega (arith, len) in
    ap (λ (c : BaaSha256). foldl absorb c (y ∷ r)) (flush_full-open ctx' open_still)
    ∙ absorb_fitting ctx' (y ∷ r) open_still (omega (arith, len))
    ∙ ap (λ (bs : List ℕ). flush_full (record ctx { block = bs }))
        (append_assoc ctx.block (x ∷ []) (y ∷ r))

absorb-IsOpen : (ctx : BaaSha256) (b : ℕ) → IsOpen ctx → IsOpen (absorb ctx b)
absorb-IsOpen ctx b h =
    flush_full-IsOpen (record ctx { block = ctx.block ++ b ∷ [] })
      (omega (arith, length-append {0} ctx.block (b ∷ [])))

pub absorb_all-IsOpen : (ctx : BaaSha256) (xs : List ℕ) → IsOpen ctx → IsOpen (foldl absorb ctx xs)
absorb_all-IsOpen ctx [] h = h
absorb_all-IsOpen ctx (x ∷ xs) h = absorb_all-IsOpen (absorb ctx x) xs (absorb-IsOpen ctx x h)

-- With a round for each byte the loop takes all bytes.
update_loop_lem :
    (fuel : ℕ) (ctx : BaaSha256) (xs : List ℕ)
    → IsOpen ctx
    → length xs ≤ fuel
    → update_loop fuel ctx xs ≡ foldl absorb ctx xs
unfolding update_loop
update_loop_lem fuel ctx [] h enough = refl
update_loop_lem zero ctx (b ∷ bs) h enough = absurd (omega arith)
update_loop_lem (suc fuel) ctx (b ∷ bs) h enough =
    let xs = b ∷ bs in
    let n = smaller_of (length xs) (64 - length ctx.block) in
    let pos : 0 < n = ground arith in
    let small : n ≤ length xs = ground arith in
    let room : n ≤ 64 - length ctx.block = ground arith in
    let taken : length (take n xs) ≡ n = omega (arith, length-take n xs) in
    let left = length-drop n xs in
    let ctx' = record ctx { block = ctx.block ++ take n xs } in
    let full = length-append {0} ctx.block (take n xs) in
    update_loop_lem fuel (flush_full ctx') (drop n xs)
      (flush_full-IsOpen ctx' (omega (arith, full, taken, room))) (omega (arith, left, pos, small))
    ∙ ap (λ (c : BaaSha256). foldl absorb c (drop n xs))
        (sym (absorb_fitting ctx (take n xs) h (omega (arith, taken, room))))
    ∙ sym (foldl-append absorb ctx (take n xs) (drop n xs))
    ∙ ap (foldl absorb ctx) (take-append-drop n xs)

-- The count of bytes plays no part in a block.
absorb-counted :
    (ctx : BaaSha256) (t b : ℕ)
    → absorb (record ctx { total_bytes = t }) b ≡ record (absorb ctx b) { total_bytes = t }
unfolding flush_full
absorb-counted ctx t b = elim (Bool-cases (length (ctx.block ++ b ∷ []) == 64)) [
  | inl full ↦ simp full
  | inr room ↦ simp room
]

pub absorb_all-counted :
    (ctx : BaaSha256) (t : ℕ) (xs : List ℕ)
    → foldl absorb (record ctx { total_bytes = t }) xs
      ≡ record (foldl absorb ctx xs) { total_bytes = t }
absorb_all-counted ctx t [] = refl
absorb_all-counted ctx t (x ∷ xs) =
    ap (λ (c : BaaSha256). foldl absorb c xs) (absorb-counted ctx t x)
    ∙ absorb_all-counted (absorb ctx x) t xs

pub update_lem :
    (ctx : BaaSha256) (xs : List ℕ)
    → IsOpen ctx
    → sha256_update ctx xs
      ≡ record (foldl absorb ctx xs) { total_bytes = (ctx.total_bytes + length xs) % 2 ^ 64 }
unfolding sha256_update
update_lem ctx xs h =
    let t = (ctx.total_bytes + length xs) % 2 ^ 64 in
    update_loop_lem (length xs) (record ctx { total_bytes = t }) xs h (omega arith)
    ∙ absorb_all-counted ctx t xs

-- For a context whose block is not full, hashing two pieces one after the other leaves the context
-- that hashing them as one piece leaves, and its block is not full.
pub update-append :
    (ctx : BaaSha256) (xs ys : List ℕ)
    → IsOpen ctx
    → (sha256_update (sha256_update ctx xs) ys ≡ sha256_update ctx (xs ++ ys))
      × IsOpen (sha256_update ctx (xs ++ ys))
update-append ctx xs ys h =
    let t = (ctx.total_bytes + length xs) % 2 ^ 64 in
    let mid = record (foldl absorb ctx xs) { total_bytes = t } in
    let count : (t + length ys) % 2 ^ 64 ≡ (ctx.total_bytes + length (xs ++ ys)) % 2 ^ 64 =
      omega (arith, length-append {0} xs ys) in
    (
      ap (λ (c : BaaSha256). sha256_update c ys) (update_lem ctx xs h)
          ∙ update_lem mid ys (absorb_all-IsOpen ctx xs h)
          ∙ ap (λ (c : BaaSha256). record c { total_bytes = (t + length ys) % 2 ^ 64 })
              (absorb_all-counted (foldl absorb ctx xs) t ys)
          ∙ ap₂ (λ (c : BaaSha256) (n : ℕ). record c { total_bytes = n })
              (sym (foldl-append absorb ctx xs ys)) count
          ∙ sym (update_lem ctx (xs ++ ys) h),
      subst IsOpen (sym (update_lem ctx (xs ++ ys) h)) (absorb_all-IsOpen ctx (xs ++ ys) h),
    )
