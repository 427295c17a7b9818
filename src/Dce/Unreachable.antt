-- ===== src/Dce/Unreachable.antt =====
-- What the removal of unreachable blocks leaves (src/middleend/ir_dce.c).
use baa.Base.{
  ℕ, ◌<◌, ◌≡◌, refl, sym, ◌∙◌, ap, inl, inr, ◌↔◌, Bool, true, false, ◌&&◌, &&-both, ◌||◌, some,
  List, [], ◌∷◌, if◌then◌else◌, ◌==◌, ==_iff, ltb, lt→ltb, Bool-cases, arith,
}
use baa.Base.Kept.{skip_lem, take_lem}
use baa.Ir.Inst.{IrBlock, IrFunc}
use baa.RegAlloc.Convention.{one_of}
use baa.Liveness.Flow.{either_true, or_right}
use baa.Cfg.Edges.{ir_func_rebuild_preds}
use baa.Dce.Blocks.{
  ir_func_max_block_id, ir_mark_reachable, is_marked, prune_phis, unlink_blocks, remove_unmarked,
  unreachable_body, ir_func_remove_unreachable_blocks,
}
use baa.Dce.Ids.{block_ids, rebuild_preds-ids}
use baa.Dce.Reach.{Reach, mark_reachable_iff}
use baa.Dce.Successors.{DistinctIds}
use baa.Dce.Ways.{Way, Reach-Way, Way-Reach}

module _ (reachable : ℕ → Bool) (max_id : ℕ) where
  prune_phis-ids : (bs : List IrBlock) → block_ids (prune_phis reachable max_id bs) ≡ block_ids bs
  unfolding prune_phis
  prune_phis-ids [] = refl
  prune_phis-ids (b ∷ bs) = elim (Bool-cases (is_marked reachable max_id b)) [
    | inl marked ↦ rw marked (ap (◌∷◌ b.id) (prune_phis-ids bs))
    | inr other ↦ rw other (ap (◌∷◌ b.id) (prune_phis-ids bs))
  ]

  -- A block that stays.
  abbrev stays : ℕ → ℕ → Bool
  stays entry n = n == entry || (ltb n max_id && reachable n)

  unlink_blocks-ids :
      (entry n : ℕ) (bs : List IrBlock)
      → one_of n (block_ids (unlink_blocks reachable max_id entry bs).0)
        ≡ (one_of n (block_ids bs) && stays entry n)
  unfolding unlink_blocks
  unlink_blocks-ids entry n [] = refl
  unlink_blocks-ids entry n (b ∷ bs) = elim (Bool-cases (stays entry b.id)) [
    | inl kept ↦
        rw (kept, unlink_blocks-ids entry n bs)
          (take_lem (stays entry) b.id n (one_of n (block_ids bs)) kept)
    | inr dropped ↦
        rw (dropped, unlink_blocks-ids entry n bs)
          (skip_lem (stays entry) b.id n (one_of n (block_ids bs)) dropped)
  ]

-- Every id is below the bound.
ids_below :
    (bs : List IrBlock) (n : ℕ) → one_of n (block_ids bs) ≡ true → n < ir_func_max_block_id bs
ids_below [] n h = cc
ids_below (b ∷ bs) n h = elim (either_true (b.id == n) (one_of n (block_ids bs)) h) [
  | inl here ↦ let e = (==_iff b.id n).0 here in ground (arith, e)
  | inr later ↦ let below = ids_below bs n later in ground (arith, below)
]

rebuilt_or_not-ids :
    (changed : Bool) (f : IrFunc)
    → block_ids (if changed then ir_func_rebuild_preds f else f).blocks ≡ block_ids f.blocks
rebuilt_or_not-ids true f = rebuild_preds-ids f
rebuilt_or_not-ids false f = refl

remove_unmarked-ids :
    (entry n : ℕ) (f : IrFunc)
    → one_of n (block_ids (remove_unmarked entry f).0.blocks) ≡ (
        one_of n (block_ids f.blocks)
        && stays
            (ir_mark_reachable (ir_func_max_block_id f.blocks) f.blocks entry)
            (ir_func_max_block_id f.blocks)
            entry
            n)
unfolding remove_unmarked
remove_unmarked-ids entry n f =
    let max_id = ir_func_max_block_id f.blocks in
    let reachable = ir_mark_reachable max_id f.blocks entry in
    ap (one_of n) (rebuilt_or_not-ids _ _)
    ∙ (unlink_blocks-ids reachable max_id entry n (prune_phis reachable max_id f.blocks)
        ∙ ap (λ ids. one_of n ids && stays reachable max_id entry n)
            (prune_phis-ids reachable max_id f.blocks))

else_lem : (c : Bool) (x y : IrFunc × Bool) → c ≡ false → (if c then x else y) ≡ y
else_lem true x y h = cc
else_lem false x y h = refl

removed_lem :
    (f : IrFunc) (entry : ℕ)
    → f.is_prototype ≡ false
    → f.entry ≡ some entry
    → one_of entry (block_ids f.blocks) ≡ true
    → ir_func_remove_unreachable_blocks f ≡ remove_unmarked entry (ir_func_rebuild_preds f)
unfolding ir_func_remove_unreachable_blocks
removed_lem f entry defined named there =
    let g = ir_func_rebuild_preds f in
    let some_block : (ir_func_max_block_id g.blocks == 0) ≡ false =
      positive_lem (ir_func_max_block_id g.blocks)
        (ids_below g.blocks entry (ap (one_of entry) (rebuild_preds-ids f) ∙ there)) in
    else_lem f.is_prototype (f, false) (unreachable_body f.entry f) defined
    ∙ (ap (λ o. unreachable_body o f) named
        ∙ else_lem (ir_func_max_block_id g.blocks == 0) (g, false) (remove_unmarked entry g)
            some_block)
  where
    positive_lem : (m : ℕ) → entry < m → (m == 0) ≡ false
    positive_lem m below = ground (arith, below)

module _ (f : IrFunc) (entry n : ℕ) (defined : f.is_prototype ≡ false)
    (named : f.entry ≡ some entry) (distinct : DistinctIds f.blocks)
    (there : one_of entry (block_ids f.blocks) ≡ true) where
  abbrev g : IrFunc
  g = ir_func_rebuild_preds f

  abbrev max_id : ℕ
  max_id = ir_func_max_block_id g.blocks

  abbrev stay : Bool
  stay = stays (ir_mark_reachable max_id g.blocks entry) max_id entry n

  entry_below : entry < max_id
  entry_below = ids_below g.blocks entry (ap (one_of entry) (rebuild_preds-ids f) ∙ there)

  count :
      one_of n (block_ids (ir_func_remove_unreachable_blocks f).0.blocks)
      ≡ (one_of n (block_ids g.blocks) && stay)
  count =
      ap (λ (h : IrFunc × Bool). one_of n (block_ids h.0.blocks))
        (removed_lem f entry defined named there)
      ∙ remove_unmarked-ids entry n g

  reached : stay ≡ true → Reach max_id g.blocks entry n
  reached kept =
      elim (either_true (n == entry) (ltb n max_id && ir_mark_reachable max_id g.blocks entry n)
        kept) [
          | inl e ↦ rw ((==_iff n entry).0 e) Reach.start
          | inr marked ↦
              (mark_reachable_iff max_id g.blocks entry entry_below n).0
                (&&-both (ltb n max_id) (ir_mark_reachable max_id g.blocks entry n) marked).1
        ]

  -- Where the entry is a block of a function that is no prototype and the ids of its blocks are distinct,
  -- the blocks that stay are those that can be reached from the entry by way of blocks that end with a
  -- jump or branch to the next.
  pub remove_unreachable_iff :
      (one_of n (block_ids (ir_func_remove_unreachable_blocks f).0.blocks) ≡ true)
      ↔ ((one_of n (block_ids f.blocks) ≡ true) × Way f.blocks entry n)
  remove_unreachable_iff = (
    (λ left.
        let (present, kept) = &&-both (one_of n (block_ids g.blocks)) stay (sym count ∙ left) in
        (
          ap (one_of n) (sym (rebuild_preds-ids f)) ∙ present,
          Reach-Way f entry max_id defined distinct (reached kept),
        )),
    (λ (present, way).
        let present' = ap (one_of n) (rebuild_preds-ids f) ∙ present in
        let below = ids_below g.blocks n present' in
        let found =
          Way-Reach f entry max_id defined distinct
            (λ m inside. ids_below g.blocks m (ap (one_of m) (rebuild_preds-ids f) ∙ inside))
            present way in
        count
        ∙ rw
            (
              present',
              lt→ltb n max_id below,
              (mark_reachable_iff max_id g.blocks entry entry_below n).1 found,
            )
            (or_right (n == entry) true refl)),
  )
