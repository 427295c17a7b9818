-- ===== src/Intervals/Cover.antt =====
-- The intervals that are built cover every position where their registers are mentioned or live
-- (src/backend/regalloc_liveness.c).
use baa.Base.{ℕ, zero, suc, ◌+◌, ◌-◌, ◌<◌, ◌≡◌, true, List, [], ◌∷◌, ◌++◌, arith, length, subst}
use baa.Machine.{MachineInst, MachineBlock}
use baa.RegAlloc.Convention.{one_of}
use baa.RegAlloc.Step.{LiveInterval}
use baa.Liveness.{BlockLiveness, block_at}
use baa.Intervals.{
  update_set, update_insts, inst_mentions, inst_count, build_block, build_blocks,
  regalloc_build_intervals,
}
use baa.Intervals.Spans.{
  Spans, update_set-keeps, update_set-here, update_insts-keeps, update_insts-here,
}

-- The position of the first instruction of the block i, where the first block starts at p.
abbrev pub start_of : ℕ → List MachineBlock → ℕ → ℕ
start_of p [] i = p
start_of p (b ∷ bs) zero = p
start_of p (b ∷ bs) (suc i) = start_of (p + inst_count b.insts) bs i

-- The intervals cover the register v in a block whose first instruction stands at p.
pub record Covers (v p : ℕ) (bl : BlockLiveness) (insts : List MachineInst)
    (ivs : List LiveInterval) : Type 0 where
  pub at_entry : bl.live_in v ≡ true → Spans v p ivs
  pub at_exit : bl.live_out v ≡ true → Spans v (p + inst_count insts - 1) ivs
  pub at_inst :
      (before after : List MachineInst) (i : MachineInst)
      → insts ≡ before ++ i ∷ after
      → one_of v (inst_mentions i) ≡ true
      → Spans v (p + inst_count before) ivs

module _ (max_vreg : ℕ) where
  build_block-keeps :
      (bl : BlockLiveness) (p : ℕ) (insts : List MachineInst) (ivs : List LiveInterval) (w q : ℕ)
      → Spans w q ivs
      → Spans w q (build_block max_vreg bl p insts ivs)
  unfolding build_block
  build_block-keeps bl p insts ivs w q span =
      let entered = update_set max_vreg p bl.live_in max_vreg 0 ivs in
      update_set-keeps max_vreg max_vreg 0 (p + inst_count insts - 1) w q bl.live_out
        (update_insts max_vreg p insts entered)
        (update_insts-keeps max_vreg insts p w q entered
          (update_set-keeps max_vreg max_vreg 0 p w q bl.live_in ivs span))

  build_block-Covers :
      (v p : ℕ) (bl : BlockLiveness) (insts : List MachineInst) (ivs : List LiveInterval)
      → v < max_vreg
      → Covers v p bl insts (build_block max_vreg bl p insts ivs)
  unfolding build_block
  build_block-Covers v p bl insts ivs below =
      let entered = update_set max_vreg p bl.live_in max_vreg 0 ivs in
      let scanned = update_insts max_vreg p insts entered in
      let last = p + inst_count insts - 1 in
      let keep = update_set-keeps max_vreg max_vreg 0 last in
      record {
        at_entry = λ live. keep v p bl.live_out scanned (
            update_insts-keeps max_vreg insts p v p entered (
              update_set-here max_vreg max_vreg 0 p v bl.live_in ivs live (omega arith)
                (omega (arith, below)) below));
        at_exit = λ live.
            update_set-here max_vreg max_vreg 0 last v bl.live_out scanned live (omega arith)
              (omega (arith, below)) below;
        at_inst = λ before after i split there.
            keep v (p + inst_count before) bl.live_out scanned
              (rw split (update_insts-here max_vreg before after i p v entered there below));
      }

  build_blocks-keeps :
      (lives : ℕ → BlockLiveness) (k p : ℕ) (blocks : List MachineBlock) (ivs : List LiveInterval)
      → (w q : ℕ) → Spans w q ivs
      → Spans w q (build_blocks max_vreg lives k p blocks ivs)
  unfolding build_blocks
  build_blocks-keeps lives k p [] ivs w q span = span
  build_blocks-keeps lives k p (b ∷ bs) ivs w q span =
      build_blocks-keeps lives (k + 1) (p + inst_count b.insts) bs
        (build_block max_vreg (lives k) p b.insts ivs) w q
        (build_block-keeps (lives k) p b.insts ivs w q span)

  build_blocks-Covers :
      (lives : ℕ → BlockLiveness) (k p : ℕ) (blocks : List MachineBlock) (ivs : List LiveInterval)
      → (v i : ℕ) → v < max_vreg
      → i < length blocks
      → Covers v
          (start_of p blocks i)
          (lives (k + i))
          (block_at blocks i).insts
          (build_blocks max_vreg lives k p blocks ivs)
  unfolding build_blocks
  build_blocks-Covers lives k p [] ivs v i below inside = absurd (omega (arith, inside))
  build_blocks-Covers lives k p (b ∷ bs) ivs v zero below inside =
      let ivs' = build_block max_vreg (lives k) p b.insts ivs in
      let covers = build_block-Covers v p (lives k) b.insts ivs below in
      let keep = build_blocks-keeps lives (k + 1) (p + inst_count b.insts) bs ivs' v in
      let this : k + 0 ≡ k = omega arith in
      rw this (record {
        at_entry = λ live. keep p (covers.at_entry live);
        at_exit = λ live. keep (p + inst_count b.insts - 1) (covers.at_exit live);
        at_inst = λ before after i split there.
            keep (p + inst_count before) (covers.at_inst before after i split there);
      })
  build_blocks-Covers lives k p (b ∷ bs) ivs v (suc i) below inside =
      let shift : k + suc i ≡ (k + 1) + i = omega arith in
      rw shift (
        build_blocks-Covers lives (k + 1) (p + inst_count b.insts) bs
          (build_block max_vreg (lives k) p b.insts ivs) v i below (omega (arith, inside)))

  pub build_intervals-Covers :
      (lives : ℕ → BlockLiveness) (blocks : List MachineBlock) (v i : ℕ)
      → v < max_vreg
      → i < length blocks
      → Covers v
          (start_of 1 blocks i)
          (lives i)
          (block_at blocks i).insts
          (regalloc_build_intervals max_vreg lives blocks)
  unfolding regalloc_build_intervals
  build_intervals-Covers lives blocks v i below inside =
      let here : 0 + i ≡ i = omega arith in
      subst
        (λ m.
          Covers v (start_of 1 blocks i) (lives m) (block_at blocks i).insts
            (build_blocks max_vreg lives 0 1 blocks []))
        here (build_blocks-Covers lives 0 1 blocks [] v i below inside)
