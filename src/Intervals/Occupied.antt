-- ===== src/Intervals/Occupied.antt =====
-- The interval of a register covers the instructions that mention it and those before which it is live
-- (src/backend/regalloc_liveness.c, where the liveness analysis ended).
use baa.Base.{
  ℕ, ◌+◌, ◌-◌, ◌≤◌, ◌<◌, ◌≡◌, sym, ◌∙◌, ap, ◌⊎◌, inl, inr, true, false, List, ◌∷◌, ◌++◌, Bool-cases,
  arith, length,
}
use baa.Machine.{MachineInst, MachineBlock}
use baa.RegAlloc.Convention.{one_of}
use baa.RegAlloc.Step.{LiveInterval}
use baa.Liveness.{BlockLiveness, block_at, regalloc_compute_liveness}
use baa.Liveness.Exposed.{defined}
use baa.Liveness.Flow.{LiveIn}
use baa.Liveness.Exact.{compute_liveness_exact}
use baa.Intervals.{inst_mentions, inst_count, regalloc_build_intervals}
use baa.Intervals.Spans.{Spans}
use baa.Intervals.Cover.{start_of, Covers, build_intervals-Covers}
use baa.Intervals.Live.{
  LiveBefore, exposed-MentionIn, defined-MentionIn, exposed-append, defined-append,
  inst_count-append, Spans-between, append_assoc,
}

module _ (max_vreg : ℕ) (blocks : List MachineBlock) (i v : ℕ) where
  abbrev lives : ℕ → BlockLiveness
  lives = (regalloc_compute_liveness max_vreg blocks).0

  abbrev pub built : List LiveInterval
  built = regalloc_build_intervals max_vreg lives blocks

  -- A place of the block where the register is mentioned or before which it is live.
  abbrev pub Occupies : MachineInst → List MachineInst → Type 0
  Occupies inst after =
      (one_of v (inst_mentions inst) ≡ true) ⊎ LiveBefore blocks v i (inst ∷ after)

  module _ (ended : (regalloc_compute_liveness max_vreg blocks).1 ≡ false) (below : v < max_vreg)
      (inside : i < length blocks) (before after : List MachineInst) (inst : MachineInst)
      (split : (block_at blocks i).insts ≡ before ++ inst ∷ after) where
    abbrev first : ℕ
    first = start_of 1 blocks i

    covers : Covers v first (lives i) (block_at blocks i).insts built
    covers = build_intervals-Covers max_vreg lives blocks v i below inside

    -- The interval covers the instruction or one that stands after it.
    reaches :
        LiveBefore blocks v i (inst ∷ after)
        → (q : ℕ) × (first + inst_count before ≤ q) × Spans v q built
    reaches (inl used) =
        let (b, a, j, at, there) = exposed-MentionIn v (inst ∷ after) used in
        (
          first + inst_count (before ++ b),
          omega (arith, inst_count-append before b),
          covers.at_inst (before ++ b) a j
              (split ∙ (ap (λ l. before ++ l) at ∙ sym (append_assoc before b (j ∷ a)))) there,
        )
    reaches (inr (clear, out)) = (
      first + inst_count (block_at blocks i).insts - 1,
      omega (arith, ap inst_count split, inst_count-append before (inst ∷ after)),
      covers.at_exit ((compute_liveness_exact max_vreg blocks ended i v inside below).1.1 out),
    )

    -- The interval covers the instruction or one that stands before it in the block.
    starts :
        LiveBefore blocks v i (inst ∷ after)
        → (q : ℕ) × (q ≤ first + inst_count before) × Spans v q built
    starts live = elim (Bool-cases (defined v before)) [
      | inl written ↦
          let (b, a, j, at, there) = defined-MentionIn v before written in
          (
            first + inst_count b,
            omega (arith, ap inst_count at, inst_count-append b (j ∷ a)),
            covers.at_inst b (a ++ inst ∷ after) j
                (split ∙ (ap (λ l. l ++ inst ∷ after) at ∙ append_assoc b (j ∷ a) (inst ∷ after)))
                there,
          )
      | inr clear ↦ (
        first,
        omega arith,
        covers.at_entry (
            (compute_liveness_exact max_vreg blocks ended i v inside below).0.1
              (enters clear live)),
      )
    ]
      where
        enters : defined v before ≡ false → LiveBefore blocks v i (inst ∷ after) → LiveIn blocks v i
        enters clear (inl used) =
            LiveIn.used i (rw split (exposed-append v before (inst ∷ after) clear used))
        enters clear (inr (kept, (j, next, live))) =
            LiveIn.through i j (rw split (defined-append v before (inst ∷ after) clear kept)) next
              live

    -- The interval of the register covers the instruction.
    pub Occupies-Spans : Occupies inst after → Spans v (first + inst_count before) built
    Occupies-Spans (inl there) = covers.at_inst before after inst split there
    Occupies-Spans (inr live) =
        let (low, early, low_span) = starts live in
        let (high, late, high_span) = reaches live in
        Spans-between v low (first + inst_count before) high built low_span high_span early late
