-- ===== src/Intervals.antt =====
-- The live intervals of virtual registers (`update_interval` and `regalloc_build_intervals` of
-- src/backend/regalloc_liveness.c). A position is one more than in the source, where the position before
-- the first instruction is -1. Allocation succeeds.
pub mod Spans
pub mod Cover
pub mod Live
pub mod Occupied
pub mod Once
pub mod Interfere
use baa.Base.{
  ℕ, zero, suc, ◌+◌, ◌-◌, Bool, true, false, Option, none, some, List, [], ◌∷◌, ◌++◌, foldl,
  if◌then◌else◌, ◌==◌, ltb,
}
use baa.Machine.{MachineInst, MachineBlock}
use baa.RegAlloc.Step.{LiveInterval}
use baa.Liveness.{BitSet, BlockLiveness, listed, normal_vreg, mem_base_vreg}

abbrev pub extend : LiveInterval → ℕ → LiveInterval
extend li p = record li {
  start = if ltb p li.start then p else li.start;
  stop = if ltb li.stop p then p else li.stop;
}

-- The first interval of the register grows to the position; with none there is a new one at the end.
unfoldable pub find_or_add : ℕ → ℕ → List LiveInterval → List LiveInterval
find_or_add vreg p [] = record { vreg = vreg; start = p; stop = p } ∷ []
find_or_add vreg p (li ∷ rest) =
    if li.vreg == vreg then extend li p ∷ rest else li ∷ find_or_add vreg p rest

unfoldable pub update_interval : ℕ → ℕ → List LiveInterval → ℕ → List LiveInterval
unfolding find_or_add
update_interval max_vreg p intervals vreg =
    if ltb vreg max_vreg then find_or_add vreg p intervals else intervals

-- The registers of a set, from v on, for n numbers.
unfoldable pub update_set : ℕ → ℕ → BitSet → ℕ → ℕ → List LiveInterval → List LiveInterval
unfolding update_interval
update_set max_vreg p set zero v intervals = intervals
update_set max_vreg p set (suc n) v intervals =
    update_set max_vreg p set n (v + 1)
      (if set v then update_interval max_vreg p intervals v else intervals)

-- The registers that an instruction mentions, in the order of the source.
unfoldable pub inst_mentions : MachineInst → List ℕ
inst_mentions inst =
    listed (normal_vreg inst.src1.payload)
    ++ (listed (normal_vreg inst.src2.payload)
        ++ (listed (mem_base_vreg inst.src1.payload)
            ++ (listed (mem_base_vreg inst.src2.payload)
                ++ (listed (mem_base_vreg inst.dst.payload)
                    ++ listed (normal_vreg inst.dst.payload)))))

unfoldable pub update_insts : ℕ → ℕ → List MachineInst → List LiveInterval → List LiveInterval
unfolding update_interval inst_mentions
update_insts max_vreg p [] intervals = intervals
update_insts max_vreg p (i ∷ is) intervals =
    update_insts max_vreg (p + 1) is
      (foldl (update_interval max_vreg p) intervals (inst_mentions i))

abbrev pub inst_count : List MachineInst → ℕ
inst_count [] = 0
inst_count (i ∷ is) = suc (inst_count is)

-- A block whose first instruction stands at p.
unfoldable pub build_block :
    ℕ → BlockLiveness → ℕ → List MachineInst → List LiveInterval → List LiveInterval
unfolding update_set update_insts
build_block max_vreg bl p insts intervals =
    update_set max_vreg (p + inst_count insts - 1) bl.live_out max_vreg 0
      (update_insts max_vreg p insts (update_set max_vreg p bl.live_in max_vreg 0 intervals))

unfoldable pub build_blocks :
    ℕ → (ℕ → BlockLiveness) → ℕ → ℕ → List MachineBlock → List LiveInterval → List LiveInterval
unfolding build_block
build_blocks max_vreg lives i p [] intervals = intervals
build_blocks max_vreg lives i p (b ∷ bs) intervals =
    build_blocks max_vreg lives (i + 1) (p + inst_count b.insts) bs
      (build_block max_vreg (lives i) p b.insts intervals)

unfoldable pub regalloc_build_intervals :
    ℕ → (ℕ → BlockLiveness) → List MachineBlock → List LiveInterval
unfolding build_blocks
regalloc_build_intervals max_vreg lives blocks = build_blocks max_vreg lives 0 1 blocks []
