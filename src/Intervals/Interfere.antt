-- ===== src/Intervals/Interfere.antt =====
-- Registers that are live at one place are kept apart (src/backend/regalloc_liveness.c with
-- src/backend/regalloc_linear_scan.c).
use mathlib.Core.List.{Perm, Permᴰ}
use mathlib.Core.List.Permᴰ
use mathlib.Core.HLevel.{¬_prop}
use mathlib.Core.Logic.{∥∥₁_elim}
use baa.Base.{
  ℕ, ◌+◌, ◌≤◌, ◌<◌, ◌≡◌, ◌≢◌, sym, ◌∙◌, ap, ◌⊎◌, inl, inr, true, false, List, ◌∷◌, ◌++◌, Bool-cases,
  arith, length, subst, ltb, ltb→lt,
}
use baa.Machine.{MachineInst, MachineBlock}
use baa.RegAlloc.Convention.{CallingConv, phys_none}
use baa.RegAlloc.Step.{LiveInterval, ScanState}
use baa.RegAlloc.Safe.{InOrder, interval, linear_scan_disjoint}
use baa.RegAlloc.Frame.{result, linear_scan-Separate}
use baa.RegAlloc.Maps.{Agrees, linear_scan-Agrees}
use baa.Liveness.{block_at, regalloc_compute_liveness}
use baa.Intervals.{inst_count, regalloc_build_intervals}
use baa.Intervals.Spans.{Spans}
use baa.Intervals.Cover.{start_of}
use baa.Intervals.Occupied.{Occupies, Occupies-Spans}
use baa.Intervals.Once.{Perm-length, Perm-Stands, find_interval-Stands, build_intervals-distinct}

-- Two words of eight bytes, at these distances below the frame, overlap.
abbrev pub Overlap : ℕ → ℕ → Type 0
Overlap a b = (a < b + 8) × (b < a + 8)

Nat-order : (j k : ℕ) → (j < k) ⊎ (k < j) ⊎ (j ≡ k)
Nat-order j k = elim (Bool-cases (ltb j k)) [
  | inl before ↦ inl (ltb→lt j k before)
  | inr not_before ↦ elim (Bool-cases (ltb k j)) [
    | inl after ↦ inr (inl (ltb→lt k j after))
    | inr not_after ↦ inr (inr (ground (arith, not_before, not_after)))
  ]
]

module _ (sort : List LiveInterval → List LiveInterval) (conv : CallingConv) (call_pos : List ℕ)
    (max_vreg stack_size : ℕ) (blocks : List MachineBlock) where
  abbrev intervals : List LiveInterval
  intervals = regalloc_build_intervals max_vreg (regalloc_compute_liveness max_vreg blocks).0 blocks

  -- The state in which allocation ends.
  abbrev pub allocated : ScanState
  allocated = result sort conv call_pos max_vreg stack_size intervals

  module _ (order : InOrder (sort intervals)) (perm : Permᴰ (sort intervals) intervals) where
    abbrev at : ℕ → LiveInterval
    at = interval sort conv call_pos max_vreg stack_size intervals

    -- What allocation did with the interval of a register.
    abbrev pub Result : ℕ → ℕ → Type 0
    Result v q =
        (j : ℕ) × (j < length intervals)
        × ((at j).vreg ≡ v)
        × ((at j).start ≤ q)
        × (q ≤ (at j).stop)
        × Agrees allocated v (allocated.placements j)

    pub Spans-Result : (v q : ℕ) → v < max_vreg → Spans v q intervals → Result v q
    Spans-Result v q below (li, found, low, high) =
        let (named, stands) = find_interval-Stands v li intervals found in
        let (j, within, here) = Perm-Stands li (Permᴰ.symm perm) stands in
        let same = Perm-length perm in
        let inside : j < length intervals = omega (arith, within, same) in
        let reg : (at j).vreg ≡ v = ap (λ (k : LiveInterval). k.vreg) here ∙ named in
        let first : (at j).start ≡ li.start = ap (λ (k : LiveInterval). k.start) here in
        let last : (at j).stop ≡ li.stop = ap (λ (k : LiveInterval). k.stop) here in
        (
          j,
          inside,
          reg,
          omega (arith, low, first),
          omega (arith, high, last),
          subst (λ w. Agrees allocated w (allocated.placements j)) reg
              (linear_scan-Agrees sort conv call_pos max_vreg stack_size intervals order same
                (λ a b below_a below_b.
                  build_intervals-distinct max_vreg (regalloc_compute_liveness max_vreg blocks).0
                    blocks (sort intervals) perm a b (omega (arith, below_a, same))
                    (omega (arith, below_b, same)))
                j inside (rw reg below)),
        )

    -- Two registers whose intervals cover one position.
    Result-apart :
        (v w q : ℕ)
        → v ≢ w
        → Result v q
        → Result w q
        → allocated.vreg_to_phys v ≢ phys_none
        → allocated.vreg_to_phys v ≢ allocated.vreg_to_phys w
    Result-apart v w q different (j, in_j, reg_j, low_j, high_j, (phys_j, _, _))
          (k, in_k, reg_k, low_k, high_k, (phys_k, _, _)) real equal =
        let same = Perm-length perm in
        let shared : (allocated.placements j).phys_reg ≡ (allocated.placements k).phys_reg =
          sym phys_j ∙ (equal ∙ phys_k) in
        let apart =
          linear_scan_disjoint sort conv call_pos max_vreg stack_size intervals order same in
        elim (Nat-order j k) [
          | inl before ↦ omega (
            arith,
            low_k,
            high_j,
            apart j k before in_k (λ e. real (equal ∙ (phys_k ∙ e))) shared,
          )
          | inr (inl after) ↦
              omega
                (arith, low_j, high_k, apart k j after in_j (λ e. real (phys_j ∙ e)) (sym shared))
          | inr (inr e) ↦ different (sym reg_j ∙ (ap (λ m. (at m).vreg) e ∙ reg_k))
        ]

    -- The slots of two such registers on the stack.
    Result-separate :
        (v w q : ℕ)
        → v ≢ w
        → Result v q
        → Result w q
        → allocated.vreg_spilled v ≡ true
        → allocated.vreg_spilled w ≡ true
        → ¬ Overlap (allocated.vreg_spill_offset v) (allocated.vreg_spill_offset w)
    Result-separate v w q different (j, in_j, reg_j, low_j, high_j, (_, stack_j, slot_j))
          (k, in_k, reg_k, low_k, high_k, (_, stack_k, slot_k)) spilled_v spilled_w
          (first, second) =
        let spilled_j : (allocated.placements j).spilled ≡ true = sym stack_j ∙ spilled_v in
        let spilled_k : (allocated.placements k).spilled ≡ true = sym stack_k ∙ spilled_w in
        elim (linear_scan-Separate sort conv call_pos max_vreg stack_size intervals order
          (Perm-length perm) j k in_j in_k
          (λ e. different (sym reg_j ∙ (ap (λ m. (at m).vreg) e ∙ reg_k))) spilled_j spilled_k) [
            | inl before ↦ omega (arith, before, slot_j spilled_j, slot_k spilled_k, first, second)
            | inr after ↦ omega (arith, after, slot_j spilled_j, slot_k spilled_k, first, second)
          ]

  -- Of two different registers that one instruction mentions, or before which they are live, the one
  -- never has the other's physical register, and where both are on the stack their slots do not overlap.
  -- This holds where `sort` gives the intervals back in the order of their starts and the rounds of the
  -- liveness analysis end before their limit.
  pub live_registers_apart :
      InOrder (sort intervals)
      → Perm (sort intervals) intervals
      → (regalloc_compute_liveness max_vreg blocks).1 ≡ false
      → (i v w : ℕ) → i < length blocks
      → v < max_vreg
      → w < max_vreg
      → v ≢ w
      → (before after : List MachineInst) (inst : MachineInst)
      → (block_at blocks i).insts ≡ before ++ inst ∷ after
      → Occupies max_vreg blocks i v inst after
      → Occupies max_vreg blocks i w inst after
      → (allocated.vreg_to_phys v ≢ phys_none → allocated.vreg_to_phys v ≢ allocated.vreg_to_phys w)
        × (allocated.vreg_spilled v ≡ true
            → allocated.vreg_spilled w ≡ true
            → ¬ Overlap (allocated.vreg_spill_offset v) (allocated.vreg_spill_offset w))
  live_registers_apart order perm ended i v w inside below_v below_w different before after inst
        split live_v live_w =
      let q = start_of 1 blocks i + inst_count before in
      let span_v =
        Occupies-Spans max_vreg blocks i v ended below_v inside before after inst split live_v in
      let span_w =
        Occupies-Spans max_vreg blocks i w ended below_w inside before after inst split live_w in
      (
        (λ real. ∥∥₁_elim perm ¬_prop (λ p.
            Result-apart order p v w q different (Spans-Result order p v q below_v span_v)
              (Spans-Result order p w q below_w span_w) real)),
        (λ spilled_v spilled_w. ∥∥₁_elim perm ¬_prop (λ p.
            Result-separate order p v w q different (Spans-Result order p v q below_v span_v)
              (Spans-Result order p w q below_w span_w) spilled_v spilled_w)),
      )
