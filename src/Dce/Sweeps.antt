-- ===== src/Dce/Sweeps.antt =====
-- The sweeps of the removal of dead instructions (src/middleend/ir_dce.c): what a sweep leaves out,
-- and that the sweeps end where nothing is left to remove.
use baa.Base.{
  ℕ, zero, suc, ◌+◌, ◌≤◌, ◌<◌, ◌≡◌, ◌≢◌, refl, sym, ◌∙◌, ap, subst, inl, inr, Bool, true, false,
  List, [], ◌∷◌, ◌++◌, ltb, ltb→lt, Bool-cases, arith, length,
}
use baa.Ir.Inst.{IrInst, IrBlock, IrFunc, block_insts}
use baa.Ir.Build.{ir_func_invalidate_defuse}
use baa.Dce.{
  ir_inst_is_removable_dead, count_uses, sweep_insts, sweep_blocks, dead_count, invalidate_times,
  sweep, sweeps,
}
use baa.Dce.Counts.{insts_reads, count_uses-reads}
use baa.Dce.Trim.{
  acts, select, defines, Trimmed, Trimmed-refl, Trimmed-trans, removable_lem, removable_other,
}

module _ (uses : ℕ → ℕ) (max_reg : ℕ) where
  sweep_insts-effects :
      (is : List IrInst) → select acts (sweep_insts uses max_reg is) ≡ select acts is
  unfolding sweep_insts
  sweep_insts-effects [] = refl
  sweep_insts-effects (i ∷ is) = elim (Bool-cases (ir_inst_is_removable_dead i uses max_reg)) [
    | inl dead ↦ rw (dead, (removable_lem i uses max_reg dead).1) (sweep_insts-effects is)
    | inr stays ↦ elim (Bool-cases (acts i)) [
      | inl busy ↦ rw (stays, busy, sweep_insts-effects is) refl
      | inr quiet ↦ rw (stays, quiet) (sweep_insts-effects is)
    ]
  ]

  sweep_insts-kept :
      (is : List IrInst) (r : ℕ)
      → (r < max_reg → uses r ≢ 0)
      → select (defines r) (sweep_insts uses max_reg is) ≡ select (defines r) is
  unfolding sweep_insts
  sweep_insts-kept [] r used = refl
  sweep_insts-kept (i ∷ is) r used = elim (Bool-cases (ir_inst_is_removable_dead i uses max_reg)) [
    | inl dead ↦ rw (dead, removable_other i uses max_reg r dead used) (sweep_insts-kept is r used)
    | inr stays ↦ elim (Bool-cases (defines r i)) [
      | inl this ↦ rw (stays, this, sweep_insts-kept is r used) refl
      | inr other ↦ rw (stays, other) (sweep_insts-kept is r used)
    ]
  ]

  sweep_insts-fewer :
      (is : List IrInst) (r : ℕ) → insts_reads r (sweep_insts uses max_reg is) ≤ insts_reads r is
  unfolding sweep_insts
  sweep_insts-fewer [] r = omega arith
  sweep_insts-fewer (i ∷ is) r = elim (Bool-cases (ir_inst_is_removable_dead i uses max_reg)) [
    | inl dead ↦ rw dead (omega (arith, sweep_insts-fewer is r))
    | inr stays ↦ rw stays (omega (arith, sweep_insts-fewer is r))
  ]

  sweep_insts-length :
      (is : List IrInst)
      → length (sweep_insts uses max_reg is) + dead_count uses max_reg is ≡ length is
  unfolding sweep_insts dead_count
  sweep_insts-length [] = omega arith
  sweep_insts-length (i ∷ is) = elim (Bool-cases (ir_inst_is_removable_dead i uses max_reg)) [
    | inl dead ↦ rw dead (omega (arith, sweep_insts-length is))
    | inr stays ↦ rw stays (omega (arith, sweep_insts-length is))
  ]

  -- With no dead instruction a sweep changes nothing.
  pub sweep_insts-settled :
      (is : List IrInst) → dead_count uses max_reg is ≡ 0 → sweep_insts uses max_reg is ≡ is
  unfolding sweep_insts dead_count
  sweep_insts-settled [] none_dead = refl
  sweep_insts-settled (i ∷ is) none_dead =
      elim (Bool-cases (ir_inst_is_removable_dead i uses max_reg)) [
        | inl dead ↦ absurd (omega (arith, rw dead at none_dead))
        | inr stays ↦
            rw stays (ap (◌∷◌ i) (sweep_insts-settled is (omega (arith, rw stays at none_dead))))
      ]

  sweep_insts-append :
      (xs ys : List IrInst)
      → sweep_insts uses max_reg (xs ++ ys)
        ≡ sweep_insts uses max_reg xs ++ sweep_insts uses max_reg ys
  unfolding sweep_insts
  sweep_insts-append [] ys = refl
  sweep_insts-append (x ∷ xs) ys = elim (Bool-cases (ir_inst_is_removable_dead x uses max_reg)) [
    | inl dead ↦ rw dead (sweep_insts-append xs ys)
    | inr stays ↦ rw (stays, sweep_insts-append xs ys) refl
  ]

  sweep_blocks-insts :
      (bs : List IrBlock)
      → block_insts (sweep_blocks uses max_reg bs) ≡ sweep_insts uses max_reg (block_insts bs)
  unfolding sweep_blocks sweep_insts
  sweep_blocks-insts [] = refl
  sweep_blocks-insts (b ∷ bs) =
      ap (◌++◌ (sweep_insts uses max_reg b.insts)) (sweep_blocks-insts bs)
      ∙ sym (sweep_insts-append b.insts (block_insts bs))

  sweep_insts-Trimmed :
      (is : List IrInst)
      → ((r : ℕ) → r < max_reg → insts_reads r is ≤ uses r)
      → Trimmed is (sweep_insts uses max_reg is)
  sweep_insts-Trimmed is counted = record {
    effects = sweep_insts-effects is;
    kept = λ r read.
        sweep_insts-kept is r
          (λ small unused. read (omega (arith, counted r small, unused, sweep_insts-fewer is r)));
    fewer = sweep_insts-fewer is;
    smaller = omega (arith, sweep_insts-length is);
  }

invalidate_times-blocks : (n : ℕ) (f : IrFunc) → (invalidate_times n f).blocks ≡ f.blocks
unfolding invalidate_times ir_func_invalidate_defuse
invalidate_times-blocks zero f = refl
invalidate_times-blocks (suc n) f = invalidate_times-blocks n (ir_func_invalidate_defuse f)

-- The instructions of a function, and the counts of their reads.
abbrev pub all_insts : IrFunc → List IrInst
all_insts f = block_insts f.blocks

abbrev pub fresh_uses : ℕ → List IrInst → ℕ → ℕ
fresh_uses max_reg is = count_uses is (λ _. 0) max_reg

pub fresh_uses-reads :
    (max_reg r : ℕ) (is : List IrInst) → r < max_reg → fresh_uses max_reg is r ≡ insts_reads r is
fresh_uses-reads max_reg r is h = count_uses-reads r is (λ _. 0) max_reg h ∙ omega arith

-- No instruction is removable and unused.
abbrev pub AllLive : ℕ → IrFunc → Type 0
AllLive max_reg f = dead_count (fresh_uses max_reg (all_insts f)) max_reg (all_insts f) ≡ 0

sweep-insts :
    (max_reg : ℕ) (f : IrFunc)
    → all_insts (sweep max_reg f).0
      ≡ sweep_insts (fresh_uses max_reg (all_insts f)) max_reg (all_insts f)
unfolding sweep
sweep-insts max_reg f =
    let uses = count_uses (all_insts f) (λ _. 0) max_reg in
    ap block_insts (
      invalidate_times-blocks (dead_count uses max_reg (all_insts f))
        (record f { blocks = sweep_blocks uses max_reg f.blocks }))
    ∙ sweep_blocks-insts uses max_reg f.blocks

sweep-Trimmed : (max_reg : ℕ) (f : IrFunc) → Trimmed (all_insts f) (all_insts (sweep max_reg f).0)
sweep-Trimmed max_reg f = subst (Trimmed (all_insts f)) (sym (sweep-insts max_reg f)) (
    sweep_insts-Trimmed (fresh_uses max_reg (all_insts f)) max_reg (all_insts f)
      (λ r small. omega (arith, fresh_uses-reads max_reg r (all_insts f) small)))

pub sweep-progress :
    (max_reg : ℕ) (f : IrFunc)
    → (sweep max_reg f).1
      ≡ ltb 0 (dead_count (fresh_uses max_reg (all_insts f)) max_reg (all_insts f))
unfolding sweep
sweep-progress max_reg f = refl

pub zero_of : (n : ℕ) → ltb 0 n ≡ false → n ≡ 0
zero_of n h = ground arith

-- A sweep without progress found nothing to remove.
sweep-AllLive :
    (max_reg : ℕ) (f : IrFunc) → (sweep max_reg f).1 ≡ false → AllLive max_reg (sweep max_reg f).0
sweep-AllLive max_reg f h =
    let uses = fresh_uses max_reg (all_insts f) in
    let done : dead_count uses max_reg (all_insts f) ≡ 0 =
      zero_of _ (sym (sweep-progress max_reg f) ∙ h) in
    let same = sweep-insts max_reg f ∙ sweep_insts-settled uses max_reg (all_insts f) done in
    rw same done

-- A sweep with progress leaves fewer instructions.
sweep-smaller :
    (max_reg : ℕ) (f : IrFunc)
    → (sweep max_reg f).1 ≡ true
    → length (all_insts (sweep max_reg f).0) < length (all_insts f)
sweep-smaller max_reg f h =
    let uses = fresh_uses max_reg (all_insts f) in
    let some_dead =
      ltb→lt 0 (dead_count uses max_reg (all_insts f)) (sym (sweep-progress max_reg f) ∙ h) in
    omega (
      arith,
      some_dead,
      sweep_insts-length uses max_reg (all_insts f),
      ap length (sweep-insts max_reg f),
    )

pub sweeps-Trimmed :
    (fuel max_reg : ℕ) (f : IrFunc) (changed : Bool)
    → Trimmed (all_insts f) (all_insts (sweeps fuel max_reg f changed).0)
unfolding sweeps
sweeps-Trimmed zero max_reg f changed = Trimmed-refl (all_insts f)
sweeps-Trimmed (suc fuel) max_reg f changed = elim (Bool-cases (sweep max_reg f).1) [
  | inl more ↦ simp more (
      Trimmed-trans (all_insts f) (all_insts (sweep max_reg f).0) _ (sweep-Trimmed max_reg f)
        (sweeps-Trimmed fuel max_reg (sweep max_reg f).0 true))
  | inr done ↦ simp done (sweep-Trimmed max_reg f)
]

pub sweeps-AllLive :
    (fuel max_reg : ℕ) (f : IrFunc) (changed : Bool)
    → length (all_insts f) < fuel
    → AllLive max_reg (sweeps fuel max_reg f changed).0
unfolding sweeps
sweeps-AllLive zero max_reg f changed enough = absurd (omega (arith, enough))
sweeps-AllLive (suc fuel) max_reg f changed enough = elim (Bool-cases (sweep max_reg f).1) [
  | inl more ↦ simp more (
      sweeps-AllLive fuel max_reg (sweep max_reg f).0 true
        (omega (arith, enough, sweep-smaller max_reg f more)))
  | inr done ↦ simp done (sweep-AllLive max_reg f done)
]
