-- ===== src/Dce/Flag.antt =====
-- The flag that the removal of dead instructions returns (src/middleend/ir_dce.c).
use baa.Base.{
  ℕ, zero, suc, ◌≡◌, refl, sym, ◌∙◌, ap, inl, inr, Bool, true, false, ◌&&◌, Option, none, some,
  List, [], ◌∷◌, ◌++◌, ◌==◌, Bool-cases, arith, length, ◌+◌,
}
use baa.Ir.Inst.{IrInst, IrBlock, IrFunc, block_insts}
use baa.ConstFold.Pass.{find_in_block}
use baa.Dce.{
  ir_inst_is_removable_dead, is_defined_by, DceWorkItem, DceState, process_found, process_item,
  process_work, sweep, sweeps, sweep_blocks, dead_count, count_uses, dce_body, entered_body,
  ir_func_dce_instructions, seed_blocks, def_insts, invalidate_times,
}
use baa.Dce.Sweeps.{sweep-progress, zero_of, all_insts, sweep_insts-settled}

process_found-true :
    (max_reg : ℕ) (item : DceWorkItem) (o : Option IrInst) (s : DceState)
    → s.changed ≡ true
    → (process_found max_reg item o s).changed ≡ true
unfolding process_found
process_found-true max_reg item none s h = h
process_found-true max_reg item (some i) s h =
    elim (Bool-cases
      (is_defined_by i.dest s.def_inst item.inst && ir_inst_is_removable_dead i s.uses max_reg)) [
        | inl dead ↦ rw dead refl
        | inr stays ↦ rw stays h
      ]

process_found-same :
    (max_reg : ℕ) (item : DceWorkItem) (o : Option IrInst) (s : DceState)
    → (process_found max_reg item o s).changed ≡ false
    → process_found max_reg item o s ≡ s
unfolding process_found
process_found-same max_reg item none s h = refl
process_found-same max_reg item (some i) s h =
    elim (Bool-cases
      (is_defined_by i.dest s.def_inst item.inst && ir_inst_is_removable_dead i s.uses max_reg)) [
        | inl dead ↦ absurd (cc (rw dead at h))
        | inr stays ↦ rw stays refl
      ]

process_item-same :
    (max_reg : ℕ) (item : DceWorkItem) (s : DceState)
    → (process_item max_reg item s).changed ≡ false
    → process_item max_reg item s ≡ s
unfolding process_item
process_item-same max_reg item s h =
    process_found-same max_reg item (find_in_block item.block item.inst s.func.blocks) s h

process_work-true :
    (max_reg : ℕ) (work : List DceWorkItem) (s : DceState)
    → s.changed ≡ true
    → (process_work max_reg work s).changed ≡ true
unfolding process_work process_item
process_work-true max_reg [] s h = h
process_work-true max_reg (item ∷ rest) s h =
    process_work-true max_reg rest (process_item max_reg item s)
      (process_found-true max_reg item (find_in_block item.block item.inst s.func.blocks) s h)

process_work-same :
    (max_reg : ℕ) (work : List DceWorkItem) (s : DceState)
    → (process_work max_reg work s).changed ≡ false
    → process_work max_reg work s ≡ s
unfolding process_work
process_work-same max_reg [] s h = refl
process_work-same max_reg (item ∷ rest) s h =
    let s' = process_item max_reg item s in
    let later = process_work-same max_reg rest s' h in
    let quiet : s'.changed ≡ false = ap (λ (t : DceState). t.changed) (sym later) ∙ h in
    later ∙ process_item-same max_reg item s quiet

dead_count-both :
    (uses : ℕ → ℕ) (max_reg : ℕ) (xs ys : List IrInst)
    → dead_count uses max_reg (xs ++ ys) ≡ 0
    → (dead_count uses max_reg xs ≡ 0) × (dead_count uses max_reg ys ≡ 0)
unfolding dead_count
dead_count-both uses max_reg [] ys h = (refl, h)
dead_count-both uses max_reg (x ∷ xs) ys h =
    let (front, back) = dead_count-both uses max_reg xs ys (omega (arith, h)) in
    (omega (arith, h, front), back)

sweep_blocks-settled :
    (uses : ℕ → ℕ) (max_reg : ℕ) (bs : List IrBlock)
    → dead_count uses max_reg (block_insts bs) ≡ 0
    → sweep_blocks uses max_reg bs ≡ bs
unfolding sweep_blocks
sweep_blocks-settled uses max_reg [] h = refl
sweep_blocks-settled uses max_reg (b ∷ bs) h =
    let (here, rest) = dead_count-both uses max_reg b.insts (block_insts bs) h in
    rw (sweep_insts-settled uses max_reg b.insts here, sweep_blocks-settled uses max_reg bs rest)
      refl

sweep-same : (max_reg : ℕ) (f : IrFunc) → (sweep max_reg f).1 ≡ false → (sweep max_reg f).0 ≡ f
unfolding sweep invalidate_times
sweep-same max_reg f h =
    let uses = count_uses (all_insts f) (λ _. 0) max_reg in
    let settled : dead_count uses max_reg (all_insts f) ≡ 0 =
      zero_of _ (sym (sweep-progress max_reg f) ∙ h) in
    rw (settled, sweep_blocks-settled uses max_reg f.blocks settled) refl

sweeps-true : (fuel max_reg : ℕ) (f : IrFunc) → (sweeps fuel max_reg f true).1 ≡ true
unfolding sweeps
sweeps-true zero max_reg f = refl
sweeps-true (suc fuel) max_reg f = elim (Bool-cases (sweep max_reg f).1) [
  | inl more ↦ simp more (sweeps-true fuel max_reg (sweep max_reg f).0)
  | inr done ↦ simp done
]

-- Sweeps that report no change leave the function, and got no change before them.
sweeps-same :
    (fuel max_reg : ℕ) (f : IrFunc) (changed : Bool)
    → (sweeps fuel max_reg f changed).1 ≡ false
    → ((sweeps fuel max_reg f changed).0 ≡ f) × (changed ≡ false)
unfolding sweeps
sweeps-same zero max_reg f changed h = (refl, h)
sweeps-same (suc fuel) max_reg f changed h = elim (Bool-cases (sweep max_reg f).1) [
  | inl more ↦ absurd (cc (simp more at h, sweeps-true fuel max_reg (sweep max_reg f).0))
  | inr done ↦ simp done (sweep-same max_reg f done, simp done at h)
]

dce_body-same :
    (max_reg : ℕ) (f : IrFunc) → (dce_body max_reg f).1 ≡ false → (dce_body max_reg f).0 ≡ f
unfolding dce_body
dce_body-same max_reg f h =
    let uses = count_uses (block_insts f.blocks) (λ _. 0) max_reg in
    let start : DceState = record {
      func = f;
      uses = uses;
      def_inst = def_insts (block_insts f.blocks) max_reg (λ _. none);
      changed = false;
    } in
    let work = (seed_blocks f.blocks uses max_reg ([], λ _. false)).0 in
    let s = process_work max_reg work start in
    let (swept, quiet) =
      sweeps-same (length (block_insts s.func.blocks) + 1) max_reg s.func s.changed h in
    swept ∙ ap (λ (t : DceState). t.func) (process_work-same max_reg work start quiet)

entered_body-same :
    (entry : Option ℕ) (f : IrFunc)
    → (entered_body entry f).1 ≡ false
    → (entered_body entry f).0 ≡ f
unfolding entered_body
entered_body-same none f h = refl
entered_body-same (some e) f h = elim (Bool-cases (f.next_reg == 0)) [
  | inl empty ↦ simp empty refl
  | inr regs ↦ simp regs (dce_body-same f.next_reg f (simp regs at h))
]

-- Where the removal of dead instructions in a function reports no change, the function is as it was,
-- its epoch included, so that a chain of uses built before is still right.
pub dce_instructions-same :
    (f : IrFunc) → (ir_func_dce_instructions f).1 ≡ false → (ir_func_dce_instructions f).0 ≡ f
unfolding ir_func_dce_instructions
dce_instructions-same f h = elim (Bool-cases f.is_prototype) [
  | inl prototype ↦ simp prototype refl
  | inr body ↦ simp body (entered_body-same f.entry f (simp body at h))
]
