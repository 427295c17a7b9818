-- ===== src/Dce/Work.antt =====
-- The whole removal of dead instructions in a function (src/middleend/ir_dce.c): the work list and
-- the sweeps after it.
use baa.Base.{
  ℕ, ◌+◌, ◌≤◌, ◌<◌, ◌≡◌, refl, ◌∙◌, ap, subst, inl, inr, false, ◌&&◌, &&-both, Option, none, some,
  List, [], ◌∷◌, ◌++◌, ◌==◌, Bool-cases, arith, length,
}
use mathlib.Core.Option.{some-injective}
use baa.Ir.Inst.{IrInst, IrBlock, IrFunc, block_insts}
use baa.Ir.Build.{ir_func_invalidate_defuse}
use baa.Ir.Mutate.{is_id, edit_block, unlink, ir_block_remove_inst}
use baa.ConstFold.Pass.{find_inst, find_in_block}
use baa.Dce.{
  ir_inst_is_removable_dead, count_uses, DceWorkItem, DceState, is_defined_by, process_found,
  process_item, process_work, seed_blocks, def_insts, dce_body, entered_body,
  ir_func_dce_instructions,
}
use baa.Dce.Counts.{insts_reads, insts_reads-append, decrement-reads, count_uses-reads}
use baa.Dce.Trim.{Trimmed, Trimmed-refl, Trimmed-trans, remove-Trimmed}
use baa.Dce.Sweeps.{all_insts, AllLive, sweeps-Trimmed, sweeps-AllLive}

-- The second list is the first without the instruction.
abbrev Without : IrInst → List IrInst → List IrInst → Type 0
Without i xs ys =
    (before : List IrInst) × (after : List IrInst) × (xs ≡ before ++ i ∷ after)
    × (ys ≡ before ++ after)

append_assoc : (xs ys zs : List IrInst) → (xs ++ ys) ++ zs ≡ xs ++ (ys ++ zs)
append_assoc [] ys zs = refl
append_assoc (x ∷ xs) ys zs = ap (◌∷◌ x) (append_assoc xs ys zs)

-- More instructions in front and behind.
append-Without :
    (i : IrInst) (front xs ys : List IrInst)
    → Without i xs ys
    → Without i (front ++ xs) (front ++ ys)
append-Without i [] xs ys w = w
append-Without i (x ∷ front) xs ys w =
    let (before, after, old, new) = append-Without i front xs ys w in
    (x ∷ before, after, ap (◌∷◌ x) old, ap (◌∷◌ x) new)

Without-append :
    (i : IrInst) (xs ys rest : List IrInst) → Without i xs ys → Without i (xs ++ rest) (ys ++ rest)
Without-append i xs ys rest (before, after, old, new) = (
  before,
  after ++ rest,
  ap (λ (l : List IrInst). l ++ rest) old ∙ append_assoc before (i ∷ after) rest,
  ap (λ (l : List IrInst). l ++ rest) new ∙ append_assoc before after rest,
)

unlink-Without :
    (n : ℕ) (i : IrInst) (is : List IrInst) → find_inst n is ≡ some i → Without i is (unlink n is)
unfolding find_inst unlink
unlink-Without n i [] found = cc
unlink-Without n i (j ∷ is) found = elim (Bool-cases (is_id j.id n)) [
  | inl here ↦
      rw here ([], is, ap (λ (k : IrInst). k ∷ is) (some-injective j i (rw here at found)), refl)
  | inr other ↦
      rw other
        (append-Without i (j ∷ []) is (unlink n is) (unlink-Without n i is (rw other at found)))
]

remove_block-Without :
    (block n : ℕ) (i : IrInst) (bs : List IrBlock)
    → find_in_block block n bs ≡ some i
    → Without i
        (block_insts bs)
        (block_insts (edit_block block (λ b. record b { insts = unlink n b.insts }) bs))
unfolding find_in_block edit_block
remove_block-Without block n i [] found = cc
remove_block-Without block n i (b ∷ bs) found = elim (Bool-cases (b.id == block)) [
  | inl here ↦ rw here (
      Without-append i b.insts (unlink n b.insts) (block_insts bs)
        (unlink-Without n i b.insts (rw here at found)))
  | inr other ↦
      rw other
        (append-Without i b.insts _ _ (remove_block-Without block n i bs (rw other at found)))
]

remove_inst-Without :
    (block n : ℕ) (i : IrInst) (f : IrFunc)
    → find_in_block block n f.blocks ≡ some i
    → Without i (all_insts f) (all_insts (ir_block_remove_inst block n f))
unfolding ir_block_remove_inst ir_func_invalidate_defuse
remove_inst-Without block n i f found = remove_block-Without block n i f.blocks found

-- The counts are at least the reads.
abbrev Counted : ℕ → DceState → Type 0
Counted max_reg s = (r : ℕ) → r < max_reg → insts_reads r (all_insts s.func) ≤ s.uses r

abbrev WorkInv : ℕ → IrFunc → DceState → Type 0
WorkInv max_reg f s = Trimmed (all_insts f) (all_insts s.func) × Counted max_reg s

process_found-WorkInv :
    (max_reg : ℕ) (f : IrFunc) (item : DceWorkItem) (s : DceState)
    → (o : Option IrInst) → find_in_block item.block item.inst s.func.blocks ≡ o
    → WorkInv max_reg f s
    → WorkInv max_reg f (process_found max_reg item o s)
unfolding process_found
process_found-WorkInv max_reg f item s none missing inv = inv
process_found-WorkInv max_reg f item s (some i) found inv =
    elim (Bool-cases
      (is_defined_by i.dest s.def_inst item.inst && ir_inst_is_removable_dead i s.uses max_reg)) [
        | inr stays ↦ rw stays inv
        | inl dead ↦
            let defined = is_defined_by i.dest s.def_inst item.inst in
            let removable = (&&-both defined (ir_inst_is_removable_dead i s.uses max_reg) dead).1 in
            let (before, after, old, new) =
              remove_inst-Without item.block item.inst i s.func found in
            let counted =
              subst (λ (is : List IrInst). (r : ℕ) → r < max_reg → insts_reads r is ≤ s.uses r) old
                inv.1 in
            let trimmed = remove-Trimmed before after i s.uses max_reg removable counted in
            let removed = ir_block_remove_inst item.block item.inst s.func in
            rw dead (
              Trimmed-trans (all_insts f) (all_insts s.func) (all_insts removed) inv.0
                  (rw (old, new) trimmed),
              (λ r small. omega (
                arith,
                counted r small,
                ap (insts_reads r) new,
                insts_reads-append r before (i ∷ after),
                insts_reads-append r before after,
                decrement-reads r i s.uses max_reg small,
              )),
            )
      ]

process_item-WorkInv :
    (max_reg : ℕ) (f : IrFunc) (item : DceWorkItem) (s : DceState)
    → WorkInv max_reg f s
    → WorkInv max_reg f (process_item max_reg item s)
unfolding process_item
process_item-WorkInv max_reg f item s inv =
    process_found-WorkInv max_reg f item s (find_in_block item.block item.inst s.func.blocks) refl
      inv

process_work-WorkInv :
    (max_reg : ℕ) (f : IrFunc) (work : List DceWorkItem) (s : DceState)
    → WorkInv max_reg f s
    → WorkInv max_reg f (process_work max_reg work s)
unfolding process_work
process_work-WorkInv max_reg f [] s inv = inv
process_work-WorkInv max_reg f (item ∷ rest) s inv =
    process_work-WorkInv max_reg f rest (process_item max_reg item s)
      (process_item-WorkInv max_reg f item s inv)

-- The state after the work list.
worked : ℕ → IrFunc → DceState
worked max_reg f =
    let uses = count_uses (block_insts f.blocks) (λ _. 0) max_reg in
    process_work max_reg (seed_blocks f.blocks uses max_reg ([], λ _. false)).0 (record {
      func = f;
      uses = uses;
      def_inst = def_insts (block_insts f.blocks) max_reg (λ _. none);
      changed = false;
    })

worked-Trimmed :
    (max_reg : ℕ) (f : IrFunc) → Trimmed (all_insts f) (all_insts (worked max_reg f).func)
unfolding worked
worked-Trimmed max_reg f =
    let uses = count_uses (block_insts f.blocks) (λ _. 0) max_reg in
    (process_work-WorkInv max_reg f (seed_blocks f.blocks uses max_reg ([], λ _. false)).0
      (record {
        func = f;
        uses = uses;
        def_inst = def_insts (block_insts f.blocks) max_reg (λ _. none);
        changed = false;
      })
      (
        Trimmed-refl (all_insts f),
        (λ r small. omega (arith, count_uses-reads r (all_insts f) (λ _. 0) max_reg small)),
      )).0

dce_body-Trimmed :
    (max_reg : ℕ) (f : IrFunc) → Trimmed (all_insts f) (all_insts (dce_body max_reg f).0)
unfolding dce_body worked
dce_body-Trimmed max_reg f =
    let s = worked max_reg f in
    Trimmed-trans (all_insts f) (all_insts s.func) (all_insts (dce_body max_reg f).0)
      (worked-Trimmed max_reg f)
      (sweeps-Trimmed (length (all_insts s.func) + 1) max_reg s.func s.changed)

pub dce_body-AllLive : (max_reg : ℕ) (f : IrFunc) → AllLive max_reg (dce_body max_reg f).0
unfolding dce_body worked
dce_body-AllLive max_reg f =
    let s = worked max_reg f in
    sweeps-AllLive (length (all_insts s.func) + 1) max_reg s.func s.changed (omega arith)

entered_body-Trimmed :
    (o : Option ℕ) (f : IrFunc) → Trimmed (all_insts f) (all_insts (entered_body o f).0)
unfolding entered_body
entered_body-Trimmed none f = Trimmed-refl (all_insts f)
entered_body-Trimmed (some e) f = elim (Bool-cases (f.next_reg == 0)) [
  | inl empty ↦ simp empty (Trimmed-refl (all_insts f))
  | inr regs ↦ simp regs (dce_body-Trimmed f.next_reg f)
]

-- For every function, the removal of dead instructions keeps every store, call, jump, return and
-- processor no-op, in their order; a register that a remaining instruction reads keeps all its
-- definitions; and no register is read more often, nor are there more instructions.
pub dce_instructions-Trimmed :
    (f : IrFunc) → Trimmed (all_insts f) (all_insts (ir_func_dce_instructions f).0)
unfolding ir_func_dce_instructions
dce_instructions-Trimmed f = elim (Bool-cases f.is_prototype) [
  | inl prototype ↦ simp prototype (Trimmed-refl (all_insts f))
  | inr body ↦ simp body (entered_body-Trimmed f.entry f)
]
