-- ===== src/Dce/Trim.antt =====
-- What a removal of dead instructions may change (src/middleend/ir_dce.c), as a relation between the
-- instructions before and after.
use baa.Base.{
  ℕ, ◌≤◌, ◌<◌, ◌≡◌, ◌≢◌, refl, sym, ◌∙◌, inl, inr, Bool, true, false, not, &&-both, some, List, [],
  ◌∷◌, ◌++◌, if◌then◌else◌, ltb, ltb→lt, ◌==◌, ==_iff, Bool-cases, Option-cases, arith, length,
  length-append,
}
use baa.Ir.Inst.{IrOp, IrInst}
use baa.Ir.Mutate.{is_id}
use baa.Dce.{has_effects, ir_inst_has_side_effects, dest_is_unused, ir_inst_is_removable_dead}
use baa.Dce.Counts.{insts_reads, insts_reads-append}

-- The operations that act on memory, control or the processor, whatever becomes of their value.
abbrev pub op_acts : IrOp → Bool
op_acts op = elim op [
  | IrOp.store ↦ true
  | IrOp.call ↦ true
  | IrOp.br ↦ true
  | IrOp.br_cond ↦ true
  | IrOp.ret ↦ true
  | IrOp.cpu_nop ↦ true
  | _ ↦ false
]

abbrev pub acts : IrInst → Bool
acts i = op_acts i.op

pub has_effects-acts : (op : IrOp) → has_effects op ≡ op_acts op
unfolding has_effects
has_effects-acts IrOp.store = refl
has_effects-acts IrOp.call = refl
has_effects-acts IrOp.br = refl
has_effects-acts IrOp.br_cond = refl
has_effects-acts IrOp.ret = refl
has_effects-acts IrOp.cpu_nop = refl
has_effects-acts _ = refl

abbrev pub select : (IrInst → Bool) → List IrInst → List IrInst
select p [] = []
select p (i ∷ is) = if p i then i ∷ select p is else select p is

abbrev pub defines : ℕ → IrInst → Bool
defines r i = is_id i.dest r

-- The second list is left of the first: the instructions that act are the same, a register that
-- is still read keeps its definitions, and there are no new reads.
pub record Trimmed (xs ys : List IrInst) : Type 0 where
  pub effects : select acts ys ≡ select acts xs
  pub kept : (r : ℕ) → insts_reads r ys ≢ 0 → select (defines r) ys ≡ select (defines r) xs
  pub fewer : (r : ℕ) → insts_reads r ys ≤ insts_reads r xs
  pub smaller : length ys ≤ length xs

pub Trimmed-refl : (xs : List IrInst) → Trimmed xs xs
Trimmed-refl xs = record {
  effects = refl;
  kept = λ r read. refl;
  fewer = λ r. omega arith;
  smaller = omega arith;
}

pub Trimmed-trans : (xs ys zs : List IrInst) → Trimmed xs ys → Trimmed ys zs → Trimmed xs zs
Trimmed-trans xs ys zs s t = record {
  effects = t.effects ∙ s.effects;
  kept = λ r read. t.kept r read ∙ s.kept r (λ e. read (omega (arith, e, t.fewer r)));
  fewer = λ r. omega (arith, s.fewer r, t.fewer r);
  smaller = omega (arith, s.smaller, t.smaller);
}

both :
    (i : IrInst) (uses : ℕ → ℕ) (max_reg : ℕ)
    → ir_inst_is_removable_dead i uses max_reg ≡ true
    → (dest_is_unused i.dest uses max_reg ≡ true) × (not (acts i) ≡ true)
unfolding ir_inst_is_removable_dead
both i uses max_reg h =
    rw (sym (has_effects-acts i.op))
      (&&-both (dest_is_unused i.dest uses max_reg) (not (ir_inst_has_side_effects i)) h)

-- A removable instruction defines a register below the bound that has no use, and does not act.
pub removable_lem :
    (i : IrInst) (uses : ℕ → ℕ) (max_reg : ℕ)
    → ir_inst_is_removable_dead i uses max_reg ≡ true
    → ((d : ℕ) × (i.dest ≡ some d) × (d < max_reg) × (uses d ≡ 0)) × (acts i ≡ false)
unfolding ir_inst_is_removable_dead
removable_lem i uses max_reg h = elim (Bool-cases (acts i)) [
  | inl busy ↦ absurd (cc (rw busy at (both i uses max_reg h).1))
  | inr quiet ↦ elim (Option-cases i.dest) [
    | inl missing ↦ absurd (cc (missing, rw missing at (both i uses max_reg h).0))
    | inr (d, e) ↦
        let (below, unused) =
          &&-both (ltb d max_reg) (uses d == 0) (rw e at (both i uses max_reg h).0) in
        ((d, e, ltb→lt d max_reg below, (==_iff (uses d) 0).0 unused), quiet)
  ]
]

-- It defines no register that is used.
pub removable_other :
    (i : IrInst) (uses : ℕ → ℕ) (max_reg r : ℕ)
    → ir_inst_is_removable_dead i uses max_reg ≡ true
    → (r < max_reg → uses r ≢ 0)
    → defines r i ≡ false
removable_other i uses max_reg r h used =
    let ((d, e, below, unused), quiet) = removable_lem i uses max_reg h in
    elim (Bool-cases (d == r)) [
      | inl same ↦
          let equal = (==_iff d r).0 same in
          absurd (used (omega (arith, equal, below)) (rw (sym equal) unused))
      | inr other ↦ rw e other
    ]

select-append :
    (p : IrInst → Bool) (xs ys : List IrInst) → select p (xs ++ ys) ≡ select p xs ++ select p ys
select-append p [] ys = refl
select-append p (x ∷ xs) ys = elim (Bool-cases (p x)) [
  | inl fits ↦ rw (fits, select-append p xs ys) refl
  | inr fails ↦ rw (fails, select-append p xs ys) refl
]

-- One removable instruction taken out, where the counts are at least the reads.
pub remove-Trimmed :
    (xs ys : List IrInst) (i : IrInst) (uses : ℕ → ℕ) (max_reg : ℕ)
    → ir_inst_is_removable_dead i uses max_reg ≡ true
    → ((r : ℕ) → r < max_reg → insts_reads r (xs ++ i ∷ ys) ≤ uses r)
    → Trimmed (xs ++ i ∷ ys) (xs ++ ys)
remove-Trimmed xs ys i uses max_reg h counted =
    let ((d, e, below, unused), quiet) = removable_lem i uses max_reg h in
    record {
      effects = select-append acts xs ys ∙ sym (select-append acts xs (i ∷ ys) ∙ rw quiet refl);
      kept = λ r read.
          let other = removable_other i uses max_reg r h (λ small none_used. read (
            omega (
              arith,
              counted r small,
              none_used,
              insts_reads-append r xs ys,
              insts_reads-append r xs (i ∷ ys),
            ))) in
          select-append (defines r) xs ys
          ∙ sym (select-append (defines r) xs (i ∷ ys) ∙ rw other refl);
      fewer = λ r. omega (arith, insts_reads-append r xs ys, insts_reads-append r xs (i ∷ ys));
      smaller = omega (arith, length-append {0} xs ys, length-append {0} xs (i ∷ ys));
    }
