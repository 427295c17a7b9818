-- ===== src/Canon/Stable.antt =====
-- A second run of the canonicalisation pass (src/middleend/ir_canon.c) finds nothing to do.
use mathlib.Core.Option.{some-injective}
use baa.Base.{
  ◌≡◌, refl, subst, inl, inr, true, false, none, some, List, [], ◌∷◌, arith, Bool-cases,
  Option-cases,
}
use baa.Ir.Inst.{IrCmpPred, IrValueData, IrValue, IrInst, IrBlock, IrFunc, IrModule}
use baa.Ir.Build.{ir_func_invalidate_defuse}
use baa.Canon.{
  ir_op_is_commutative, ir_cmp_is_swappable, ir_cmp_swap_pred, out_of_order, canon_operands,
  ir_canon_commutative_two_operand, ir_canon_cmp, is_cmp, canon_inst, canon_insts, canon_blocks,
  canon_body, canon_entered, ir_canon_func, canon_funcs, ir_canon_run,
}

out_of_order-swap : (a b : IrValueData) → out_of_order a b ≡ true → out_of_order b a ≡ false
unfolding out_of_order
out_of_order-swap (IrValueData.const_int c) (IrValueData.const_int d) h = cc
out_of_order-swap (IrValueData.const_int c) (IrValueData.reg s) h = refl
out_of_order-swap (IrValueData.const_int c) _ h = refl
out_of_order-swap (IrValueData.reg r) (IrValueData.reg s) h = ground arith
out_of_order-swap (IrValueData.reg r) (IrValueData.const_int d) h = cc
out_of_order-swap (IrValueData.reg r) _ h = cc
out_of_order-swap _ b h = cc

canon_operands-IsStable :
    (vs ws : List IrValue) → canon_operands vs ≡ some ws → canon_operands ws ≡ none
unfolding canon_operands
canon_operands-IsStable [] ws h = cc
canon_operands-IsStable (a ∷ []) ws h = cc
canon_operands-IsStable (a ∷ b ∷ r) ws h = elim (Bool-cases (out_of_order a.payload b.payload)) [
  | inl out ↦
      subst (λ (us : List IrValue). canon_operands us ≡ none)
        (some-injective (b ∷ a ∷ r) ws (rw out at h))
        (rw (out_of_order-swap a.payload b.payload out))
  | inr fine ↦ cc (rw fine at h)
]

swap_pred-swappable :
    (p : IrCmpPred) → ir_cmp_is_swappable p ≡ true → ir_cmp_is_swappable (ir_cmp_swap_pred p) ≡ true
unfolding ir_cmp_is_swappable ir_cmp_swap_pred
swap_pred-swappable IrCmpPred.eq h = refl
swap_pred-swappable IrCmpPred.ne h = refl
swap_pred-swappable IrCmpPred.gt h = refl
swap_pred-swappable IrCmpPred.lt h = refl
swap_pred-swappable IrCmpPred.ge h = refl
swap_pred-swappable IrCmpPred.le h = refl
swap_pred-swappable _ h = cc

-- The instruction with its operands in order is left as it is.
abbrev IsSettled : IrInst → Type 0
IsSettled i = canon_inst i ≡ (i, false)

commutative-IsSettled :
    (i : IrInst)
    → ir_op_is_commutative i.op ≡ true
    → IsSettled (ir_canon_commutative_two_operand i).0
unfolding canon_inst ir_canon_commutative_two_operand
commutative-IsSettled i op = elim (Option-cases (canon_operands i.operands)) [
  | inl fine ↦ simp (fine, op)
  | inr (ws, moved) ↦ simp (moved, op, canon_operands-IsStable i.operands ws moved)
]

cmp-IsSettled :
    (i : IrInst)
    → ir_op_is_commutative i.op ≡ false
    → is_cmp i.op ≡ true
    → IsSettled (ir_canon_cmp i).0
unfolding canon_inst ir_canon_cmp
cmp-IsSettled i other op = elim (Bool-cases (ir_cmp_is_swappable i.cmp_pred)) [
  | inr fixed ↦ simp (fixed, other, op)
  | inl swappable ↦ elim (Option-cases (canon_operands i.operands)) [
    | inl fine ↦ simp (swappable, fine, other, op)
    | inr (ws, moved) ↦ simp (
      swappable,
      moved,
      other,
      op,
      swap_pred-swappable i.cmp_pred swappable,
      canon_operands-IsStable i.operands ws moved,
    )
  ]
]

canon_inst-IsSettled : (i : IrInst) → IsSettled (canon_inst i).0
canon_inst-IsSettled i = elim (Bool-cases (ir_op_is_commutative i.op)) [
  | inl op ↦ unfold canon_inst in simp op (commutative-IsSettled i op)
  | inr other ↦ elim (Bool-cases (is_cmp i.op)) [
    | inl op ↦ unfold canon_inst in simp (other, op) (cmp-IsSettled i other op)
    | inr left_alone ↦ unfold canon_inst in simp (other, left_alone)
  ]
]

canon_insts-IsSettled :
    (is : List IrInst) → canon_insts (canon_insts is).0 ≡ ((canon_insts is).0, false)
unfolding canon_insts
canon_insts-IsSettled [] = refl
canon_insts-IsSettled (i ∷ is) = rw (canon_inst-IsSettled i, canon_insts-IsSettled is)

canon_blocks-IsSettled :
    (bs : List IrBlock) → canon_blocks (canon_blocks bs).0 ≡ ((canon_blocks bs).0, false)
unfolding canon_blocks
canon_blocks-IsSettled [] = refl
canon_blocks-IsSettled (b ∷ bs) = rw (canon_insts-IsSettled b.insts, canon_blocks-IsSettled bs)

canon_body-IsSettled : (f : IrFunc) → canon_body (canon_body f).0 ≡ ((canon_body f).0, false)
unfolding canon_body ir_func_invalidate_defuse
canon_body-IsSettled f = elim (Bool-cases (canon_blocks f.blocks).1) [
  | inl changed ↦ simp (changed, canon_blocks-IsSettled f.blocks)
  | inr same ↦ simp (same, canon_blocks-IsSettled f.blocks)
]

canon_body-kept :
    (f : IrFunc)
    → ((canon_body f).0.is_prototype ≡ f.is_prototype) × ((canon_body f).0.entry ≡ f.entry)
unfolding canon_body ir_func_invalidate_defuse
canon_body-kept f = elim (Bool-cases (canon_blocks f.blocks).1) [
  | inl changed ↦ simp changed (refl, refl)
  | inr same ↦ simp same (refl, refl)
]

canon_func-IsSettled :
    (f : IrFunc) → ir_canon_func (ir_canon_func f).0 ≡ ((ir_canon_func f).0, false)
unfolding ir_canon_func canon_entered
canon_func-IsSettled f = elim (Bool-cases f.is_prototype) [
  | inl prototype ↦ simp prototype
  | inr has_body ↦ elim (Option-cases f.entry) [
    | inl no_entry ↦ simp (has_body, no_entry)
    | inr (n, entered) ↦
        let (same, there) = canon_body-kept f in
        simp (has_body, entered, same, there, canon_body-IsSettled f)
  ]
]

canon_funcs-IsSettled :
    (fs : List IrFunc) → canon_funcs (canon_funcs fs).0 ≡ ((canon_funcs fs).0, false)
unfolding canon_funcs
canon_funcs-IsSettled [] = refl
canon_funcs-IsSettled (f ∷ fs) = rw (canon_func-IsSettled f, canon_funcs-IsSettled fs)

-- For every module, a second run of the pass reports no change and leaves the module that the first
-- run left: one run reaches the canonical form.
pub canon_run_idem : (m : IrModule) → ir_canon_run (ir_canon_run m).0 ≡ ((ir_canon_run m).0, false)
unfolding ir_canon_run
canon_run_idem m = rw (canon_funcs-IsSettled m.funcs)
