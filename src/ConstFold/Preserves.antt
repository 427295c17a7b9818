-- ===== src/ConstFold/Preserves.antt =====
-- The constant-folding pass (src/middleend/ir_constfold.c) over a module: its flag tells of changes.
use baa.Base.{
  ℕ, ◌≡◌, refl, ap₂, ◌∙◌, inl, inr, false, List, [], ◌∷◌, Bool-cases, ||-neither, Option-cases,
}
use baa.Ir.Inst.{IrFunc, IrModule}
use baa.ConstFold.{ir_try_fold_inst}
use baa.ConstFold.Pass.{
  find_in_block, fold_at, fold_all, ir_constfold_func, constfold_funcs, ir_constfold_run,
  block_inst_ids,
}
use baa.DefUse.{IrDefUse, ir_defuse_build}

fold_at_unchanged :
    (du : IrDefUse) (block_id n : ℕ) (f : IrFunc)
    → (fold_at du block_id n f).1 ≡ false
    → (fold_at du block_id n f).0 ≡ f
unfolding fold_at
fold_at_unchanged du block_id n f h = elim (Option-cases (find_in_block block_id n f.blocks)) [
  | inl missing ↦ rw (missing, fold_at)
  | inr (i, found) ↦ elim (Option-cases (ir_try_fold_inst i)) [
    | inl stays ↦ rw (found, fold_at, stays)
    | inr (fd, folded) ↦ cc (rw (found, fold_at, folded) at h)
  ]
]

fold_all_unchanged :
    (du : IrDefUse) (items : List (ℕ × ℕ)) (f : IrFunc)
    → (fold_all du items f).1 ≡ false
    → (fold_all du items f).0 ≡ f
unfolding fold_all
fold_all_unchanged du [] f h = refl
fold_all_unchanged du ((block_id, n) ∷ rest) f h =
    let (first, others) =
      ||-neither (fold_at du block_id n f).1 (fold_all du rest (fold_at du block_id n f).0).1 h in
    fold_all_unchanged du rest (fold_at du block_id n f).0 others
    ∙ fold_at_unchanged du block_id n f first

func_unchanged : (f : IrFunc) → (ir_constfold_func f).1 ≡ false → (ir_constfold_func f).0 ≡ f
unfolding ir_constfold_func
func_unchanged f h = elim (Bool-cases f.is_prototype) [
  | inl prototype ↦ simp prototype
  | inr body ↦
      simp body
        (fold_all_unchanged (ir_defuse_build f) (block_inst_ids f.blocks) f (simp body at h))
]

funcs_unchanged : (fs : List IrFunc) → (constfold_funcs fs).1 ≡ false → (constfold_funcs fs).0 ≡ fs
unfolding constfold_funcs
funcs_unchanged [] h = refl
funcs_unchanged (f ∷ fs) h =
    let (first, others) = ||-neither (ir_constfold_func f).1 (constfold_funcs fs).1 h in
    ap₂ ◌∷◌ (func_unchanged f first) (funcs_unchanged fs others)

-- Where the pass over a module reports no change, the module is as it was.
pub constfold_run_unchanged :
    (m : IrModule) → (ir_constfold_run m).1 ≡ false → (ir_constfold_run m).0 ≡ m
unfolding ir_constfold_run
constfold_run_unchanged m h = λ i. record { funcs = funcs_unchanged m.funcs h i }
