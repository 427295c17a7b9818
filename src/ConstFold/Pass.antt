-- ===== src/ConstFold/Pass.antt =====
-- The constant-folding pass over a function and a module (`ir_constfold_func`, `ir_constfold_run` and
-- the replacement of uses in src/middleend/ir_constfold.c). Allocation succeeds, so the chains of
-- uses are there and the full scan that the source keeps for a failed allocation is not reached.
-- The flag `changed` is returned with the function.
use baa.Base.{
  ℕ, Bool, true, false, ◌||◌, Option, none, some, List, [], ◌∷◌, ◌++◌, if◌then◌else◌, ltb, ◌==◌,
}
use baa.Ir.Types.{IrType}
use baa.Ir.Inst.{IrInst, IrValue, IrBlock, IrFunc, IrModule}
use baa.Ir.Mutate.{is_id, ir_block_remove_inst}
use baa.DefUse.{Slot, IrDefUse, reads, ir_defuse_build, edit_slot}
use baa.ConstFold.{Folded, ir_try_fold_inst, new_const_for_type}

abbrev pub or_type : Option IrType → Option IrType → Option IrType
or_type none t = t
or_type (some u) t = some u

-- A use of the folded register becomes the constant, at the type of the use where it has one.
unfoldable pub replace_use : Folded → IrValue → IrValue
replace_use fd v =
    if reads fd.reg v.payload then new_const_for_type fd.value (or_type v.type fd.type) else v

unfoldable pub replace_slots : Folded → List Slot → List IrBlock → List IrBlock
unfolding replace_use edit_slot
replace_slots fd [] bs = bs
replace_slots fd (u ∷ us) bs = replace_slots fd us (edit_slot u (replace_use fd) bs)

unfoldable pub ir_func_replace_reg_uses_defuse : IrDefUse → Folded → IrFunc → IrFunc
unfolding replace_slots
ir_func_replace_reg_uses_defuse du fd f =
    if ltb fd.reg du.max_reg
    then record f { blocks = replace_slots fd (du.uses_by_reg fd.reg) f.blocks }
    else f

-- The instruction with an id, as it stands now.
unfoldable pub find_inst : ℕ → List IrInst → Option IrInst
find_inst n [] = none
find_inst n (i ∷ is) = if is_id i.id n then some i else find_inst n is

unfoldable pub find_in_block : ℕ → ℕ → List IrBlock → Option IrInst
unfolding find_inst
find_in_block block n [] = none
find_in_block block n (b ∷ bs) =
    if b.id == block then find_inst n b.insts else find_in_block block n bs

-- The body of the loop: fold the instruction, replace the uses of its register, unlink it.
unfoldable pub fold_at : IrDefUse → ℕ → ℕ → IrFunc → IrFunc × Bool
unfolding find_in_block ir_func_replace_reg_uses_defuse ir_try_fold_inst
fold_at du block n f = elim (find_in_block block n f.blocks) [
  | none ↦ (f, false)
  | some inst ↦ elim (ir_try_fold_inst inst) [
    | none ↦ (f, false)
    | some fd ↦ (ir_block_remove_inst block n (ir_func_replace_reg_uses_defuse du fd f), true)
  ]
]

-- The loop reads the next pointer before it removes an instruction, and the pass removes no other:
-- it visits every instruction that stood in the function at the start, in order.
abbrev pub inst_ids : ℕ → List IrInst → List (ℕ × ℕ)
inst_ids block [] = []
inst_ids block (i ∷ is) = elim i.id [
  | none ↦ inst_ids block is
  | some n ↦ (block, n) ∷ inst_ids block is
]

abbrev pub block_inst_ids : List IrBlock → List (ℕ × ℕ)
block_inst_ids [] = []
block_inst_ids (b ∷ bs) = inst_ids b.id b.insts ++ block_inst_ids bs

unfoldable pub fold_all : IrDefUse → List (ℕ × ℕ) → IrFunc → IrFunc × Bool
unfolding fold_at
fold_all du [] f = (f, false)
fold_all du ((block, n) ∷ rest) f =
    let (f', folded) = fold_at du block n f in
    let (f'', more) = fold_all du rest f' in (f'', folded || more)

unfoldable pub ir_constfold_func : IrFunc → IrFunc × Bool
unfolding fold_all ir_defuse_build
ir_constfold_func f =
    if f.is_prototype then (f, false) else fold_all (ir_defuse_build f) (block_inst_ids f.blocks) f

unfoldable pub constfold_funcs : List IrFunc → List IrFunc × Bool
unfolding ir_constfold_func
constfold_funcs [] = ([], false)
constfold_funcs (f ∷ fs) =
    let (f', changed) = ir_constfold_func f in
    let (fs', more) = constfold_funcs fs in (f' ∷ fs', changed || more)

unfoldable pub ir_constfold_run : IrModule → IrModule × Bool
unfolding constfold_funcs
ir_constfold_run m =
    let (fs, changed) = constfold_funcs m.funcs in (record m { funcs = fs }, changed)
