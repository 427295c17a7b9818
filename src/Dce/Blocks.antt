-- ===== src/Dce/Blocks.antt =====
-- The removal of unreachable blocks and the whole pass (`ir_func_remove_unreachable_blocks` and
-- `ir_dce_run` of src/middleend/ir_dce.c). The stack of the marking holds ids.
use baa.Base.{
  ℕ, zero, suc, ◌+◌, Bool, true, false, not, ◌&&◌, ◌||◌, Option, none, some, List, [], ◌∷◌, foldl,
  if◌then◌else◌, ◌==◌, ltb,
}
use baa.Ir.Inst.{IrPhiEntry, IrInst, IrBlock, IrFunc, IrModule}
use baa.Ir.Build.{is_phi}
use baa.RegAlloc.Step.{write}
use baa.Cfg.Edges.{ir_func_rebuild_preds}
use baa.Dce.{ir_func_dce_instructions}

abbrev pub more_than : ℕ → ℕ → ℕ
more_than n best = if ltb n (best + 1) then best else n

-- One more than the greatest id.
abbrev pub ir_func_max_block_id : List IrBlock → ℕ
ir_func_max_block_id [] = 0
ir_func_max_block_id (b ∷ bs) = more_than (b.id + 1) (ir_func_max_block_id bs)

abbrev pub succs_of : ℕ → List IrBlock → List ℕ
succs_of n [] = []
succs_of n (b ∷ bs) = if b.id == n then b.succs else succs_of n bs

-- A successor that is not marked is marked and put on the stack.
unfoldable pub push_succ : ℕ → (ℕ → Bool) × List ℕ → ℕ → (ℕ → Bool) × List ℕ
push_succ max_id (reachable, stack) s =
    if ltb s max_id && not (reachable s)
    then (write reachable s true, s ∷ stack)
    else (reachable, stack)

-- The loop over the stack. The first number bounds the rounds.
unfoldable pub mark_loop : ℕ → ℕ → List IrBlock → (ℕ → Bool) × List ℕ → (ℕ → Bool) × List ℕ
unfolding push_succ
mark_loop zero max_id blocks s = s
mark_loop (suc fuel) max_id blocks (reachable, []) = (reachable, [])
mark_loop (suc fuel) max_id blocks (reachable, b ∷ stack) =
    mark_loop fuel max_id blocks (foldl (push_succ max_id) (reachable, stack) (succs_of b blocks))

unfoldable pub ir_mark_reachable : ℕ → List IrBlock → ℕ → ℕ → Bool
unfolding mark_loop
ir_mark_reachable max_id blocks entry =
    if ltb entry max_id
    then (mark_loop max_id max_id blocks (write (λ _. false) entry true, entry ∷ [])).0
    else (λ _. false)

abbrev pub keep_entries : (ℕ → Bool) → ℕ → List IrPhiEntry → List IrPhiEntry
keep_entries reachable max_id [] = []
keep_entries reachable max_id (e ∷ es) =
    if ltb e.block max_id && reachable e.block
    then e ∷ keep_entries reachable max_id es
    else keep_entries reachable max_id es

abbrev pub prune_insts : (ℕ → Bool) → ℕ → List IrInst → List IrInst
prune_insts reachable max_id [] = []
prune_insts reachable max_id (i ∷ is) =
    (if is_phi i.op
      then record i { phi_entries = keep_entries reachable max_id i.phi_entries }
      else i)
    ∷ prune_insts reachable max_id is

abbrev pub is_marked : (ℕ → Bool) → ℕ → IrBlock → Bool
is_marked reachable max_id b = ltb b.id max_id && reachable b.id

unfoldable pub prune_phis : (ℕ → Bool) → ℕ → List IrBlock → List IrBlock
prune_phis reachable max_id [] = []
prune_phis reachable max_id (b ∷ bs) =
    (if is_marked reachable max_id b
      then record b { insts = prune_insts reachable max_id b.insts }
      else b)
    ∷ prune_phis reachable max_id bs

-- The blocks that stay, and whether one was unlinked.
unfoldable pub unlink_blocks : (ℕ → Bool) → ℕ → ℕ → List IrBlock → List IrBlock × Bool
unlink_blocks reachable max_id entry [] = ([], false)
unlink_blocks reachable max_id entry (b ∷ bs) =
    let (kept, changed) = unlink_blocks reachable max_id entry bs in
    if b.id == entry || is_marked reachable max_id b then (b ∷ kept, changed) else (kept, true)

abbrev pub entry_left : Option ℕ → List IrBlock → Option ℕ
entry_left entry [] = none
entry_left entry (b ∷ bs) = entry

unfoldable pub remove_unmarked : ℕ → IrFunc → IrFunc × Bool
unfolding ir_mark_reachable prune_phis unlink_blocks
remove_unmarked entry f =
    let max_id = ir_func_max_block_id f.blocks in
    let reachable = ir_mark_reachable max_id f.blocks entry in
    let (kept, changed) =
      unlink_blocks reachable max_id entry (prune_phis reachable max_id f.blocks) in
    let f' = record f { blocks = kept; entry = entry_left f.entry kept } in
    (if changed then ir_func_rebuild_preds f' else f', changed)

abbrev pub unreachable_body : Option ℕ → IrFunc → IrFunc × Bool
unfolding remove_unmarked
unreachable_body none f = (f, false)
unreachable_body (some entry) f =
    let g = ir_func_rebuild_preds f in
    if ir_func_max_block_id g.blocks == 0 then (g, false) else remove_unmarked entry g

unfoldable pub ir_func_remove_unreachable_blocks : IrFunc → IrFunc × Bool
unfolding unreachable_body
ir_func_remove_unreachable_blocks f =
    if f.is_prototype then (f, false) else unreachable_body f.entry f

abbrev pub dce_funcs : List IrFunc → List IrFunc × Bool
dce_funcs [] = ([], false)
dce_funcs (f ∷ fs) =
    let (g, cut) = ir_func_remove_unreachable_blocks f in
    let (h, trimmed) = ir_func_dce_instructions g in
    let (rest, changed) = dce_funcs fs in (h ∷ rest, (cut || trimmed) || changed)

unfoldable pub ir_dce_run : IrModule → IrModule × Bool
ir_dce_run m = (record m { funcs = (dce_funcs m.funcs).0 }, (dce_funcs m.funcs).1)
