-- ===== src/Dce/Ids.antt =====
-- The edges of a function's blocks change no id (src/middleend/ir_analysis.c).
use baa.Base.{
  ℕ, ◌≡◌, refl, ◌∙◌, ap, inl, inr, Option, none, some, List, [], ◌∷◌, foldl, ◌==◌, Bool-cases,
}
use baa.Ir.Inst.{IrBlock, IrFunc}
use baa.Ir.Mutate.{edit_block, ir_block_add_succ, has_room}
use baa.Cfg.{last_inst}
use baa.Cfg.Edges.{clear_all, targets, rebuild_edges, mark_entry, ir_func_rebuild_preds}

abbrev pub block_ids : List IrBlock → List ℕ
block_ids [] = []
block_ids (b ∷ bs) = b.id ∷ block_ids bs

pub edit_block-ids :
    (k : ℕ) (change : IrBlock → IrBlock) (bs : List IrBlock)
    → ((b : IrBlock) → (change b).id ≡ b.id)
    → block_ids (edit_block k change bs) ≡ block_ids bs
unfolding edit_block
edit_block-ids k change [] same = refl
edit_block-ids k change (b ∷ bs) same = elim (Bool-cases (b.id == k)) [
  | inl here ↦ rw here (ap (λ n. n ∷ block_ids bs) (same b))
  | inr other ↦ rw other (ap (◌∷◌ b.id) (edit_block-ids k change bs same))
]

pub add_succ-ids :
    (block succ : ℕ) (bs : List IrBlock)
    → block_ids (ir_block_add_succ block succ bs) ≡ block_ids bs
unfolding ir_block_add_succ
add_succ-ids block succ bs = elim (Bool-cases (has_room block bs)) [
  | inl room ↦ rw room (
      edit_block-ids succ _ (edit_block block _ bs) (λ b. refl)
      ∙ edit_block-ids block _ bs (λ b. refl))
  | inr full ↦ rw full refl
]

pub add_succs-ids :
    (block : ℕ) (ts : List ℕ) (bs : List IrBlock)
    → block_ids (foldl (λ all t. ir_block_add_succ block t all) bs ts) ≡ block_ids bs
add_succs-ids block [] bs = refl
add_succs-ids block (t ∷ ts) bs =
    add_succs-ids block ts (ir_block_add_succ block t bs) ∙ add_succ-ids block t bs

rebuild_edges-ids : (walk all : List IrBlock) → block_ids (rebuild_edges walk all) ≡ block_ids all
unfolding rebuild_edges
rebuild_edges-ids [] all = refl
rebuild_edges-ids (b ∷ bs) all =
    let ts = targets (last_inst b.insts) in
    rebuild_edges-ids bs (foldl (λ bs' t. ir_block_add_succ b.id t bs') all ts)
    ∙ add_succs-ids b.id ts all

pub clear_all-ids : (bs : List IrBlock) → block_ids (clear_all bs) ≡ block_ids bs
clear_all-ids [] = refl
clear_all-ids (b ∷ bs) = ap (◌∷◌ b.id) (clear_all-ids bs)

mark_entry-ids : (e : Option ℕ) (bs : List IrBlock) → block_ids (mark_entry e bs) ≡ block_ids bs
mark_entry-ids none bs = refl
mark_entry-ids (some e) bs = edit_block-ids e _ bs (λ b. refl)

pub rebuild_preds-ids :
    (f : IrFunc) → block_ids (ir_func_rebuild_preds f).blocks ≡ block_ids f.blocks
unfolding ir_func_rebuild_preds
rebuild_preds-ids f = elim (Bool-cases f.is_prototype) [
  | inl prototype ↦ rw prototype refl
  | inr defined ↦ rw defined (
      mark_entry-ids f.entry (rebuild_edges f.blocks (clear_all f.blocks))
      ∙ (rebuild_edges-ids f.blocks (clear_all f.blocks) ∙ clear_all-ids f.blocks))
]
