-- ===== src/Dce/Ways.antt =====
-- The marking follows the terminators (src/middleend/ir_dce.c with src/middleend/ir_analysis.c).
use baa.Base.{
  ℕ, ◌<◌, ◌≡◌, refl, sym, ◌∙◌, ap, true, false, List, [], ◌∷◌, inl, inr, Bool-cases, ◌==◌,
}
use baa.Ir.Inst.{IrBlock, IrFunc}
use baa.RegAlloc.Convention.{one_of}
use baa.Cfg.Edges.{clear_all, rebuild_edges, ir_func_rebuild_preds}
use baa.Cfg.Leads.{Leads}
use baa.Dce.Blocks.{succs_of}
use baa.Dce.Ids.{block_ids, rebuild_preds-ids, clear_all-ids}
use baa.Dce.Reach.{Reach}
use baa.Dce.Successors.{
  DistinctIds, block_targets, rebuild_edges-succs, clear_all-succs, mark_entry-succs,
  block_targets-Leads, Leads-block_targets, Leads-inside,
}

-- The block can be reached from the entry by way of blocks that end with a jump or branch to the next.
pub data Way (blocks : List IrBlock) (entry : ℕ) : ℕ → Type 0 where
  start : Way blocks entry entry
  next : (b s : ℕ) → Way blocks entry b → Leads blocks b s → Way blocks entry s

succs_of-inside :
    (b s : ℕ) (bs : List IrBlock) → one_of s (succs_of b bs) ≡ true → one_of b (block_ids bs) ≡ true
succs_of-inside b s [] h = cc
succs_of-inside b s (c ∷ cs) h = elim (Bool-cases (c.id == b)) [
  | inl here ↦ rw here refl
  | inr other ↦ rw other (succs_of-inside b s cs (rw other at h))
]

module _ (f : IrFunc) (entry max_id : ℕ) (defined : f.is_prototype ≡ false)
    (distinct : DistinctIds f.blocks) where
  abbrev g : IrFunc
  g = ir_func_rebuild_preds f

  rebuilt-succs :
      (b : ℕ)
      → one_of b (block_ids f.blocks) ≡ true
      → succs_of b g.blocks ≡ block_targets b f.blocks
  unfolding ir_func_rebuild_preds
  rebuilt-succs b there = rw defined (
      mark_entry-succs b f.entry (rebuild_edges f.blocks (clear_all f.blocks))
      ∙ rebuild_edges-succs b f.blocks (clear_all f.blocks) distinct there
          (ap (one_of b) (clear_all-ids f.blocks) ∙ there) (clear_all-succs b f.blocks))

  pub Reach-Way : {m : ℕ} → Reach max_id g.blocks entry m → Way f.blocks entry m
  Reach-Way Reach.start = Way.start
  Reach-Way (Reach.next b s reach edge below) =
      let there = ap (one_of b) (sym (rebuild_preds-ids f)) ∙ succs_of-inside b s g.blocks edge in
      Way.next b s (Reach-Way reach)
        (block_targets-Leads b s f.blocks (ap (one_of s) (sym (rebuilt-succs b there)) ∙ edge))

  pub Way-Reach :
      ((m : ℕ) → one_of m (block_ids f.blocks) ≡ true → m < max_id)
      → {m : ℕ} → one_of m (block_ids f.blocks) ≡ true
      → Way f.blocks entry m
      → Reach max_id g.blocks entry m
  Way-Reach bound inside Way.start = Reach.start
  Way-Reach bound inside (Way.next b s way leads) =
      let there = Leads-inside b s f.blocks leads in
      Reach.next b s (Way-Reach bound there way)
        (ap (one_of s) (rebuilt-succs b there) ∙ Leads-block_targets b s f.blocks distinct leads)
        (bound s inside)
