-- ===== src/Ir/Mutate.antt =====
-- Edits of a block (src/middleend/ir_mutate.c, `ir_block_append` and `ir_block_add_succ` of
-- src/middleend/ir_containers.c) and their effect on the function around it.
use baa.Base.{
  ℕ, ◌+◌, Bool, true, false, Option, none, some, List, [], ◌∷◌, ◌++◌, if◌then◌else◌, ◌==◌, ltb,
  length,
}
use baa.Ir.Inst.{IrOp, IrInst, IrBlock, IrFunc}
use baa.Ir.Build.{ir_func_invalidate_defuse, is_phi}

-- Does the optional id name this number?
abbrev pub is_id : Option ℕ → ℕ → Bool
is_id none n = false
is_id (some m) n = m == n

-- The block with this id is edited, the others stay.
unfoldable pub edit_block : ℕ → (IrBlock → IrBlock) → List IrBlock → List IrBlock
edit_block id change [] = []
edit_block id change (b ∷ bs) = if b.id == id then change b ∷ bs else b ∷ edit_block id change bs

-- A first insertion gives the instruction its id in the function.
unfoldable pub number_inst : IrFunc → IrInst → IrFunc × IrInst
number_inst f inst = elim inst.id [
  | none ↦
      (record f { next_inst_id = f.next_inst_id + 1 }, record inst { id = some f.next_inst_id })
  | some n ↦ (f, inst)
]

unfoldable pub ir_block_append : ℕ → IrInst → IrFunc → IrFunc
unfolding ir_func_invalidate_defuse number_inst edit_block
ir_block_append block inst f =
    let (f', inst') = number_inst (ir_func_invalidate_defuse f) inst in
    record f' {
      blocks = edit_block block (λ b. record b { insts = b.insts ++ inst' ∷ [] }) f'.blocks;
    }

-- The list with `inst` before the instruction `before`.
unfoldable pub insert_before : ℕ → IrInst → List IrInst → List IrInst
insert_before before inst [] = []
insert_before before inst (i ∷ rest) =
    if is_id i.id before then inst ∷ i ∷ rest else i ∷ insert_before before inst rest

-- With no `before` the instruction goes to the end of the block.
unfoldable pub ir_block_insert_before : ℕ → Option ℕ → IrInst → IrFunc → IrFunc
unfolding ir_func_invalidate_defuse number_inst edit_block insert_before ir_block_append
ir_block_insert_before block before inst f =
    let (f', inst') = number_inst (ir_func_invalidate_defuse f) inst in
    elim before [
      | none ↦ ir_block_append block inst' f'
      | some n ↦ record f' {
        blocks =
            edit_block block (λ b. record b { insts = insert_before n inst' b.insts }) f'.blocks;
      }
    ]

-- Unlink the instruction with this id.
unfoldable pub unlink : ℕ → List IrInst → List IrInst
unlink id [] = []
unlink id (i ∷ rest) = if is_id i.id id then rest else i ∷ unlink id rest

unfoldable pub ir_block_remove_inst : ℕ → ℕ → IrFunc → IrFunc
unfolding ir_func_invalidate_defuse edit_block unlink
ir_block_remove_inst block id f =
    let f' = ir_func_invalidate_defuse f in
    record f' { blocks = edit_block block (λ b. record b { insts = unlink id b.insts }) f'.blocks }

-- The first instruction that is no phi, where a new phi goes in front.
unfoldable pub first_non_phi : List IrInst → Option ℕ
first_non_phi [] = none
first_non_phi (i ∷ rest) = if is_phi i.op then first_non_phi rest else i.id

-- The instructions of the block with this id.
unfoldable pub insts_of : ℕ → List IrBlock → List IrInst
insts_of block [] = []
insts_of block (b ∷ rest) = if b.id == block then b.insts else insts_of block rest

unfoldable pub ir_block_insert_phi : ℕ → IrInst → IrFunc → IrFunc
unfolding ir_block_insert_before first_non_phi insts_of
ir_block_insert_phi block phi f =
    ir_block_insert_before block (first_non_phi (insts_of block f.blocks)) phi f

-- Is there a block with this id, and a successor slot left in it?
unfoldable pub has_room : ℕ → List IrBlock → Bool
has_room block [] = false
has_room block (b ∷ rest) = if b.id == block then ltb (length b.succs) 2 else has_room block rest

-- At most two successors; the successor learns of its predecessor.
unfoldable pub ir_block_add_succ : ℕ → ℕ → List IrBlock → List IrBlock
unfolding edit_block has_room
ir_block_add_succ block succ bs =
    if has_room block bs
    then edit_block succ (λ b. record b { preds = b.preds ++ block ∷ [] })
        (edit_block block (λ b. record b { succs = b.succs ++ succ ∷ [] }) bs)
    else bs

abbrev pub is_terminator : IrOp → Bool
is_terminator IrOp.br = true
is_terminator IrOp.br_cond = true
is_terminator IrOp.ret = true
is_terminator _ = false

abbrev pub last? : List IrInst → Option IrInst
last? [] = none
last? (i ∷ []) = some i
last? (i ∷ j ∷ rest) = last? (j ∷ rest)

unfoldable pub ir_block_is_terminated : IrBlock → Bool
ir_block_is_terminated b = elim (last? b.insts) [ none ↦ false | some i ↦ is_terminator i.op ]
