-- ===== src/Dce.antt =====
-- Removal of dead instructions in a function (`ir_func_dce_instructions` of src/middleend/ir_dce.c).
-- Allocation succeeds. The counts that the source keeps in arrays are functions of the register. The
-- flag `changed` is returned with the function. A loop that reads the next pointer before it removes
-- the instruction at hand is a recursion over the list.
pub mod Counts
pub mod Trim
pub mod Sweeps
pub mod Work
pub mod Done
pub mod Flag
pub mod Blocks
pub mod Unmarked
pub mod Ids
pub mod Reach
pub mod Successors
pub mod Ways
pub mod Unreachable
use baa.Base.{
  ℕ, zero, suc, ◌+◌, ◌-◌, Bool, true, false, not, ◌&&◌, ◌||◌, Option, none, some, List, [], ◌∷◌,
  ◌++◌, if◌then◌else◌, ltb, ◌==◌, length,
}
use baa.Ir.Inst.{IrOp, IrValueData, IrValue, IrInst, IrBlock, IrFunc, inst_values, block_insts}
use baa.Ir.Build.{ir_func_invalidate_defuse}
use baa.Ir.Mutate.{ir_block_remove_inst}
use baa.ConstFold.Pass.{find_in_block}

unfoldable pub has_effects : IrOp → Bool
has_effects IrOp.store = true
has_effects IrOp.call = true
has_effects IrOp.cpu_nop = true
has_effects IrOp.br = true
has_effects IrOp.br_cond = true
has_effects IrOp.ret = true
has_effects _ = false

abbrev pub ir_inst_has_side_effects : IrInst → Bool
ir_inst_has_side_effects inst = has_effects inst.op

abbrev pub dest_is_unused : Option ℕ → (ℕ → ℕ) → ℕ → Bool
dest_is_unused none uses max_reg = false
dest_is_unused (some d) uses max_reg = ltb d max_reg && uses d == 0

unfoldable pub ir_inst_is_removable_dead : IrInst → (ℕ → ℕ) → ℕ → Bool
ir_inst_is_removable_dead inst uses max_reg =
    dest_is_unused inst.dest uses max_reg && not (ir_inst_has_side_effects inst)

-- A write to an array.
abbrev pub put {ℓ} : {A : Type ℓ} → (ℕ → A) → ℕ → A → ℕ → A
put f k v n = if n == k then v else f n

abbrev pub count_payload : IrValueData → (ℕ → ℕ) → ℕ → ℕ → ℕ
count_payload (IrValueData.reg r) uses max_reg =
    if ltb r max_reg then put uses r (uses r + 1) else uses
count_payload _ uses max_reg = uses

abbrev pub ir_count_use_from_value : IrValue → (ℕ → ℕ) → ℕ → ℕ → ℕ
ir_count_use_from_value v uses max_reg = count_payload v.payload uses max_reg

unfoldable pub count_values : List IrValue → (ℕ → ℕ) → ℕ → ℕ → ℕ
count_values [] uses max_reg = uses
count_values (v ∷ vs) uses max_reg =
    count_values vs (ir_count_use_from_value v uses max_reg) max_reg

unfoldable pub ir_inst_count_uses : IrInst → (ℕ → ℕ) → ℕ → ℕ → ℕ
unfolding count_values
ir_inst_count_uses inst uses max_reg = count_values (inst_values inst) uses max_reg

abbrev pub decrement_payload : IrValueData → (ℕ → ℕ) → ℕ → ℕ → ℕ
decrement_payload (IrValueData.reg r) uses max_reg =
    if ltb r max_reg && ltb 0 (uses r) then put uses r (uses r - 1) else uses
decrement_payload _ uses max_reg = uses

unfoldable pub decrement_values : List IrValue → (ℕ → ℕ) → ℕ → ℕ → ℕ
decrement_values [] uses max_reg = uses
decrement_values (v ∷ vs) uses max_reg =
    decrement_values vs (decrement_payload v.payload uses max_reg) max_reg

unfoldable pub ir_inst_decrement_operand_uses : IrInst → (ℕ → ℕ) → ℕ → ℕ → ℕ
unfolding decrement_values
ir_inst_decrement_operand_uses inst uses max_reg = decrement_values (inst_values inst) uses max_reg

-- The counts over all instructions.
unfoldable pub count_uses : List IrInst → (ℕ → ℕ) → ℕ → ℕ → ℕ
unfolding ir_inst_count_uses
count_uses [] uses max_reg = uses
count_uses (i ∷ is) uses max_reg = count_uses is (ir_inst_count_uses i uses max_reg) max_reg

-- The first definition of each register stays in the map.
abbrev pub first_def : Option ℕ → Option ℕ → ℕ → (ℕ → Option ℕ) → ℕ → Option ℕ
first_def none id max_reg defs = defs
first_def (some d) id max_reg defs =
    if ltb d max_reg then put defs d (elim (defs d) [ none ↦ id | some n ↦ some n ]) else defs

unfoldable pub def_insts : List IrInst → ℕ → (ℕ → Option ℕ) → ℕ → Option ℕ
def_insts [] max_reg defs = defs
def_insts (i ∷ is) max_reg defs = def_insts is max_reg (first_def i.dest i.id max_reg defs)

-- DCEWorkItem: the block and the instruction, by their ids.
pub record DceWorkItem : Type 0 where
  pub block : ℕ
  pub inst : ℕ

-- Seed the list with a dead instruction whose register is not queued yet.
abbrev pub seed_one :
    IrInst → ℕ → (ℕ → ℕ) → ℕ → List DceWorkItem × (ℕ → Bool) → List DceWorkItem × (ℕ → Bool)
unfolding ir_inst_is_removable_dead
seed_one i block uses max_reg (work, queued) = elim i.dest [
  | none ↦ (work, queued)
  | some d ↦ elim i.id [
    | none ↦ (work, queued)
    | some n ↦
        if not (queued d) && ir_inst_is_removable_dead i uses max_reg
        then (record { block = block; inst = n } ∷ work, put queued d true)
        else (work, queued)
  ]
]

unfoldable pub seed_insts :
    List IrInst → ℕ → (ℕ → ℕ) → ℕ → List DceWorkItem × (ℕ → Bool) → List DceWorkItem × (ℕ → Bool)
unfolding seed_one
seed_insts [] block uses max_reg q = q
seed_insts (i ∷ is) block uses max_reg q =
    seed_insts is block uses max_reg (seed_one i block uses max_reg q)

unfoldable pub seed_blocks :
    List IrBlock → (ℕ → ℕ) → ℕ → List DceWorkItem × (ℕ → Bool) → List DceWorkItem × (ℕ → Bool)
unfolding seed_insts
seed_blocks [] uses max_reg q = q
seed_blocks (b ∷ bs) uses max_reg q =
    seed_blocks bs uses max_reg (seed_insts b.insts b.id uses max_reg q)

pub record DceState : Type 0 where
  pub func : IrFunc
  pub uses : ℕ → ℕ
  pub def_inst : ℕ → Option ℕ
  pub changed : Bool

-- Does the map still name the instruction n as the definition of its register?
abbrev pub is_defined_by : Option ℕ → (ℕ → Option ℕ) → ℕ → Bool
is_defined_by none defs n = false
is_defined_by (some d) defs n = elim (defs d) [ none ↦ false | some m ↦ m == n ]

abbrev pub forget : Option ℕ → (ℕ → Option ℕ) → ℕ → Option ℕ
forget none defs = defs
forget (some d) defs = put defs d none

-- The instruction of an item, where it is still there, is removed unless it has become used.
unfoldable pub process_found : ℕ → DceWorkItem → Option IrInst → DceState → DceState
unfolding ir_inst_is_removable_dead ir_inst_decrement_operand_uses ir_block_remove_inst
process_found max_reg item none s = s
process_found max_reg item (some inst) s =
    if is_defined_by inst.dest s.def_inst item.inst && ir_inst_is_removable_dead inst s.uses max_reg
    then record {
      func = ir_block_remove_inst item.block item.inst s.func;
      uses = ir_inst_decrement_operand_uses inst s.uses max_reg;
      def_inst = forget inst.dest s.def_inst;
      changed = true;
    }
    else s

-- One item of the work list: the instruction is read where it stands now.
unfoldable pub process_item : ℕ → DceWorkItem → DceState → DceState
unfolding find_in_block process_found
process_item max_reg item s =
    process_found max_reg item (find_in_block item.block item.inst s.func.blocks) s

-- The list is a stack and nothing is pushed any more.
unfoldable pub process_work : ℕ → List DceWorkItem → DceState → DceState
unfolding process_item
process_work max_reg [] s = s
process_work max_reg (item ∷ rest) s = process_work max_reg rest (process_item max_reg item s)

-- A sweep removes every instruction that is dead by the counts.
unfoldable pub sweep_insts : (ℕ → ℕ) → ℕ → List IrInst → List IrInst
sweep_insts uses max_reg [] = []
sweep_insts uses max_reg (i ∷ is) =
    if ir_inst_is_removable_dead i uses max_reg
    then sweep_insts uses max_reg is
    else i ∷ sweep_insts uses max_reg is

unfoldable pub sweep_blocks : (ℕ → ℕ) → ℕ → List IrBlock → List IrBlock
unfolding sweep_insts
sweep_blocks uses max_reg [] = []
sweep_blocks uses max_reg (b ∷ bs) =
    record b { insts = sweep_insts uses max_reg b.insts } ∷ sweep_blocks uses max_reg bs

-- How many instructions the sweep removes; each removal starts a new epoch of the function.
unfoldable pub dead_count : (ℕ → ℕ) → ℕ → List IrInst → ℕ
dead_count uses max_reg [] = 0
dead_count uses max_reg (i ∷ is) =
    (if ir_inst_is_removable_dead i uses max_reg then 1 else 0) + dead_count uses max_reg is

unfoldable pub invalidate_times : ℕ → IrFunc → IrFunc
invalidate_times zero f = f
invalidate_times (suc n) f = invalidate_times n (ir_func_invalidate_defuse f)

-- A round of the second sweep, and whether it made progress.
unfoldable pub sweep : ℕ → IrFunc → IrFunc × Bool
unfolding count_uses sweep_blocks dead_count invalidate_times
sweep max_reg f =
    let uses = count_uses (block_insts f.blocks) (λ _. 0) max_reg in
    let removed = dead_count uses max_reg (block_insts f.blocks) in
    (
      invalidate_times removed (record f { blocks = sweep_blocks uses max_reg f.blocks }),
      ltb 0 removed,
    )

-- Sweeps until there is no progress. The first number bounds the rounds.
unfoldable pub sweeps : ℕ → ℕ → IrFunc → Bool → IrFunc × Bool
sweeps zero max_reg f changed = (f, changed)
sweeps (suc fuel) max_reg f changed =
    let rest = sweeps fuel max_reg (sweep max_reg f).0 true in
    if (sweep max_reg f).1 then rest else ((sweep max_reg f).0, changed)

-- The work list, then sweeps: each but the last removes an instruction at least.
unfoldable pub dce_body : ℕ → IrFunc → IrFunc × Bool
unfolding count_uses def_insts seed_blocks process_work sweeps
dce_body max_reg f =
    let uses = count_uses (block_insts f.blocks) (λ _. 0) max_reg in
    let (work, queued) = seed_blocks f.blocks uses max_reg ([], λ _. false) in
    let s = process_work max_reg work (record {
      func = f;
      uses = uses;
      def_inst = def_insts (block_insts f.blocks) max_reg (λ _. none);
      changed = false;
    }) in
    sweeps (length (block_insts s.func.blocks) + 1) max_reg s.func s.changed

abbrev pub entered_body : Option ℕ → IrFunc → IrFunc × Bool
unfolding dce_body
entered_body none f = (f, false)
entered_body (some _) f = if f.next_reg == 0 then (f, false) else dce_body f.next_reg f

unfoldable pub ir_func_dce_instructions : IrFunc → IrFunc × Bool
unfolding entered_body
ir_func_dce_instructions f = if f.is_prototype then (f, false) else entered_body f.entry f
