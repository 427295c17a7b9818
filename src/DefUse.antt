-- ===== src/DefUse.antt =====
-- Chains of uses and definitions of registers (src/middleend/ir_defuse.c). A use's slot, the address
-- of an operand in the source, is the id of the instruction and the place in it. The arrays indexed
-- by register are functions.
pub mod Complete
use mathlib.Core.Option
use mathlib.Core.List.{reverse}
use Prim.Native.Nat.{max}
use baa.Base.{
  ℕ, zero, suc, ◌+◌, Bool, false, ◌&&◌, ◌||◌, Option, none, some, List, [], ◌∷◌, ◌++◌,
  if◌then◌else◌, ltb, ◌==◌,
}
use baa.Ir.Inst.{
  IrOp, IrValueData, IrValue, IrInst, IrBlock, IrParam, IrFunc, block_insts, inst_values,
  phi_values,
}

pub data Place : Type 0 where
  operand : ℕ → Place
  callee : Place
  call_arg : ℕ → Place
  phi_value : ℕ → Place

pub record Slot : Type 0 where
  pub inst : Option ℕ
  pub place : Place

abbrev pub reads : ℕ → IrValueData → Bool
reads r (IrValueData.reg n) = n == r
reads r _ = false

-- The slots of a list of values that read a register, the first value at place `mk k`.
unfoldable pub list_uses : ℕ → Option ℕ → (ℕ → Place) → ℕ → List IrValue → List Slot
list_uses r id mk k [] = []
list_uses r id mk k (v ∷ vs) =
    if reads r v.payload
    then record { inst = id; place = mk k } ∷ list_uses r id mk (suc k) vs
    else list_uses r id mk (suc k) vs

unfoldable pub callee_uses : ℕ → Option ℕ → Option IrValue → List Slot
callee_uses r id none = []
callee_uses r id (some v) =
    if reads r v.payload then record { inst = id; place = Place.callee } ∷ [] else []

unfoldable pub op_uses : ℕ → IrOp → IrInst → List Slot
unfolding list_uses callee_uses
op_uses r IrOp.call i =
    callee_uses r i.id i.call_callee ++ list_uses r i.id Place.call_arg 0 i.call_args
op_uses r IrOp.phi i = list_uses r i.id Place.phi_value 0 (phi_values i.phi_entries)
op_uses r _ i = []

unfoldable pub inst_uses : ℕ → IrInst → List Slot
unfolding list_uses op_uses
inst_uses r i = list_uses r i.id Place.operand 0 i.operands ++ op_uses r i.op i

unfoldable pub insts_uses : ℕ → List IrInst → List Slot
unfolding inst_uses
insts_uses r [] = []
insts_uses r (i ∷ is) = inst_uses r i ++ insts_uses r is

-- The largest register number seen, plus one.
abbrev pub value_bound : IrValueData → ℕ
value_bound (IrValueData.reg n) = n + 1
value_bound _ = 0

abbrev pub values_bound : List IrValue → ℕ
values_bound [] = 0
values_bound (v ∷ vs) = max (value_bound v.payload) (values_bound vs)

abbrev pub dest_bound : Option ℕ → ℕ
dest_bound none = 0
dest_bound (some d) = d + 1

abbrev pub insts_bound : List IrInst → ℕ
insts_bound [] = 0
insts_bound (i ∷ is) = max (max (dest_bound i.dest) (values_bound (inst_values i))) (insts_bound is)

abbrev pub params_bound : List IrParam → ℕ
params_bound [] = 0
params_bound (p ∷ ps) = max (p.reg + 1) (params_bound ps)

unfoldable pub ir_scan_max_reg : IrFunc → ℕ
ir_scan_max_reg f =
    max (max f.next_reg (params_bound f.params)) (insts_bound (block_insts f.blocks))

abbrev pub defines : ℕ → Option ℕ → Bool
defines r none = false
defines r (some d) = d == r

-- The last instruction that defines a register.
unfoldable pub last_def : ℕ → List IrInst → Option IrInst
last_def r [] = none
last_def r (i ∷ is) = elim (last_def r is) [
  | some j ↦ some j
  | none ↦ if defines r i.dest then some i else none
]

abbrev pub is_param : ℕ → List IrParam → Bool
is_param r [] = false
is_param r (p ∷ ps) = p.reg == r || is_param r ps

abbrev pub defined_in : Option ℕ → List IrInst → Bool
defined_in none is = false
defined_in (some d) [] = false
defined_in (some d) (i ∷ is) = defines d i.dest || defined_in (some d) is

-- Do two instructions define one register?
unfoldable pub defined_twice : List IrInst → Bool
defined_twice [] = false
defined_twice (i ∷ is) = defined_in i.dest is || defined_twice is

pub record IrDefUse : Type 0 where
  pub built_epoch : ℕ
  pub max_reg : ℕ
  pub def_inst_by_reg : ℕ → Option IrInst
  pub def_is_param : ℕ → Bool
  pub uses_by_reg : ℕ → List Slot
  pub has_duplicate_defs : Bool

-- A use is put in front of its register's chain, so a chain runs from the last use to the first.
unfoldable pub ir_defuse_build : IrFunc → IrDefUse
unfolding insts_uses ir_scan_max_reg last_def defined_twice
ir_defuse_build f =
    let insts = block_insts f.blocks in
    let max_reg = ir_scan_max_reg f in
    record {
      built_epoch = f.ir_epoch;
      max_reg = max_reg;
      def_inst_by_reg = λ r. if ltb r max_reg then last_def r insts else none;
      def_is_param = λ r. ltb r max_reg && is_param r f.params;
      uses_by_reg = λ r. if ltb r max_reg then reverse (insts_uses r insts) else [];
      has_duplicate_defs = defined_twice insts;
    }

abbrev pub edit_at {ℓ} : {A : Type ℓ} → ℕ → (A → A) → List A → List A
edit_at n g [] = []
edit_at zero g (x ∷ xs) = g x ∷ xs
edit_at (suc n) g (x ∷ xs) = x ∷ edit_at n g xs

-- A write through a slot.
unfoldable pub edit_place : Place → (IrValue → IrValue) → IrInst → IrInst
edit_place (Place.operand k) g i = record i { operands = edit_at k g i.operands }
edit_place Place.callee g i = record i { call_callee = Option.map g i.call_callee }
edit_place (Place.call_arg k) g i = record i { call_args = edit_at k g i.call_args }
edit_place (Place.phi_value k) g i = record i {
  phi_entries = edit_at k (λ e. record e { value = g e.value }) i.phi_entries;
}

abbrev pub same_id : Option ℕ → Option ℕ → Bool
same_id (some m) (some n) = m == n
same_id _ _ = false

unfoldable pub edit_insts : Slot → (IrValue → IrValue) → List IrInst → List IrInst
unfolding edit_place
edit_insts s g [] = []
edit_insts s g (i ∷ is) =
    (if same_id i.id s.inst then edit_place s.place g i else i) ∷ edit_insts s g is

unfoldable pub edit_slot : Slot → (IrValue → IrValue) → List IrBlock → List IrBlock
unfolding edit_insts
edit_slot s g [] = []
edit_slot s g (b ∷ bs) = record b { insts = edit_insts s g b.insts } ∷ edit_slot s g bs
