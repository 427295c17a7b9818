-- ===== src/Ir/Inst.antt =====
-- Values, instructions, blocks, functions and modules (src/middleend/ir.h).
-- A pointer to a block is the block's id and a pointer to an instruction the instruction's id: both
-- are handed out once in a function. A field that holds -1 or NULL for "nothing" is an `Option`.
-- A linked list or a counted array is a `List`, so the stored counts are lengths.
use Prim.Native.String.{String}
use baa.Base.{ℕ, Bool, Option, none, some, List, [], ◌∷◌, ◌++◌}
use baa.Ir.Types.{IrType}

-- IROp. The keyword `mod` is taken, so IR_OP_MOD is `rem`.
pub data IrOp : Type 0 where
  add sub mul div rem neg : IrOp
  alloca load store ptr_offset : IrOp
  cmp : IrOp
  and or xor not shl shr : IrOp
  br br_cond ret call : IrOp
  phi copy cast : IrOp
  cpu_nop read_tsc nop : IrOp

-- IRCmpPred.
pub data IrCmpPred : Type 0 where
  eq ne gt lt ge le ugt ult uge ule : IrCmpPred

-- A `char *`: where it points, and the text there.
pub record Name : Type 0 where
  pub addr : ℕ
  pub text : String

-- IRValueKind with the union of IRValue. An integer constant is the 64-bit pattern of its int64_t.
pub data IrValueData : Type 0 where
  nothing : IrValueData
  const_int : ℕ → IrValueData
  const_str baa_str : Option Name → ℕ → IrValueData
  reg : ℕ → IrValueData
  global func : Option Name → IrValueData
  block : ℕ → IrValueData

pub record IrValue : Type 0 where
  pub payload : IrValueData
  pub type : Option IrType

-- IRPhiEntry: a value and the predecessor block that it comes from.
pub record IrPhiEntry : Type 0 where
  pub value : IrValue
  pub block : ℕ

pub record IrInst : Type 0 where
  pub op : IrOp
  pub type : Option IrType
  pub id : Option ℕ
  pub dest : Option ℕ
  pub operands : List IrValue
  pub cmp_pred : IrCmpPred
  pub phi_entries : List IrPhiEntry
  pub call_target : Option Name
  pub call_callee : Option IrValue
  pub call_args : List IrValue
  pub src_file : Option Name
  pub src_line : ℕ
  pub src_col : ℕ
  pub dbg_name : Option Name

pub record IrBlock : Type 0 where
  pub label : Option Name
  pub id : ℕ
  pub insts : List IrInst
  pub succs : List ℕ
  pub preds : List ℕ
  pub idom : Option ℕ
  pub dom_frontier : List ℕ

pub record IrParam : Type 0 where
  pub name : Option Name
  pub type : Option IrType
  pub reg : ℕ

pub record IrFunc : Type 0 where
  pub name : Option Name
  pub ret_type : IrType
  pub params : List IrParam
  pub entry : Option ℕ
  pub blocks : List IrBlock
  pub next_reg : ℕ
  pub next_inst_id : ℕ
  pub ir_epoch : ℕ
  pub next_block_id : ℕ
  pub is_prototype : Bool
  pub is_variadic : Bool

pub record IrModule : Type 0 where
  pub funcs : List IrFunc

-- The values of an instruction that the passes visit, in their order: the operands, then the callee
-- and the arguments of a call, then the values of a phi.
abbrev pub callee_values : Option IrValue → List IrValue
callee_values none = []
callee_values (some v) = v ∷ []

abbrev pub phi_values : List IrPhiEntry → List IrValue
phi_values [] = []
phi_values (e ∷ es) = e.value ∷ phi_values es

abbrev pub op_values : IrOp → IrInst → List IrValue
op_values IrOp.call i = callee_values i.call_callee ++ i.call_args
op_values IrOp.phi i = phi_values i.phi_entries
op_values _ i = []

abbrev pub inst_values : IrInst → List IrValue
inst_values i = i.operands ++ op_values i.op i

-- All instructions of a function, block after block.
abbrev pub block_insts : List IrBlock → List IrInst
block_insts [] = []
block_insts (b ∷ bs) = b.insts ++ block_insts bs
