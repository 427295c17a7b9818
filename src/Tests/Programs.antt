-- ===== src/Tests/Programs.antt =====
-- A small function, and what its registers hold, for the runs of the passes of src/middleend/.
use baa.Base.{ℕ, false, Option, none, some, List, [], ◌∷◌, if◌then◌else◌, ◌==◌}
use baa.Ir.Types.{IrType}
use baa.Ir.Inst.{IrOp, IrCmpPred, IrValueData, IrValue, IrInst, IrFunc, IrBlock, IrModule}
use baa.Ir.Eval.{Env}

abbrev pub const_of_type : ℕ → IrType → IrValue
const_of_type c t = record { payload = IrValueData.const_int c; type = some t }

abbrev pub reg_of_type : ℕ → IrType → IrValue
reg_of_type r t = record { payload = IrValueData.reg r; type = some t }

abbrev pub make_inst : IrOp → IrType → ℕ → Option ℕ → List IrValue → IrInst
make_inst op type id dest operands = record {
  op = op;
  type = some type;
  id = some id;
  dest = dest;
  operands = operands;
  cmp_pred = IrCmpPred.ult;
  phi_entries = [];
  call_target = none;
  call_callee = none;
  call_args = [];
  src_file = none;
  src_line = 0;
  src_col = 0;
  dbg_name = none;
}

-- %0 = add i8 200, 100
abbrev pub add_inst : IrInst
add_inst =
    make_inst IrOp.add IrType.i8 0 (some 0)
      (const_of_type 200 IrType.i8 ∷ const_of_type 100 IrType.i8 ∷ [])

-- %1 = cmp ult %0, 50
abbrev pub cmp_inst : IrInst
cmp_inst =
    make_inst IrOp.cmp IrType.i1 1 (some 1)
      (reg_of_type 0 IrType.i8 ∷ const_of_type 50 IrType.i8 ∷ [])

-- ret %1
abbrev pub ret_inst : IrInst
ret_inst = make_inst IrOp.ret IrType.i1 2 none (reg_of_type 1 IrType.i1 ∷ [])

abbrev pub make_block : List IrInst → IrBlock
make_block insts = record {
  label = none;
  id = 0;
  insts = insts;
  succs = [];
  preds = [];
  idom = none;
  dom_frontier = [];
}

abbrev pub make_func : List IrInst → IrFunc
make_func insts = record {
  name = none;
  ret_type = IrType.i1;
  params = [];
  entry = some 0;
  blocks = make_block insts ∷ [];
  next_reg = 2;
  next_inst_id = 3;
  ir_epoch = 1;
  next_block_id = 1;
  is_prototype = false;
  is_variadic = false;
}

abbrev pub test_func : IrFunc
test_func = make_func (add_inst ∷ cmp_inst ∷ ret_inst ∷ [])

-- A module in which nothing is folded.
abbrev pub settled_module : IrModule
settled_module = record { funcs = make_func (ret_inst ∷ []) ∷ [] }

abbrev pub held : ℕ → ℕ
held r = if r == 0 then 44 else if r == 1 then 1 else 0

abbrev pub env : Env
env = record { reg = held; global = λ _. 0; func = λ _. 0; str = λ _. 0; baa_str = λ _. 0 }
