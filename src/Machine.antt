-- ===== src/Machine.antt =====
-- Machine instructions, blocks and functions of the back end (src/backend/isel.h). A pointer to a
-- block is its id. The fields that only trace the source, and `sysv_al`, are left out.
use baa.Base.{ℕ, Bool, Option, List}
use baa.Base.Int.{ℤ}
use baa.Ir.Inst.{Name}

-- MachineOp, without the prefix MACH_.
pub data MachineOp : Type 0 where
  add sub imul shl shr sar idiv div neg cqo : MachineOp
  addsd subsd mulsd divsd ucomisd xorpd cvtsi2sd cvttsd2si : MachineOp
  mov lea load store : MachineOp
  cmp test sete setne setg setl setge setle seta setb setae setbe setp setnp movzx movsx : MachineOp
  and or not xor : MachineOp
  jmp je jne call tailjmp ret : MachineOp
  push pop : MachineOp
  nop cpu_nop rdtsc label comment : MachineOp

-- MachineOperandKind with the union of MachineOperand. A virtual register below 0 stands for a
-- register that the calling convention fixes.
pub data MachineOperandData : Type 0 where
  nothing : MachineOperandData
  vreg : ℤ → MachineOperandData
  imm : ℤ → MachineOperandData
  mem : ℤ → ℤ → MachineOperandData
  label_id : ℕ → MachineOperandData
  global func : Option Name → MachineOperandData
  xmm : ℕ → MachineOperandData

pub record MachineOperand : Type 0 where
  pub payload : MachineOperandData
  pub size_bits : ℕ

pub record MachineInst : Type 0 where
  pub op : MachineOp
  pub dst : MachineOperand
  pub src1 : MachineOperand
  pub src2 : MachineOperand

pub record MachineBlock : Type 0 where
  pub id : ℕ
  pub insts : List MachineInst
  pub succs : List ℕ

pub record MachineFunc : Type 0 where
  pub is_prototype : Bool
  pub blocks : List MachineBlock
  pub next_vreg : ℕ
  pub stack_size : ℕ
