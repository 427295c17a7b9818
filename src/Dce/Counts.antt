-- ===== src/Dce/Counts.antt =====
-- The counts of uses in src/middleend/ir_dce.c against the reads of a register in a list of
-- instructions.
use baa.Base.{ℕ, ◌+◌, ◌≤◌, ◌<◌, ◌≡◌, List, [], ◌∷◌, ◌++◌, if◌then◌else◌, arith}
use baa.Ir.Inst.{IrValueData, IrValue, IrInst, inst_values}
use baa.DefUse.{reads}
use baa.Dce.{
  ir_count_use_from_value, count_payload, count_values, ir_inst_count_uses, decrement_payload,
  decrement_values, ir_inst_decrement_operand_uses, count_uses,
}

-- How often the values read the register.
abbrev pub value_reads : ℕ → List IrValue → ℕ
value_reads r [] = 0
value_reads r (v ∷ vs) = (if reads r v.payload then 1 else 0) + value_reads r vs

abbrev pub insts_reads : ℕ → List IrInst → ℕ
insts_reads r [] = 0
insts_reads r (i ∷ is) = value_reads r (inst_values i) + insts_reads r is

pub insts_reads-append :
    (r : ℕ) (xs ys : List IrInst) → insts_reads r (xs ++ ys) ≡ insts_reads r xs + insts_reads r ys
insts_reads-append r [] ys = omega arith
insts_reads-append r (x ∷ xs) ys = omega (arith, insts_reads-append r xs ys)

count_payload-reads :
    (r : ℕ) (v : IrValueData) (uses : ℕ → ℕ) (max_reg : ℕ)
    → r < max_reg
    → count_payload v uses max_reg r ≡ uses r + (if reads r v then 1 else 0)
count_payload-reads r (IrValueData.reg q) uses max_reg h = ground arith
count_payload-reads r _ uses max_reg h = omega arith

count_values-reads :
    (r : ℕ) (vs : List IrValue) (uses : ℕ → ℕ) (max_reg : ℕ)
    → r < max_reg
    → count_values vs uses max_reg r ≡ uses r + value_reads r vs
unfolding count_values
count_values-reads r [] uses max_reg h = omega arith
count_values-reads r (v ∷ vs) uses max_reg h = omega (
  arith,
  count_values-reads r vs (ir_count_use_from_value v uses max_reg) max_reg h,
  count_payload-reads r v.payload uses max_reg h,
)

pub count_uses-reads :
    (r : ℕ) (is : List IrInst) (uses : ℕ → ℕ) (max_reg : ℕ)
    → r < max_reg
    → count_uses is uses max_reg r ≡ uses r + insts_reads r is
unfolding count_uses ir_inst_count_uses
count_uses-reads r [] uses max_reg h = omega arith
count_uses-reads r (i ∷ is) uses max_reg h = omega (
  arith,
  count_uses-reads r is (ir_inst_count_uses i uses max_reg) max_reg h,
  count_values-reads r (inst_values i) uses max_reg h,
)

decrement_payload-reads :
    (r : ℕ) (v : IrValueData) (uses : ℕ → ℕ) (max_reg : ℕ)
    → r < max_reg
    → uses r ≤ decrement_payload v uses max_reg r + (if reads r v then 1 else 0)
decrement_payload-reads r (IrValueData.reg q) uses max_reg h = ground arith
decrement_payload-reads r _ uses max_reg h = omega arith

decrement_values-reads :
    (r : ℕ) (vs : List IrValue) (uses : ℕ → ℕ) (max_reg : ℕ)
    → r < max_reg
    → uses r ≤ decrement_values vs uses max_reg r + value_reads r vs
unfolding decrement_values
decrement_values-reads r [] uses max_reg h = omega arith
decrement_values-reads r (v ∷ vs) uses max_reg h = omega (
  arith,
  decrement_values-reads r vs (decrement_payload v.payload uses max_reg) max_reg h,
  decrement_payload-reads r v.payload uses max_reg h,
)

-- The decrement takes away no more than the instruction's own reads.
pub decrement-reads :
    (r : ℕ) (i : IrInst) (uses : ℕ → ℕ) (max_reg : ℕ)
    → r < max_reg
    → uses r ≤ ir_inst_decrement_operand_uses i uses max_reg r + value_reads r (inst_values i)
unfolding ir_inst_decrement_operand_uses
decrement-reads r i uses max_reg h = decrement_values-reads r (inst_values i) uses max_reg h
