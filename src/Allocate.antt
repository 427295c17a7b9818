-- ===== src/Allocate.antt =====
-- Register allocation of a whole function (src/backend/regalloc_driver.c, with the rewriting of
-- src/backend/regalloc_rewrite.c and the numbering of src/backend/regalloc.c), and the saved registers
-- that its code uses. A register in an operand of the result is its number. Allocation of memory
-- succeeds.
pub mod Saved
pub mod Placed
pub mod Apart
use baa.Base.{
  ℕ, zero, suc, ◌+◌, ◌-◌, Bool, true, false, not, ◌&&◌, ◌||◌, Option, none, some, List, [], ◌∷◌,
  ◌++◌, foldl, if◌then◌else◌, ◌==◌, ltb, leb, length,
}
use baa.Base.Int.{ℤ, pos, negsuc, ◌-ℤ◌, leb_ℤ, sub_ℕ, pos_part}
use baa.Machine.{
  MachineOp, MachineOperandData, MachineOperand, MachineInst, MachineBlock, MachineFunc,
}
use baa.RegAlloc.Convention.{
  CallingConv, phys_none, phys_reg_count, rax, rcx, rdx, rbx, rsp, rbp, rsi, rdi, in_mask, one_of,
  reg_is_callee_saved_cc,
}
use baa.RegAlloc.Step.{LiveInterval, ScanState, write}
use baa.RegAlloc.{regalloc_linear_scan}
use baa.Liveness.{BlockLiveness, regalloc_compute_liveness}
use baa.Intervals.{inst_count, regalloc_build_intervals}

-- The first `int_arg_reg_count` entries of `int_arg_phys_regs` are the list; none is beyond them.
abbrev pub nth_reg : List ℕ → ℕ → Option ℕ
nth_reg [] i = none
nth_reg (r ∷ rs) zero = some r
nth_reg (r ∷ rs) (suc i) = nth_reg rs i

unfoldable pub resolve_special_vreg : ℤ → ℕ
resolve_special_vreg (pos n) = phys_none
resolve_special_vreg (negsuc n) =
    if n == 0
    then rbp
    else if n == 2
    then rsp
    else if n == 3
    then 11
    else if n == 4
    then rdx
    else if n == 5
    then rcx
    else phys_none

abbrev pub real_or_none : Option ℕ → ℕ
real_or_none none = phys_none
real_or_none (some r) = if ltb r phys_reg_count then r else phys_none

-- The register of the argument that the number below `abi_arg_vreg0` stands for.
unfoldable pub resolve_arg_vreg : CallingConv → ℤ → ℕ
resolve_arg_vreg cc vreg =
    if leb_ℤ vreg cc.abi_arg_vreg0 && leb_ℤ (cc.abi_arg_vreg0 -ℤ pos 32) vreg
    then real_or_none (nth_reg cc.int_arg_phys_regs (pos_part (cc.abi_arg_vreg0 -ℤ vreg)))
    else phys_none

abbrev pub same_int : ℤ → ℤ → Bool
same_int a b = leb_ℤ a b && leb_ℤ b a

unfoldable pub resolve_special_vreg_with_cc : CallingConv → ℤ → ℕ
unfolding resolve_special_vreg resolve_arg_vreg
resolve_special_vreg_with_cc cc vreg =
    if not (resolve_special_vreg vreg == phys_none)
    then resolve_special_vreg vreg
    else if same_int vreg cc.abi_ret_vreg && ltb cc.ret_phys_reg phys_reg_count
    then cc.ret_phys_reg
    else if same_int vreg (negsuc 1)
    then rax
    else resolve_arg_vreg cc vreg

-- The number of the register, or the old one where there is none.
abbrev pub known_or : ℤ → ℕ → ℤ
known_or old reg = if reg == phys_none then old else pos reg

-- A distance below RBP as an offset.
abbrev pub below_rbp : ℕ → ℤ
below_rbp n = sub_ℕ 0 n

unfoldable pub rewrite_data : CallingConv → ℕ → ScanState → MachineOperandData → MachineOperandData
unfolding resolve_special_vreg_with_cc
rewrite_data cc max_vreg s (MachineOperandData.vreg (negsuc n)) =
    MachineOperandData.vreg (known_or (negsuc n) (resolve_special_vreg_with_cc cc (negsuc n)))
rewrite_data cc max_vreg s (MachineOperandData.vreg (pos n)) =
    if not (ltb n max_vreg)
    then MachineOperandData.vreg (pos n)
    else if s.vreg_spilled n
    then MachineOperandData.mem (pos rbp) (below_rbp (s.vreg_spill_offset n))
    else MachineOperandData.vreg (known_or (pos n) (s.vreg_to_phys n))
rewrite_data cc max_vreg s (MachineOperandData.mem (negsuc n) offset) =
    MachineOperandData.mem (known_or (negsuc n) (resolve_special_vreg_with_cc cc (negsuc n))) offset
rewrite_data cc max_vreg s (MachineOperandData.mem (pos n) offset) =
    MachineOperandData.mem (if ltb n max_vreg then known_or (pos n) (s.vreg_to_phys n) else pos n)
      offset
rewrite_data cc max_vreg s other = other

abbrev pub rewrite_operand : CallingConv → ℕ → ScanState → MachineOperand → MachineOperand
rewrite_operand cc max_vreg s op = record op { payload = rewrite_data cc max_vreg s op.payload }

abbrev pub rewrite_inst : CallingConv → ℕ → ScanState → MachineInst → MachineInst
rewrite_inst cc max_vreg s inst = record inst {
  dst = rewrite_operand cc max_vreg s inst.dst;
  src1 = rewrite_operand cc max_vreg s inst.src1;
  src2 = rewrite_operand cc max_vreg s inst.src2;
}

abbrev pub rewrite_insts : CallingConv → ℕ → ScanState → List MachineInst → List MachineInst
rewrite_insts cc max_vreg s [] = []
rewrite_insts cc max_vreg s (i ∷ is) = rewrite_inst cc max_vreg s i ∷ rewrite_insts cc max_vreg s is

abbrev pub rewrite_blocks : CallingConv → ℕ → ScanState → List MachineBlock → List MachineBlock
rewrite_blocks cc max_vreg s [] = []
rewrite_blocks cc max_vreg s (b ∷ bs) =
    record b { insts = rewrite_insts cc max_vreg s b.insts } ∷ rewrite_blocks cc max_vreg s bs

unfoldable pub regalloc_rewrite :
    CallingConv → ℕ → ScanState → List MachineBlock → List MachineBlock
unfolding rewrite_data
regalloc_rewrite cc max_vreg s blocks = rewrite_blocks cc max_vreg s blocks

abbrev pub scratch : ℤ
scratch = negsuc 3

-- The base register is loaded again from its slot to the scratch register.
abbrev pub reload : ℕ → MachineInst
reload offset = record {
  op = MachineOp.load;
  dst = record { payload = MachineOperandData.vreg scratch; size_bits = 64 };
  src1 = record { payload = MachineOperandData.mem (negsuc 0) (below_rbp offset); size_bits = 64 };
  src2 = record { payload = MachineOperandData.nothing; size_bits = 0 };
}

-- The instructions to insert, the operand, and whether the scratch register is used.
unfoldable pub fix_mem_base :
    ℕ → ScanState → Bool → MachineOperand → List MachineInst × MachineOperand × Bool
fix_mem_base max_vreg s used op = elim op.payload [
  | MachineOperandData.mem base offset ↦ elim base [
    | negsuc n ↦ ([], op, used)
    | pos n ↦
        if ltb n max_vreg && s.vreg_spilled n && not used
        then (
          reload (s.vreg_spill_offset n) ∷ [],
          record op { payload = MachineOperandData.mem scratch offset },
          true,
        )
        else ([], op, used)
  ]
  | _ ↦ ([], op, used)
]

-- An instruction behind those that are inserted before it.
unfoldable pub fix_inst : ℕ → ScanState → MachineInst → List MachineInst
unfolding fix_mem_base
fix_inst max_vreg s inst =
    let (first, dst, used) = fix_mem_base max_vreg s false inst.dst in
    let (second, src1, used') = fix_mem_base max_vreg s used inst.src1 in
    let (third, src2, _) = fix_mem_base max_vreg s used' inst.src2 in
    first ++ (second ++ (third ++ (record inst { dst = dst; src1 = src1; src2 = src2 } ∷ [])))

abbrev pub fix_insts : ℕ → ScanState → List MachineInst → List MachineInst
fix_insts max_vreg s [] = []
fix_insts max_vreg s (i ∷ is) = fix_inst max_vreg s i ++ fix_insts max_vreg s is

abbrev pub fix_blocks : ℕ → ScanState → List MachineBlock → List MachineBlock
fix_blocks max_vreg s [] = []
fix_blocks max_vreg s (b ∷ bs) =
    record b { insts = fix_insts max_vreg s b.insts } ∷ fix_blocks max_vreg s bs

unfoldable pub regalloc_insert_spill_code : ℕ → ScanState → List MachineBlock → List MachineBlock
unfolding fix_inst
regalloc_insert_spill_code max_vreg s blocks =
    if s.spill_count == 0 then blocks else fix_blocks max_vreg s blocks

abbrev pub is_call : MachineOp → Bool
is_call MachineOp.call = true
is_call _ = false

-- The positions of the calls, from the position p on.
abbrev pub calls_from : ℕ → List MachineInst → List ℕ
calls_from p [] = []
calls_from p (i ∷ is) = if is_call i.op then p ∷ calls_from (p + 1) is else calls_from (p + 1) is

abbrev pub call_positions : ℕ → List MachineBlock → List ℕ
call_positions p [] = []
call_positions p (b ∷ bs) = calls_from p b.insts ++ call_positions (p + inst_count b.insts) bs

-- The number of virtual registers, one at least.
abbrev pub max_vreg_of : MachineFunc → ℕ
max_vreg_of func = if ltb func.next_vreg 1 then 1 else func.next_vreg

-- What the linear scan finds for a function.
abbrev pub scan_func :
    (List LiveInterval → List LiveInterval) → CallingConv → MachineFunc → ScanState
scan_func sort cc func =
    regalloc_linear_scan sort cc (call_positions 1 func.blocks) (max_vreg_of func) func.stack_size (
      regalloc_build_intervals (max_vreg_of func)
        (regalloc_compute_liveness (max_vreg_of func) func.blocks).0 func.blocks)

unfoldable pub allocate_body :
    (List LiveInterval → List LiveInterval) → CallingConv → MachineFunc → MachineFunc
unfolding regalloc_insert_spill_code regalloc_rewrite
allocate_body sort cc func =
    let s = scan_func sort cc func in
    record func {
      blocks =
          regalloc_rewrite cc (max_vreg_of func) s
            (regalloc_insert_spill_code (max_vreg_of func) s func.blocks);
      stack_size = s.next_spill_offset;
    }

unfoldable pub regalloc_func_ex :
    (List LiveInterval → List LiveInterval) → CallingConv → MachineFunc → MachineFunc
unfolding allocate_body
regalloc_func_ex sort cc func =
    if func.is_prototype || length func.blocks == 0 then func else allocate_body sort cc func

-- The register that an operand names.
abbrev pub operand_reg : MachineOperandData → Option ℕ
operand_reg (MachineOperandData.vreg (pos n)) = some n
operand_reg (MachineOperandData.mem (pos n) offset) = some n
operand_reg _ = none

abbrev pub mark_reg : (ℕ → Bool) → Option ℕ → ℕ → Bool
mark_reg used none = used
mark_reg used (some r) = if ltb r phys_reg_count then write used r true else used

abbrev pub mark_inst : (ℕ → Bool) → MachineInst → ℕ → Bool
mark_inst used inst =
    mark_reg
      (mark_reg (mark_reg used (operand_reg inst.dst.payload)) (operand_reg inst.src1.payload))
      (operand_reg inst.src2.payload)

abbrev pub mark_blocks : (ℕ → Bool) → List MachineBlock → ℕ → Bool
mark_blocks used [] = used
mark_blocks used (b ∷ bs) = mark_blocks (foldl mark_inst used b.insts) bs

abbrev pub candidates : List ℕ
candidates = rbx ∷ rsi ∷ rdi ∷ 12 ∷ 13 ∷ 14 ∷ 15 ∷ []

abbrev pub push_front : ℕ → Option (List ℕ) → Option (List ℕ)
push_front r none = none
push_front r (some rs) = some (r ∷ rs)

-- The candidates that are used and saved; none where there are more than the capacity.
unfoldable pub collect : CallingConv → (ℕ → Bool) → ℕ → List ℕ → Option (List ℕ)
collect cc used room [] = some []
collect cc used room (r ∷ rs) =
    let skipped = collect cc used room rs in
    let taken = collect cc used (room - 1) rs in
    if not (used r) || not (in_mask cc.callee_saved_mask r)
    then skipped
    else if room == 0
    then none
    else push_front r taken

unfoldable pub machine_func_collect_callee_saved : CallingConv → ℕ → MachineFunc → Option (List ℕ)
unfolding collect
machine_func_collect_callee_saved cc regs_capacity func =
    collect cc (mark_blocks (λ _. false) func.blocks) regs_capacity candidates
