-- ===== src/RegAlloc/Convention.antt =====
-- Physical registers and calling conventions (src/backend/regalloc.h, src/backend/regalloc.c and
-- src/backend/target.c).
use Prim.Native.Nat.{bit_or}
use baa.Base.{ℕ, ◌-◌, ◌/◌, ◌%◌, ◌^◌, Bool, false, not, ◌&&◌, ◌||◌, List, [], ◌∷◌, ◌==◌, ltb}
use baa.Base.Int.{ℤ, negsuc}

abbrev pub phys_none : ℕ
phys_none = 2 ^ 32 - 1

abbrev pub phys_reg_count : ℕ
phys_reg_count = 16

abbrev pub rax : ℕ
rax = 0

abbrev pub rcx : ℕ
rcx = 1

abbrev pub rdx : ℕ
rdx = 2

abbrev pub rbx : ℕ
rbx = 3

abbrev pub rsp : ℕ
rsp = 4

abbrev pub rbp : ℕ
rbp = 5

abbrev pub rsi : ℕ
rsi = 6

abbrev pub rdi : ℕ
rdi = 7

-- What the allocator reads of a calling convention. The registers for arguments are those in use.
pub record CallingConv : Type 0 where
  pub int_arg_phys_regs : List ℕ
  pub ret_phys_reg : ℕ
  pub callee_saved_mask : ℕ
  pub caller_saved_mask : ℕ
  pub abi_arg_vreg0 : ℤ
  pub abi_ret_vreg : ℤ

-- The bits of some registers.
abbrev pub mask_of : List ℕ → ℕ
mask_of [] = 0
mask_of (r ∷ rs) = bit_or (2 ^ r) (mask_of rs)

abbrev pub cc_win_x64 : CallingConv
cc_win_x64 = record {
  int_arg_phys_regs = rcx ∷ rdx ∷ 8 ∷ 9 ∷ [];
  ret_phys_reg = rax;
  callee_saved_mask = mask_of (rbx ∷ rbp ∷ rdi ∷ rsi ∷ 12 ∷ 13 ∷ 14 ∷ 15 ∷ []);
  caller_saved_mask = mask_of (rax ∷ rcx ∷ rdx ∷ 8 ∷ 9 ∷ 10 ∷ 11 ∷ []);
  abi_arg_vreg0 = negsuc 9;
  abi_ret_vreg = negsuc 1;
}

abbrev pub cc_sysv_amd64 : CallingConv
cc_sysv_amd64 = record {
  int_arg_phys_regs = rdi ∷ rsi ∷ rdx ∷ rcx ∷ 8 ∷ 9 ∷ [];
  ret_phys_reg = rax;
  callee_saved_mask = mask_of (rbx ∷ rbp ∷ 12 ∷ 13 ∷ 14 ∷ 15 ∷ []);
  caller_saved_mask = mask_of (rax ∷ rcx ∷ rdx ∷ rsi ∷ rdi ∷ 8 ∷ 9 ∷ 10 ∷ 11 ∷ []);
  abi_arg_vreg0 = negsuc 9;
  abi_ret_vreg = negsuc 1;
}

-- `mask & (1u << reg)`, for a register that there is.
abbrev pub in_mask : ℕ → ℕ → Bool
in_mask mask reg = ltb reg phys_reg_count && not (mask / 2 ^ reg % 2 == 0)

unfoldable pub reg_is_caller_saved_cc : CallingConv → ℕ → Bool
reg_is_caller_saved_cc cc reg = in_mask cc.caller_saved_mask reg

unfoldable pub reg_is_callee_saved_cc : CallingConv → ℕ → Bool
reg_is_callee_saved_cc cc reg = in_mask cc.callee_saved_mask reg

-- R11 is kept as a scratch register.
abbrev pub alloc_order : List ℕ
alloc_order = 10 ∷ rsi ∷ rdi ∷ rbx ∷ 12 ∷ 13 ∷ 14 ∷ 15 ∷ rcx ∷ rdx ∷ 8 ∷ 9 ∷ []

abbrev pub one_of : ℕ → List ℕ → Bool
one_of r [] = false
one_of r (x ∷ xs) = x == r || one_of r xs

-- RSP, RBP and the registers of results and arguments are never free.
unfoldable pub reg_free_at_start : CallingConv → ℕ → Bool
reg_free_at_start cc r =
    ltb r phys_reg_count
    && not (r == rsp || r == rbp || cc.ret_phys_reg == r || one_of r cc.int_arg_phys_regs)
