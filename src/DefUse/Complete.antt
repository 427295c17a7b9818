-- ===== src/DefUse/Complete.antt =====
-- The chains of uses (src/middleend/ir_defuse.c) miss no use.
use mathlib.Core.Option.{some-injective}
use mathlib.Core.List.{
  Mem, mem-cons_self, mem-cons_of_mem, mem-append_left, mem-append_right, mem-reverse,
}
use Prim.Native.Nat.{max}
use baa.Base.{
  ℕ, zero, suc, ◌+◌, ◌<◌, ◌≡◌, sym, subst, true, Option, none, some, List, [], ◌∷◌, ◌++◌, arith,
  get_elem?, lt→ltb, inl, inr, Bool-cases,
}
use baa.Ir.Inst.{
  IrOp, IrValueData, IrValue, IrInst, IrFunc, block_insts, inst_values, op_values, callee_values,
  phi_values,
}
use baa.DefUse.{
  Place, reads, list_uses, callee_uses, op_uses, inst_uses, insts_uses, value_bound, values_bound,
  insts_bound, ir_scan_max_reg, ir_defuse_build,
}

-- The value at a place of an instruction; the callee and arguments belong to a call, the incoming
-- values to a phi.
abbrev pub op_value_at : IrOp → Place → IrInst → Option IrValue
op_value_at op (Place.operand k) i = get_elem? i.operands k
op_value_at IrOp.call Place.callee i = i.call_callee
op_value_at IrOp.call (Place.call_arg k) i = get_elem? i.call_args k
op_value_at IrOp.phi (Place.phi_value k) i = get_elem? (phi_values i.phi_entries) k
op_value_at _ _ i = none

abbrev pub value_at : Place → IrInst → Option IrValue
value_at p i = op_value_at i.op p i

list_uses_complete :
    (r : ℕ) (id : Option ℕ) (mk : ℕ → Place) (n : ℕ) (vs : List IrValue) (k : ℕ) (v : IrValue)
    → get_elem? vs k ≡ some v
    → reads r v.payload ≡ true
    → Mem (record { inst = id; place = mk (n + k) }) (list_uses r id mk n vs)
unfolding list_uses
list_uses_complete r id mk n [] k v at h = cc
list_uses_complete r id mk n (x ∷ xs) zero v at h =
    let here : reads r x.payload ≡ true =
      subst (λ (w : IrValue). reads r w.payload ≡ true) (sym (some-injective x v at)) h in
    let same : n + 0 ≡ n = omega arith in rw (here, same) mem-cons_self
list_uses_complete r id mk n (x ∷ xs) (suc k) v at h =
    let next : n + suc k ≡ suc n + k = omega arith in
    let rest = list_uses_complete r id mk (suc n) xs k v at h in
    elim (Bool-cases (reads r x.payload)) [
      | inl here ↦ rw (here, next) (mem-cons_of_mem _ rest)
      | inr other ↦ rw (other, next) rest
    ]

list_uses_complete_zero :
    (r : ℕ) (id : Option ℕ) (mk : ℕ → Place) (vs : List IrValue) (k : ℕ) (v : IrValue)
    → get_elem? vs k ≡ some v
    → reads r v.payload ≡ true
    → Mem (record { inst = id; place = mk k }) (list_uses r id mk 0 vs)
list_uses_complete_zero r id mk vs k v at h =
    let same : 0 + k ≡ k = omega arith in
    subst (λ (j : ℕ). Mem (record { inst = id; place = mk j }) (list_uses r id mk 0 vs)) same
      (list_uses_complete r id mk 0 vs k v at h)

callee_uses_complete :
    (r : ℕ) (id : Option ℕ) (c : Option IrValue) (v : IrValue)
    → c ≡ some v
    → reads r v.payload ≡ true
    → Mem (record { inst = id; place = Place.callee }) (callee_uses r id c)
unfolding callee_uses
callee_uses_complete r id none v at h = cc
callee_uses_complete r id (some x) v at h =
    let here : reads r x.payload ≡ true =
      subst (λ (w : IrValue). reads r w.payload ≡ true) (sym (some-injective x v at)) h in
    rw here mem-cons_self

inst_uses_complete :
    (r : ℕ) (i : IrInst) (op : IrOp) (p : Place) (v : IrValue)
    → op_value_at op p i ≡ some v
    → reads r v.payload ≡ true
    → Mem
        (record { inst = i.id; place = p })
        (list_uses r i.id Place.operand 0 i.operands ++ op_uses r op i)
unfolding op_uses
inst_uses_complete r i op (Place.operand k) v at h =
    mem-append_left _ (list_uses_complete_zero r i.id Place.operand i.operands k v at h)
inst_uses_complete r i IrOp.call Place.callee v at h =
    mem-append_right (list_uses r i.id Place.operand 0 i.operands)
      (mem-append_left _ (callee_uses_complete r i.id i.call_callee v at h))
inst_uses_complete r i IrOp.call (Place.call_arg k) v at h =
    mem-append_right (list_uses r i.id Place.operand 0 i.operands) (
      mem-append_right (callee_uses r i.id i.call_callee)
        (list_uses_complete_zero r i.id Place.call_arg i.call_args k v at h))
inst_uses_complete r i IrOp.phi (Place.phi_value k) v at h =
    mem-append_right (list_uses r i.id Place.operand 0 i.operands)
      (list_uses_complete_zero r i.id Place.phi_value (phi_values i.phi_entries) k v at h)
inst_uses_complete r i _ _ v at h = cc

insts_uses_complete :
    (r : ℕ) (is : List IrInst) (n : ℕ) (i : IrInst) (p : Place) (v : IrValue)
    → get_elem? is n ≡ some i
    → value_at p i ≡ some v
    → reads r v.payload ≡ true
    → Mem (record { inst = i.id; place = p }) (insts_uses r is)
unfolding insts_uses inst_uses
insts_uses_complete r [] n i p v found at h = cc
insts_uses_complete r (x ∷ xs) zero i p v found at h =
    let same = some-injective x i found in
    mem-append_left _ (
      subst (λ (j : IrInst). Mem (record { inst = i.id; place = p }) (inst_uses r j)) (sym same)
        (inst_uses_complete r i i.op p v at h))
insts_uses_complete r (x ∷ xs) (suc n) i p v found at h =
    mem-append_right (inst_uses r x) (insts_uses_complete r xs n i p v found at h)

-- The scan for the largest register sees every register that is read.
reads-bound : (r : ℕ) (d : IrValueData) → reads r d ≡ true → r < value_bound d
reads-bound r (IrValueData.reg n) h = ground arith
reads-bound r _ h = cc

values-bound :
    (r : ℕ) (vs : List IrValue) (k : ℕ) (v : IrValue)
    → get_elem? vs k ≡ some v
    → reads r v.payload ≡ true
    → r < values_bound vs
values-bound r [] k v at h = cc
values-bound r (x ∷ xs) zero v at h =
    let here =
      subst (λ (w : IrValue). r < value_bound w.payload) (sym (some-injective x v at))
        (reads-bound r v.payload h) in
    omega (arith, here)
values-bound r (x ∷ xs) (suc k) v at h = omega (arith, values-bound r xs k v at h)

values_bound-append :
    (vs ws : List IrValue) → values_bound (vs ++ ws) ≡ max (values_bound vs) (values_bound ws)
values_bound-append [] ws = omega arith
values_bound-append (v ∷ vs) ws = omega (arith, values_bound-append vs ws)

inst_bound :
    (r : ℕ) (i : IrInst) (op : IrOp) (p : Place) (v : IrValue)
    → op_value_at op p i ≡ some v
    → reads r v.payload ≡ true
    → r < values_bound (i.operands ++ op_values op i)
inst_bound r i op (Place.operand k) v at h =
    omega
      (arith, values-bound r i.operands k v at h, values_bound-append i.operands (op_values op i))
inst_bound r i IrOp.call Place.callee v at h =
    rw (at, values_bound-append i.operands (v ∷ i.call_args))
      (omega (arith, reads-bound r v.payload h))
inst_bound r i IrOp.call (Place.call_arg k) v at h = omega (
  arith,
  values-bound r i.call_args k v at h,
  values_bound-append i.operands (callee_values i.call_callee ++ i.call_args),
  values_bound-append (callee_values i.call_callee) i.call_args,
)
inst_bound r i IrOp.phi (Place.phi_value k) v at h = omega (
  arith,
  values-bound r (phi_values i.phi_entries) k v at h,
  values_bound-append i.operands (phi_values i.phi_entries),
)
inst_bound r i _ _ v at h = cc

insts-bound :
    (r : ℕ) (is : List IrInst) (n : ℕ) (i : IrInst)
    → get_elem? is n ≡ some i
    → r < values_bound (inst_values i)
    → r < insts_bound is
insts-bound r [] n i found h = cc
insts-bound r (x ∷ xs) zero i found h =
    let here =
      subst (λ (j : IrInst). r < values_bound (inst_values j)) (sym (some-injective x i found)) h in
    omega (arith, here)
insts-bound r (x ∷ xs) (suc n) i found h = omega (arith, insts-bound r xs n i found h)

-- For every instruction of a function and every place in it (an operand, the callee or an argument
-- of a call, an incoming value of a phi): if the value there reads a register, the register is below
-- the bound of the chains and the place is in the register's chain.
pub defuse_build_complete :
    (f : IrFunc) (n : ℕ) (i : IrInst) (p : Place) (v : IrValue) (r : ℕ)
    → get_elem? (block_insts f.blocks) n ≡ some i
    → value_at p i ≡ some v
    → reads r v.payload ≡ true
    → (r < (ir_defuse_build f).max_reg)
      × Mem (record { inst = i.id; place = p }) ((ir_defuse_build f).uses_by_reg r)
unfolding ir_defuse_build ir_scan_max_reg
defuse_build_complete f n i p v r found at h =
    let bound = insts-bound r (block_insts f.blocks) n i found (inst_bound r i i.op p v at h) in
    let inside : r < ir_scan_max_reg f = omega (arith, bound) in
    let test = lt→ltb r (ir_scan_max_reg f) inside in
    (
      inside,
      rw test (mem-reverse.1 (insts_uses_complete r (block_insts f.blocks) n i p v found at h)),
    )
