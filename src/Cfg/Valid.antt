-- ===== src/Cfg/Valid.antt =====
-- What the check of the control-flow graph decides (src/middleend/ir_analysis.c).
use baa.Base.{
  ℕ, ◌≡◌, refl, ◌↔◌, ◌⊎◌, inl, inr, true, false, &&-both, Option, none, some, List, [], ◌∷◌, ◌++◌,
  Bool-cases, Option-cases, ap,
}
use mathlib.Core.Option.{some-injective}
use baa.Ir.Inst.{IrOp, IrValueData, IrValue, IrInst, IrBlock, IrFunc, IrModule}
use baa.Cfg.{
  ir_is_terminator_op, ir_block_from_block_value, names_block, last_inst, terminator_operands,
  ends_block, validate_blocks, validate_body, ir_func_validate_cfg, validate_funcs,
  ir_module_validate_cfg,
}

abbrev pub IsTarget : IrValue → Type 0
IsTarget v = (n : ℕ) × (v.payload ≡ IrValueData.block n)

-- A jump to a block, a branch to two, or a return of one value at most.
abbrev pub IsEnd : IrInst → Type 0
IsEnd i =
    ((i.op ≡ IrOp.br)
      × ((v : IrValue) × (rest : List IrValue) × (i.operands ≡ v ∷ rest) × IsTarget v))
    ⊎ ((i.op ≡ IrOp.br_cond)
        × ((c a b : IrValue) × (rest : List IrValue) × (i.operands ≡ c ∷ a ∷ b ∷ rest)
            × IsTarget a
            × IsTarget b))
    ⊎ ((i.op ≡ IrOp.ret) × ((i.operands ≡ []) ⊎ ((v : IrValue) × (i.operands ≡ v ∷ []))))

-- The block has a last instruction, and it ends the block.
abbrev pub IsClosed : List IrInst → Type 0
IsClosed is = (front : List IrInst) × (i : IrInst) × (is ≡ front ++ i ∷ []) × IsEnd i

abbrev pub AllClosed : List IrBlock → Type 0
AllClosed [] = Unit
AllClosed (b ∷ bs) = IsClosed b.insts × AllClosed bs

abbrev pub IsValidFunc : IrFunc → Type 0
IsValidFunc f = (f.is_prototype ≡ true) ⊎ (((e : ℕ) × (f.entry ≡ some e)) × AllClosed f.blocks)

abbrev pub AllValid : List IrFunc → Type 0
AllValid [] = Unit
AllValid (f ∷ fs) = IsValidFunc f × AllValid fs

block_of_lem :
    (p : IrValueData)
    → (elim (ir_block_from_block_value p) [ none ↦ false | some n ↦ true ]) ≡ true
    → (n : ℕ) × (p ≡ IrValueData.block n)
block_of_lem (IrValueData.block n) h = (n, refl)
block_of_lem _ h = cc

names_block-IsTarget : (v : IrValue) → names_block v ≡ true → IsTarget v
names_block-IsTarget v h = block_of_lem v.payload h

IsTarget-names_block : (v : IrValue) → IsTarget v → names_block v ≡ true
IsTarget-names_block v (n, t) = rw t refl

terminator-IsEnd :
    (i : IrInst) (op : IrOp) (vs : List IrValue)
    → i.op ≡ op
    → i.operands ≡ vs
    → terminator_operands op vs ≡ true
    → IsEnd i
unfolding terminator_operands
terminator-IsEnd i IrOp.br [] e o h = cc
terminator-IsEnd i IrOp.br (v ∷ rest) e o h = inl (e, (v, rest, o, names_block-IsTarget v h))
terminator-IsEnd i IrOp.br_cond [] e o h = cc
terminator-IsEnd i IrOp.br_cond (c ∷ []) e o h = cc
terminator-IsEnd i IrOp.br_cond (c ∷ a ∷ []) e o h = cc
terminator-IsEnd i IrOp.br_cond (c ∷ a ∷ b ∷ rest) e o h =
    let (first, second) = &&-both (names_block a) (names_block b) h in
    inr (inl (e, (c, a, b, rest, o, names_block-IsTarget a first, names_block-IsTarget b second)))
terminator-IsEnd i IrOp.ret [] e o h = inr (inr (e, inl o))
terminator-IsEnd i IrOp.ret (v ∷ []) e o h = inr (inr (e, inr (v, o)))
terminator-IsEnd i IrOp.ret (v ∷ w ∷ rest) e o h = cc
terminator-IsEnd i _ vs e o h = cc

IsEnd-ends_block : (i : IrInst) → IsEnd i → ends_block (some i) ≡ true
unfolding ends_block terminator_operands ir_is_terminator_op
IsEnd-ends_block i (inl (e, (v, rest, o, t))) = simp (e, o) (IsTarget-names_block v t)
IsEnd-ends_block i (inr (inl (e, (c, a, b, rest, o, t, u)))) =
    simp (e, o, IsTarget-names_block a t) (IsTarget-names_block b u)
IsEnd-ends_block i (inr (inr (e, inl o))) = simp (e, o)
IsEnd-ends_block i (inr (inr (e, inr (v, o)))) = simp (e, o)

ends_block-IsEnd : (i : IrInst) → ends_block (some i) ≡ true → IsEnd i
unfolding ends_block
ends_block-IsEnd i h = elim (Bool-cases (ir_is_terminator_op i.op)) [
  | inl terminator ↦ terminator-IsEnd i i.op i.operands refl refl (rw terminator at h)
  | inr other ↦ cc (rw other at h)
]

last_inst-split :
    (is : List IrInst) (i : IrInst)
    → last_inst is ≡ some i
    → (front : List IrInst) × (is ≡ front ++ i ∷ [])
last_inst-split [] i h = cc
last_inst-split (j ∷ []) i h = ([], ap (λ (k : IrInst). k ∷ []) (some-injective j i h))
last_inst-split (j ∷ k ∷ rest) i h =
    let (front, e) = last_inst-split (k ∷ rest) i h in (j ∷ front, ap (◌∷◌ j) e)

last_inst-append : (front : List IrInst) (i : IrInst) → last_inst (front ++ i ∷ []) ≡ some i
last_inst-append [] i = refl
last_inst-append (j ∷ []) i = refl
last_inst-append (j ∷ k ∷ front) i = last_inst-append (k ∷ front) i

none_ends : ends_block none ≡ true → ⊥
unfolding ends_block
none_ends h = cc

IsClosed-iff : (is : List IrInst) → (ends_block (last_inst is) ≡ true) ↔ IsClosed is
IsClosed-iff is = (
  (λ h. elim (Option-cases (last_inst is)) [
    | inl nothing ↦ absurd (none_ends (rw nothing at h))
    | inr (i, last) ↦
        let (front, e) = last_inst-split is i last in
        (front, i, e, ends_block-IsEnd i (rw last at h))
  ]),
  (λ (front, i, e, end). rw (e, last_inst-append front i) (IsEnd-ends_block i end)),
)

blocks_iff : (bs : List IrBlock) → (validate_blocks bs ≡ true) ↔ AllClosed bs
unfolding validate_blocks
blocks_iff [] = ((λ h. tt), (λ h. refl))
blocks_iff (b ∷ bs) = elim (Bool-cases (ends_block (last_inst b.insts))) [
  | inl ends ↦ (
    (λ h. ((IsClosed-iff b.insts).0 ends, (blocks_iff bs).0 (rw ends at h))),
    (λ (closed, rest). rw ends ((blocks_iff bs).1 rest)),
  )
  | inr open_end ↦ (
    (λ h. absurd (cc (rw open_end at h))),
    (λ (closed, rest). absurd (cc (open_end, (IsClosed-iff b.insts).1 closed))),
  )
]

body_iff :
    (entry : Option ℕ) (bs : List IrBlock)
    → (validate_body entry bs ≡ true) ↔ (((e : ℕ) × (entry ≡ some e)) × AllClosed bs)
unfolding validate_body
body_iff none bs = ((λ h. absurd (cc h)), (λ ((e, same), closed). absurd (cc same)))
body_iff (some e) bs =
    ((λ h. ((e, refl), (blocks_iff bs).0 h)), (λ (entry, closed). (blocks_iff bs).1 closed))

func_iff : (f : IrFunc) → (ir_func_validate_cfg f ≡ true) ↔ IsValidFunc f
unfolding ir_func_validate_cfg
func_iff f = elim (Bool-cases f.is_prototype) [
  | inl prototype ↦ ((λ h. inl prototype), (λ valid. simp prototype))
  | inr body ↦ (
    (λ h. inr ((body_iff f.entry f.blocks).0 (simp body at h))),
    (λ valid. elim valid [
      | inl prototype ↦ absurd (cc (body, prototype))
      | inr ok ↦ simp body ((body_iff f.entry f.blocks).1 ok)
    ]),
  )
]

funcs_iff : (fs : List IrFunc) → (validate_funcs fs ≡ true) ↔ AllValid fs
unfolding validate_funcs
funcs_iff [] = ((λ h. tt), (λ h. refl))
funcs_iff (f ∷ fs) = elim (Bool-cases (ir_func_validate_cfg f)) [
  | inl fine ↦ (
    (λ h. ((func_iff f).0 fine, (funcs_iff fs).0 (rw fine at h))),
    (λ (valid, rest). rw fine ((funcs_iff fs).1 rest)),
  )
  | inr bad ↦
      ((λ h. absurd (cc (rw bad at h))), (λ (valid, rest). absurd (cc (bad, (func_iff f).1 valid))))
]

-- The check accepts a module just when each function is a prototype, or has an entry and every block
-- of it ends in a jump to a block, a branch to two, or a return of at most one value.
pub validate_cfg_iff : (m : IrModule) → (ir_module_validate_cfg m ≡ true) ↔ AllValid m.funcs
unfolding ir_module_validate_cfg
validate_cfg_iff m = funcs_iff m.funcs
