-- ===== src/Canon/Value.antt =====
-- What the canonicalisation pass (src/middleend/ir_canon.c) keeps: the value of every instruction.
use mathlib.Core.Option.{some-injective}
use mathlib.Core.List.{Perm}
use mathlib.Core.List.Perm
use native.Mathlib.Nat.{mul_comm}
use baa.Base.{
  ℕ, ◌≡◌, refl, sym, ap, ap₂, ◌∙◌, subst, inl, inr, Bool, true, Option, none, some, List, [], ◌∷◌,
  arith, Bool-cases, Option-cases, suc,
}
use baa.Base.Int.{ℤ, pos, negsuc, sub_ℕ, ◌+ℤ◌, ◌*ℤ◌}
use baa.Base.Bits.{bit_and_comm, bit_or_comm, bit_xor_comm}
use baa.Ir.Types.{IrType}
use baa.Ir.Inst.{IrOp, IrCmpPred, IrValue, IrInst, IrBlock, IrFunc}
use baa.Ir.Eval.{
  Env, values, op_value, inst_value, or_word, arith_value, compares, payload_value, wrap_to,
  read_as, word_of,
}
use baa.Canon.{
  ir_op_is_commutative, ir_cmp_is_swappable, ir_cmp_swap_pred, out_of_order, canon_operands,
  with_operands, ir_canon_commutative_two_operand, ir_canon_cmp, is_cmp, canon_inst, canon_insts,
  canon_blocks, canon_body, canon_entered, ir_canon_func,
}

+ℤ_comm : (a b : ℤ) → a +ℤ b ≡ b +ℤ a
unfolding ◌+ℤ◌
+ℤ_comm a b = ap₂ sub_ℕ (omega arith) (omega arith)

*ℤ_comm : (a b : ℤ) → a *ℤ b ≡ b *ℤ a
unfolding ◌*ℤ◌
*ℤ_comm (pos a) (pos b) = ap pos (mul_comm a b)
*ℤ_comm (pos a) (negsuc b) = ap (sub_ℕ 0) (mul_comm a (suc b))
*ℤ_comm (negsuc a) (pos b) = ap (sub_ℕ 0) (mul_comm (suc a) b)
*ℤ_comm (negsuc a) (negsuc b) = ap pos (mul_comm (suc a) (suc b))

arith_value_comm :
    (op : IrOp) (t : IrType) (a b : ℕ)
    → ir_op_is_commutative op ≡ true
    → arith_value op t a b ≡ arith_value op t b a
unfolding arith_value ir_op_is_commutative
arith_value_comm IrOp.add t a b h =
    ap (λ (z : ℤ). some (wrap_to t z)) (+ℤ_comm (read_as t a) (read_as t b))
arith_value_comm IrOp.mul t a b h =
    ap (λ (z : ℤ). some (wrap_to t z)) (*ℤ_comm (read_as t a) (read_as t b))
arith_value_comm IrOp.and t a b h = ap (λ (n : ℕ). some (wrap_to t (pos n))) (bit_and_comm a b)
arith_value_comm IrOp.or t a b h = ap (λ (n : ℕ). some (wrap_to t (pos n))) (bit_or_comm a b)
arith_value_comm IrOp.xor t a b h = ap (λ (n : ℕ). some (wrap_to t (pos n))) (bit_xor_comm a b)
arith_value_comm _ t a b h = cc

-- The operands of a commutative operation may change places.
op_value_comm :
    (op : IrOp) (p : IrCmpPred) (t : IrType) (x y : Option ℕ) (rest : List (Option ℕ))
    → ir_op_is_commutative op ≡ true
    → op_value op p t (y ∷ x ∷ rest) ≡ op_value op p t (x ∷ y ∷ rest)
unfolding op_value ir_op_is_commutative
op_value_comm IrOp.cmp p t x y rest h = cc
op_value_comm op p t (some a) (some b) [] h = arith_value_comm op t b a h
op_value_comm op p t none none [] h = refl
op_value_comm op p t none (some b) [] h = refl
op_value_comm op p t (some a) none [] h = refl
op_value_comm op p t none none (z ∷ r) h = refl
op_value_comm op p t none (some b) (z ∷ r) h = refl
op_value_comm op p t (some a) none (z ∷ r) h = refl
op_value_comm op p t (some a) (some b) (z ∷ r) h = refl

compares-swap :
    (p : IrCmpPred) (a b : ℕ)
    → ir_cmp_is_swappable p ≡ true
    → compares (ir_cmp_swap_pred p) b a ≡ compares p a b
unfolding compares ir_cmp_is_swappable ir_cmp_swap_pred
compares-swap IrCmpPred.eq a b h = ground arith
compares-swap IrCmpPred.ne a b h = ground arith
compares-swap IrCmpPred.gt a b h = refl
compares-swap IrCmpPred.lt a b h = refl
compares-swap IrCmpPred.ge a b h = refl
compares-swap IrCmpPred.le a b h = refl
compares-swap _ a b h = cc

op_value-swap :
    (p : IrCmpPred) (t : IrType) (x y : Option ℕ) (rest : List (Option ℕ))
    → ir_cmp_is_swappable p ≡ true
    → op_value IrOp.cmp (ir_cmp_swap_pred p) t (y ∷ x ∷ rest) ≡ op_value IrOp.cmp p t (x ∷ y ∷ rest)
unfolding op_value
op_value-swap p t (some a) (some b) [] h =
    ap (λ (c : Bool). some (word_of c)) (compares-swap p a b h)
op_value-swap p t none none [] h = refl
op_value-swap p t none (some b) [] h = refl
op_value-swap p t (some a) none [] h = refl
op_value-swap p t none none (z ∷ r) h = refl
op_value-swap p t none (some b) (z ∷ r) h = refl
op_value-swap p t (some a) none (z ∷ r) h = refl
op_value-swap p t (some a) (some b) (z ∷ r) h = refl

-- An instruction that differs from another in the order of its operands and, with it, in its
-- predicate, and has the same value in every environment.
pub record IsReordered (i j : IrInst) : Type 0 where
  pub operands : Perm j.operands i.operands
  pub rest : j ≡ record i { operands = j.operands; cmp_pred = j.cmp_pred }
  pub value : (e : Env) → inst_value e j ≡ inst_value e i

abbrev pub AllReordered : List IrInst → List IrInst → Type 0
AllReordered [] [] = Unit
AllReordered (i ∷ is) (j ∷ js) = IsReordered i j × AllReordered is js
AllReordered _ _ = ⊥

abbrev pub BlocksReordered : List IrBlock → List IrBlock → Type 0
BlocksReordered [] [] = Unit
BlocksReordered (b ∷ bs) (c ∷ cs) =
    (c ≡ record b { insts = c.insts }) × AllReordered b.insts c.insts × BlocksReordered bs cs
BlocksReordered _ _ = ⊥

-- Only the instructions of the blocks and the function's epoch differ.
pub record FuncReordered (f g : IrFunc) : Type 0 where
  pub blocks : BlocksReordered f.blocks g.blocks
  pub rest : g ≡ record f { blocks = g.blocks; ir_epoch = g.ir_epoch }

IsReordered-refl : (i : IrInst) → IsReordered i i
IsReordered-refl i = record { operands = Perm.refl i.operands; rest = refl; value = λ e. refl }

-- The operands that are put in order: the same ones, the first two changed over.
canon_operands-eq_some :
    (vs ws : List IrValue)
    → canon_operands vs ≡ some ws
    → (a : IrValue) × (b : IrValue) × (r : List IrValue) × (vs ≡ a ∷ b ∷ r) × (b ∷ a ∷ r ≡ ws)
unfolding canon_operands
canon_operands-eq_some [] ws h = cc
canon_operands-eq_some (a ∷ []) ws h = cc
canon_operands-eq_some (a ∷ b ∷ r) ws h = elim (Bool-cases (out_of_order a.payload b.payload)) [
  | inl out ↦ (a, b, r, refl, some-injective _ ws (rw out at h))
  | inr fine ↦ cc (rw fine at h)
]

IsReordered-swap :
    (i : IrInst) (p : IrCmpPred) (ws : List IrValue)
    → canon_operands i.operands ≡ some ws
    → ((t : IrType) (x y : Option ℕ) (r : List (Option ℕ))
        → op_value i.op p t (y ∷ x ∷ r) ≡ op_value i.op i.cmp_pred t (x ∷ y ∷ r))
    → IsReordered i (record i { operands = ws; cmp_pred = p })
unfolding inst_value
IsReordered-swap i p ws moved law =
    let (a, b, r, from, to) = canon_operands-eq_some i.operands ws moved in
    record {
      operands =
          subst (λ (us : List IrValue). Perm us i.operands) to
            (subst (Perm (b ∷ a ∷ r)) (sym from) (Perm.swap a b r));
      rest = refl;
      value = λ e.
          ap (λ (us : List IrValue). op_value i.op p (or_word i.type) (values e us)) (sym to)
          ∙ law (or_word i.type) (payload_value e a.payload) (payload_value e b.payload)
              (values e r)
          ∙ ap (λ (us : List IrValue). op_value i.op i.cmp_pred (or_word i.type) (values e us))
              (sym from);
    }

commutative-IsReordered :
    (i : IrInst)
    → ir_op_is_commutative i.op ≡ true
    → IsReordered i (ir_canon_commutative_two_operand i).0
unfolding ir_canon_commutative_two_operand
commutative-IsReordered i op = elim (Option-cases (canon_operands i.operands)) [
  | inl fine ↦ rw (fine, with_operands) (IsReordered-refl i)
  | inr (ws, moved) ↦
      rw (moved, with_operands)
        (IsReordered-swap i i.cmp_pred ws moved
          (λ t x y r. op_value_comm i.op i.cmp_pred t x y r op))
]

is_cmp-eq : (op : IrOp) → is_cmp op ≡ true → op ≡ IrOp.cmp
is_cmp-eq IrOp.cmp h = refl
is_cmp-eq _ h = cc

cmp-IsReordered : (i : IrInst) → is_cmp i.op ≡ true → IsReordered i (ir_canon_cmp i).0
unfolding ir_canon_cmp
cmp-IsReordered i op = elim (Bool-cases (ir_cmp_is_swappable i.cmp_pred)) [
  | inr fixed ↦ rw fixed (IsReordered-refl i)
  | inl swappable ↦ elim (Option-cases (canon_operands i.operands)) [
    | inl fine ↦ simp (swappable, fine) (IsReordered-refl i)
    | inr (ws, moved) ↦
        simp (swappable, moved)
          (IsReordered-swap i (ir_cmp_swap_pred i.cmp_pred) ws moved (λ t x y r.
            subst
              (λ (o : IrOp).
                op_value o (ir_cmp_swap_pred i.cmp_pred) t (y ∷ x ∷ r)
                ≡ op_value o i.cmp_pred t (x ∷ y ∷ r))
              (sym (is_cmp-eq i.op op)) (op_value-swap i.cmp_pred t x y r swappable)))
  ]
]

canon_inst-IsReordered : (i : IrInst) → IsReordered i (canon_inst i).0
unfolding canon_inst
canon_inst-IsReordered i = elim (Bool-cases (ir_op_is_commutative i.op)) [
  | inl op ↦ simp op (commutative-IsReordered i op)
  | inr other ↦ elim (Bool-cases (is_cmp i.op)) [
    | inl op ↦ simp (other, op) (cmp-IsReordered i op)
    | inr left_alone ↦ simp (other, left_alone) (IsReordered-refl i)
  ]
]

canon_insts-AllReordered : (is : List IrInst) → AllReordered is (canon_insts is).0
unfolding canon_insts
canon_insts-AllReordered [] = tt
canon_insts-AllReordered (i ∷ is) = (canon_inst-IsReordered i, canon_insts-AllReordered is)

canon_blocks-BlocksReordered : (bs : List IrBlock) → BlocksReordered bs (canon_blocks bs).0
unfolding canon_blocks
canon_blocks-BlocksReordered [] = tt
canon_blocks-BlocksReordered (b ∷ bs) =
    (refl, canon_insts-AllReordered b.insts, canon_blocks-BlocksReordered bs)

AllReordered-refl : (is : List IrInst) → AllReordered is is
AllReordered-refl [] = tt
AllReordered-refl (i ∷ is) = (IsReordered-refl i, AllReordered-refl is)

BlocksReordered-refl : (bs : List IrBlock) → BlocksReordered bs bs
BlocksReordered-refl [] = tt
BlocksReordered-refl (b ∷ bs) = (refl, AllReordered-refl b.insts, BlocksReordered-refl bs)

FuncReordered-refl : (f : IrFunc) → FuncReordered f f
FuncReordered-refl f = record { blocks = BlocksReordered-refl f.blocks; rest = refl }

canon_body-FuncReordered : (f : IrFunc) → FuncReordered f (canon_body f).0
unfolding canon_body
canon_body-FuncReordered f = elim (Bool-cases (canon_blocks f.blocks).1) [
  | inl changed ↦
      simp changed (record { blocks = canon_blocks-BlocksReordered f.blocks; rest = refl })
  | inr same ↦ simp same (record { blocks = canon_blocks-BlocksReordered f.blocks; rest = refl })
]

canon_entered-FuncReordered : (o : Option ℕ) (f : IrFunc) → FuncReordered f (canon_entered o f).0
unfolding canon_entered
canon_entered-FuncReordered none f = FuncReordered-refl f
canon_entered-FuncReordered (some _) f = canon_body-FuncReordered f

-- For every function, the pass keeps the blocks and instructions in order, and changes in an
-- instruction at most the order of the operands and, with it, the predicate of a comparison, so that
-- the instruction has the same value in every environment; else only the function's epoch changes.
pub canon_func-FuncReordered : (f : IrFunc) → FuncReordered f (ir_canon_func f).0
unfolding ir_canon_func
canon_func-FuncReordered f = elim (Bool-cases f.is_prototype) [
  | inl prototype ↦ simp prototype (FuncReordered-refl f)
  | inr body ↦ simp body (canon_entered-FuncReordered f.entry f)
]
