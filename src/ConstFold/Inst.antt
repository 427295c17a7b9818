-- ===== src/ConstFold/Inst.antt =====
-- One folded instruction (`ir_try_fold_inst` of src/middleend/ir_constfold.c): when it is folded,
-- and that the value is the one that the instruction computes.
use mathlib.Core.Option
use mathlib.Core.Option.{some-injective}
use baa.Base.{
  ℕ, ◌≡◌, refl, ap, sym, subst, ◌∙◌, inl, inr, Bool, true, false, Option, none, some, List, [], ◌∷◌,
  arith, Bool-cases, Option-cases,
}
use baa.Base.Word.{IsWord}
use baa.Ir.Types.{IrType}
use baa.Ir.Inst.{IrOp, IrCmpPred, IrValueData, IrValue, IrInst}
use baa.Ir.Build.{or_i64}
use baa.Ir.Eval.{
  Env, values, op_value, inst_value, or_word, payload_value, arith_value, word_of, compares,
}
use baa.ConstFold.{
  Folded, const_of, both, arith_folded, first_consts, fold_arith, fold_cmp, fold_op,
  ir_try_fold_inst, is_int_type, try_fold_arith, trunc_wrap_to_type, eval_cmp, to_int, f64_operand,
}
use baa.ConstFold.Trunc.{trunc_idem}
use baa.ConstFold.Arith.{fold_arith_value, eval_cmp-compares, is_folded_op}

-- An integer constant is a 64-bit word.
abbrev pub IsWordConst : IrValueData → Type 0
IsWordConst (IrValueData.const_int c) = IsWord c
IsWordConst _ = Unit

abbrev pub AllWords : List IrValue → Type 0
AllWords [] = Unit
AllWords (v ∷ vs) = IsWordConst v.payload × AllWords vs

-- An instruction of one of the folded operations has two operands (the verifier demands it).
abbrev pub IsBinary : List IrValue → Type 0
IsBinary (a ∷ b ∷ []) = Unit
IsBinary _ = ⊥

const_of-eq_some :
    (e : Env) (d : IrValueData) (c : ℕ)
    → const_of d ≡ some c
    → IsWordConst d
    → (payload_value e d ≡ some c) × IsWord c
unfolding payload_value
const_of-eq_some e (IrValueData.const_int x) c h w = (h, subst IsWord (some-injective x c h) w)
const_of-eq_some e (IrValueData.reg r) c h w = cc
const_of-eq_some e _ c h w = cc

both-eq_some : (x y : Option ℕ) (a b : ℕ) → both x y ≡ some (a, b) → (x ≡ some a) × (y ≡ some b)
both-eq_some none y a b h = cc
both-eq_some (some u) none a b h = cc
both-eq_some (some u) (some v) a b h = ground arith

first_consts-values :
    (e : Env) (vs : List IrValue) (a b : ℕ)
    → first_consts vs ≡ some (a, b)
    → AllWords vs
    → IsBinary vs
    → (values e vs ≡ some a ∷ some b ∷ []) × IsWord a × IsWord b
first_consts-values e (x ∷ y ∷ []) a b h w two =
    let (p, q) = both-eq_some (const_of x.payload) (const_of y.payload) a b h in
    let (px, wa) = const_of-eq_some e x.payload a p w.0 in
    let (py, wb) = const_of-eq_some e y.payload b q w.1.0 in (rw (px, py), wa, wb)
first_consts-values e [] a b h w two = absurd two
first_consts-values e (x ∷ []) a b h w two = absurd two
first_consts-values e (x ∷ y ∷ z ∷ r) a b h w two = absurd two

-- What a folded value is: the register is the instruction's destination, the value is the one that
-- the instruction computes in every environment, and it stands for a value of its type.
pub record IsComputed (inst : IrInst) (f : Folded) : Type 0 where
  pub dest : inst.dest ≡ some f.reg
  pub value : (e : Env) → inst_value e inst ≡ some f.value
  pub settled : trunc_wrap_to_type f.value f.type ≡ f.value

or_i64-or_word : (t : Option IrType) → or_i64 t ≡ some (or_word t)
or_i64-or_word none = refl
or_i64-or_word (some t) = refl

op_value-arith :
    (op : IrOp) (p : IrCmpPred) (t : IrType) (a b : ℕ)
    → is_folded_op op ≡ true
    → op_value op p t (some a ∷ some b ∷ []) ≡ arith_value op t a b
unfolding op_value
op_value-arith IrOp.cmp p t a b h = cc
op_value-arith _ p t a b h = refl

arith_folded-eq_some :
    (d : ℕ) (t : Option IrType) (o : Option ℕ) (f : Folded)
    → arith_folded d t o ≡ some f
    → (v : ℕ) × (o ≡ some v) × (record { reg = d; type = t; value = trunc_wrap_to_type v t } ≡ f)
unfolding arith_folded
arith_folded-eq_some d t none f h = cc
arith_folded-eq_some d t (some v) f h = (v, refl, some-injective _ _ h)

arith_value-trunc :
    (op : IrOp) (t : Option IrType) (a b v : ℕ)
    → is_folded_op op ≡ true
    → IsWord a
    → IsWord b
    → try_fold_arith op (or_i64 t) a b ≡ some v
    → arith_value op (or_word t) a b ≡ some (trunc_wrap_to_type v (or_i64 t))
arith_value-trunc op t a b v folded wa wb h = rw (or_i64-or_word t) (
    sym (fold_arith_value op (or_word t) a b folded wa wb)
    ∙ ap (Option.map (λ x. trunc_wrap_to_type x (some (or_word t)))) (rw (or_i64-or_word t) at h))

op_value-cmp :
    (p : IrCmpPred) (t : IrType) (a b : ℕ)
    → op_value IrOp.cmp p t (some a ∷ some b ∷ []) ≡ some (word_of (compares p a b))
unfolding op_value
op_value-cmp p t a b = refl

word_of-eval_cmp :
    (p : IrCmpPred) (a b : ℕ)
    → IsWord a
    → IsWord b
    → word_of (compares p a b) ≡ to_int (eval_cmp p a b)
word_of-eval_cmp p a b wa wb = rw (eval_cmp-compares p a b wa wb) (to_int-word_of (compares p a b))
  where
    to_int-word_of : (x : Bool) → word_of x ≡ to_int x
    to_int-word_of true = refl
    to_int-word_of false = refl

trunc-to_int : (x : Bool) → trunc_wrap_to_type (to_int x) (some IrType.i1) ≡ to_int x
unfolding trunc_wrap_to_type
trunc-to_int true = refl
trunc-to_int false = refl

module _ (inst : IrInst) (f : Folded) (d : ℕ) (at : inst.dest ≡ some d) where
  IsComputed-of :
      (t : Option IrType) (v : ℕ)
      → record { reg = d; type = t; value = v } ≡ f
      → ((e : Env) → inst_value e inst ≡ some v)
      → trunc_wrap_to_type v t ≡ v
      → IsComputed inst f
  IsComputed-of t v same value settled =
      subst (IsComputed inst) same (record { dest = at; value = value; settled = settled })

  module _ (w : AllWords inst.operands) (two : IsBinary inst.operands) where
    fold_arith_sound :
        (o : Option (ℕ × ℕ))
        → first_consts inst.operands ≡ o
        → is_folded_op inst.op ≡ true
        → fold_arith inst d o ≡ some f
        → IsComputed inst f
    unfolding fold_arith inst_value
    fold_arith_sound none consts op h = cc
    fold_arith_sound (some (a, b)) consts op h =
        elim (Bool-cases (is_int_type (or_i64 inst.type))) [
          | inl int ↦
              let (v, o, same) =
                arith_folded-eq_some d (or_i64 inst.type)
                  (try_fold_arith inst.op (or_i64 inst.type) a b) f (rw int at h) in
              IsComputed-of (or_i64 inst.type) (trunc_wrap_to_type v (or_i64 inst.type)) same
                (λ e.
                  let (vals, wa, wb) = first_consts-values e inst.operands a b consts w two in
                  rw vals (
                    op_value-arith inst.op inst.cmp_pred (or_word inst.type) a b op
                    ∙ arith_value-trunc inst.op inst.type a b v op wa wb o))
                (trunc_idem (or_i64 inst.type) v)
          | inr other ↦ cc (rw other at h)
        ]

    fold_cmp_sound :
        (o : Option (ℕ × ℕ))
        → first_consts inst.operands ≡ o
        → inst.op ≡ IrOp.cmp
        → fold_cmp inst d o ≡ some f
        → IsComputed inst f
    unfolding fold_cmp inst_value
    fold_cmp_sound none consts op h = cc
    fold_cmp_sound (some (a, b)) consts op h = elim (Bool-cases (f64_operand inst.operands)) [
      | inl float ↦ cc (rw float at h)
      | inr int ↦
          IsComputed-of (some IrType.i1) (to_int (eval_cmp inst.cmp_pred a b))
            (some-injective _ _ (rw int at h))
            (λ e.
              let (vals, wa, wb) = first_consts-values e inst.operands a b consts w two in
              rw (vals, op)
                (op_value-cmp inst.cmp_pred (or_word inst.type) a b
                  ∙ ap some (word_of-eval_cmp inst.cmp_pred a b wa wb)))
            (trunc-to_int (eval_cmp inst.cmp_pred a b))
    ]

    fold_op_sound : (op : IrOp) → inst.op ≡ op → fold_op op inst d ≡ some f → IsComputed inst f
    unfolding fold_op
    fold_op_sound IrOp.add e h = fold_arith_sound (first_consts inst.operands) refl (rw e) h
    fold_op_sound IrOp.sub e h = fold_arith_sound (first_consts inst.operands) refl (rw e) h
    fold_op_sound IrOp.mul e h = fold_arith_sound (first_consts inst.operands) refl (rw e) h
    fold_op_sound IrOp.div e h = fold_arith_sound (first_consts inst.operands) refl (rw e) h
    fold_op_sound IrOp.rem e h = fold_arith_sound (first_consts inst.operands) refl (rw e) h
    fold_op_sound IrOp.cmp e h = fold_cmp_sound (first_consts inst.operands) refl e h
    fold_op_sound _ e h = cc

-- When an instruction with two operands, whose constants are 64-bit words, is folded, the register
-- is its destination, the value is the one that the instruction computes in every environment, and
-- truncating the value to its type changes nothing.
pub try_fold_inst-IsComputed :
    (inst : IrInst) (f : Folded)
    → AllWords inst.operands
    → IsBinary inst.operands
    → ir_try_fold_inst inst ≡ some f
    → IsComputed inst f
unfolding ir_try_fold_inst
try_fold_inst-IsComputed inst f w two h = elim (Option-cases inst.dest) [
  | inl no_dest ↦ cc (rw (no_dest, ir_try_fold_inst) at h)
  | inr (d, at) ↦ fold_op_sound inst f d at w two inst.op refl (rw (at, ir_try_fold_inst) at h)
]
