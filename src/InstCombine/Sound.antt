-- ===== src/InstCombine/Sound.antt =====
-- What a whole simplification of arithmetic keeps (`ic_simplify_arith` of
-- src/middleend/ir_instcombine.c).
use mathlib.Core.Option.{some-injective}
use baa.Base.{
  ℕ, ◌≡◌, refl, sym, ap, ◌∙◌, subst, inl, inr, Bool, true, false, Option, none, some, List, [], ◌∷◌,
  arith, if◌then◌else◌, ◌==◌, Bool-cases,
}
use baa.Base.Int.{pos}
use baa.Base.Word.{IsWord, sub64}
use baa.Ir.Types.{IrType}
use baa.Ir.Inst.{IrOp, IrCmpPred, Name, IrValueData, IrValue, IrInst}
use baa.Ir.Eval.{
  Env, values, op_value, inst_value, or_word, payload_value, unary_value, word_of, wrap_to,
}
use baa.ConstFold.{is_f64, is_i1}
use baa.InstCombine.Meaning.{binary-Keeps, const_value}
use baa.InstCombine.Identities.{IsScalar, wrap-bit, neg_value, sub64-IsWord}
use baa.InstCombine.{simplify_unary, simplify_operands, ic_simplify_arith}

-- Every operand has a 64-bit word, and there are at most two.
abbrev pub HasWord : Env → IrValue → Type 0
HasWord e v = (x : ℕ) × (payload_value e v.payload ≡ some x) × IsWord x

abbrev pub FewWords : Env → List IrValue → Type 0
FewWords e [] = Unit
FewWords e (a ∷ []) = HasWord e a
FewWords e (a ∷ b ∷ []) = HasWord e a × HasWord e b
FewWords e _ = ⊥

is_i1-eq : (t : Option IrType) → is_i1 t ≡ true → t ≡ some IrType.i1
is_i1-eq (some IrType.i1) h = refl
is_i1-eq none h = cc
is_i1-eq (some _) h = cc

op_value-one :
    (op : IrOp) (p : IrCmpPred) (t : IrType) (x : ℕ)
    → op_value op p t (some x ∷ []) ≡ unary_value op t x
unfolding op_value
op_value-one IrOp.cmp p t x = refl
op_value-one _ p t x = refl

module _ (strdup : Name → Name) (strdup_text : (n : Name) → (strdup n).text ≡ n.text)
    (e : Env) where
  bit-IsWord : (b : Bool) → IsWord (if b then 1 else 0)
  bit-IsWord true = omega arith
  bit-IsWord false = omega arith

  not_value :
      (t : Option IrType) (c : ℕ)
      → t ≡ some IrType.i1
      → unary_value IrOp.not (or_word t) c
        ≡ some (wrap_to (or_word t) (pos (if c == 0 then 1 else 0)))
  unfolding unary_value
  not_value t c same =
      subst
        (λ (u : Option IrType).
          unary_value IrOp.not (or_word u) c
          ≡ some (wrap_to (or_word u) (pos (if c == 0 then 1 else 0))))
        (sym same) (at_i1 (c == 0))
    where
      at_i1 : (b : Bool) → some (word_of b) ≡ some (wrap_to IrType.i1 (pos (if b then 1 else 0)))
      at_i1 true = ap some (sym (wrap-bit IrType.i1 true))
      at_i1 false = ap some (sym (wrap-bit IrType.i1 false))

  unary_keeps :
      (op : IrOp) (inst : IrInst) (d : IrValueData) (j : IrInst) (x v : ℕ)
      → IsScalar inst.type
      → payload_value e d ≡ some x
      → IsWord x
      → simplify_unary op inst d ≡ some j
      → unary_value op (or_word inst.type) x ≡ some v
      → inst_value e j ≡ some v
  unfolding simplify_unary payload_value
  unary_keeps IrOp.neg inst (IrValueData.const_int c) j x v scalar px hx made value =
      let same = some-injective c x px in
      const_value strdup strdup_text e inst (sub64 0 c) j scalar (sub64-IsWord 0 c) made
      ∙ sym (neg_value (or_word inst.type) c (subst IsWord (sym same) hx))
      ∙ ap (unary_value IrOp.neg (or_word inst.type)) same
      ∙ value
  unary_keeps IrOp.not inst (IrValueData.const_int c) j x v scalar px hx made value =
      elim (Bool-cases (is_i1 inst.type)) [
        | inl bit ↦
            let same = some-injective c x px in
            const_value strdup strdup_text e inst (if c == 0 then 1 else 0) j scalar
              (bit-IsWord (c == 0)) (simp bit at made)
            ∙ sym (not_value inst.type c (is_i1-eq inst.type bit))
            ∙ ap (unary_value IrOp.not (or_word inst.type)) same
            ∙ value
        | inr wide ↦ cc (simp wide at made)
      ]
  unary_keeps IrOp.neg inst _ j x v scalar px hx made value = cc
  unary_keeps IrOp.not inst _ j x v scalar px hx made value = cc
  unary_keeps _ inst d j x v scalar px hx made value = cc

  operands_keep :
      (inst : IrInst) (vs : List IrValue) (j : IrInst) (v : ℕ)
      → IsScalar inst.type
      → FewWords e vs
      → simplify_operands strdup inst vs ≡ some j
      → op_value inst.op inst.cmp_pred (or_word inst.type) (values e vs) ≡ some v
      → inst_value e j ≡ some v
  unfolding simplify_operands
  operands_keep inst [] j v scalar few made value = cc
  operands_keep inst (a ∷ []) j v scalar (x, px, hx) made value =
      unary_keeps inst.op inst a.payload j x v scalar px hx made (
        sym (op_value-one inst.op inst.cmp_pred (or_word inst.type) x)
        ∙ ap (λ (o : Option ℕ). op_value inst.op inst.cmp_pred (or_word inst.type) (o ∷ []))
            (sym px)
        ∙ value)
  operands_keep inst (a ∷ b ∷ []) j v scalar ((x, px, hx), (y, py, hy)) made value =
      binary-Keeps strdup strdup_text e inst scalar a b x y v j inst.op px py hx hy made
        (rw (px, py) at value)
  operands_keep inst (a ∷ b ∷ c ∷ r) j v scalar few made value = absurd few

-- Where copies of a name read as the name does: when an instruction with a scalar type and at most
-- two operands, each with a 64-bit word in the environment, is simplified and the reference gives it
-- a value there, the copy that it is rewritten to has the same value.
pub simplify_arith_sound :
    (strdup : Name → Name) (e : Env) (inst j : IrInst) (v : ℕ)
    → ((n : Name) → (strdup n).text ≡ n.text)
    → IsScalar inst.type
    → FewWords e inst.operands
    → ic_simplify_arith strdup inst ≡ some j
    → inst_value e inst ≡ some v
    → inst_value e j ≡ some v
unfolding ic_simplify_arith inst_value
simplify_arith_sound strdup e inst j v strdup_text scalar few made value =
    elim (Bool-cases (is_f64 inst.type)) [
      | inl float ↦ cc (simp float at made)
      | inr int ↦
          operands_keep strdup strdup_text e inst inst.operands j v scalar few (simp int at made)
            value
    ]
