-- ===== src/InstCombine/Meaning.antt =====
-- A simplified instruction computes what it did before (src/middleend/ir_instcombine.c).
use mathlib.Core.Option
use mathlib.Core.Option.{some-injective}
use Prim.Native.String.{String}
use baa.Base.{
  ℕ, ◌≡◌, refl, sym, ap, ◌∙◌, subst, inl, inr, Bool, true, false, Option, none, some, [], ◌∷◌,
  arith, ==_iff, Bool-cases, ◌||◌,
}
use baa.Base.Int.{pos}
use baa.Base.Word.{IsWord}
use baa.Ir.Types.{IrType}
use baa.Ir.Inst.{IrOp, Name, IrValueData, IrValue, IrInst}
use baa.Ir.Eval.{
  Env, op_value, inst_value, or_word, payload_value, arith_value, unary_value, word_of, compares,
  wrap_to,
}
use baa.ConstFold.{is_f64}
use baa.InstCombine.Identities.{
  IsScalar, wrap-ic_trunc, wrap-bit, self_cmp_value, add_zero_value, sub_zero_value, mul_one_value,
  mul_zero_value, and_zero_value, or_zero_value,
}
use baa.InstCombine.{
  or_type, ic_trunc_to_type, ic_const, ic_copy_of, ic_rewrite_to_copy, ic_new_const_for_type,
  clone_payload, simplify_binary, simplify_cmp, is_const, cmp_same, self_cmp,
}

word_of-IsWord : (b : Bool) → IsWord (word_of b)
word_of-IsWord true = omega arith
word_of-IsWord false = omega arith

map-eq_some :
    (f : IrValue → IrInst) (o : Option IrValue) (j : IrInst)
    → Option.map f o ≡ some j
    → (v : IrValue) × (o ≡ some v) × (f v ≡ j)
map-eq_some f none j h = cc
map-eq_some f (some v) j h = (v, refl, some-injective (f v) j h)

-- The words that an environment holds are 64-bit words, and copies of a name read alike.
module _ (strdup : Name → Name) (strdup_text : (n : Name) → (strdup n).text ≡ n.text)
    (e : Env) where
  clone_value :
      (own t : Option IrType) (d : IrValueData) (v : IrValue) (x : ℕ)
      → clone_payload strdup own t d ≡ some v
      → payload_value e d ≡ some x
      → payload_value e v.payload ≡ some x
  unfolding clone_payload payload_value
  clone_value own t (IrValueData.const_int c) v x h at =
      ap (λ (w : IrValue). payload_value e w.payload) (sym (some-injective _ v h)) ∙ at
  clone_value own t (IrValueData.const_str s id) v x h at =
      ap (λ (w : IrValue). payload_value e w.payload) (sym (some-injective _ v h)) ∙ at
  clone_value own t (IrValueData.baa_str s id) v x h at =
      ap (λ (w : IrValue). payload_value e w.payload) (sym (some-injective _ v h)) ∙ at
  clone_value own t (IrValueData.reg r) v x h at =
      ap (λ (w : IrValue). payload_value e w.payload) (sym (some-injective _ v h)) ∙ at
  clone_value own t (IrValueData.global (some n)) v x h at =
      ap (λ (w : IrValue). payload_value e w.payload) (sym (some-injective _ v h))
      ∙ ap (λ (s : String). some (e.global s)) (strdup_text n)
      ∙ at
  clone_value own t (IrValueData.func (some n)) v x h at =
      ap (λ (w : IrValue). payload_value e w.payload) (sym (some-injective _ v h))
      ∙ ap (λ (s : String). some (e.func s)) (strdup_text n)
      ∙ at
  clone_value own t _ v x h at = cc

  -- An instruction that was rewritten to a copy of a value.
  rewritten_value :
      (inst : IrInst) (src : IrValue) (x : ℕ)
      → payload_value e src.payload ≡ some x
      → inst_value e (ic_rewrite_to_copy inst src) ≡ some (wrap_to (or_word inst.type) (pos x))
  unfolding inst_value ic_rewrite_to_copy op_value unary_value
  rewritten_value inst src x h = rw h

  copy_value :
      (inst : IrInst) (a : IrValue) (j : IrInst) (x : ℕ)
      → ic_copy_of strdup inst a ≡ some j
      → payload_value e a.payload ≡ some x
      → inst_value e j ≡ some (wrap_to (or_word inst.type) (pos x))
  unfolding ic_copy_of
  copy_value inst a j x h at =
      let (v, cloned, same) =
        map-eq_some (ic_rewrite_to_copy inst)
          (clone_payload strdup a.type (or_type inst.type a.type) a.payload) j h in
      subst (λ (k : IrInst). inst_value e k ≡ some (wrap_to (or_word inst.type) (pos x))) same
        (rewritten_value inst v x
          (clone_value a.type (or_type inst.type a.type) a.payload v x cloned at))

  pub const_value :
      (inst : IrInst) (w : ℕ) (j : IrInst)
      → IsScalar inst.type
      → IsWord w
      → ic_const inst w ≡ some j
      → inst_value e j ≡ some (wrap_to (or_word inst.type) (pos w))
  unfolding ic_const payload_value
  const_value inst w j scalar h made =
      let src = ic_new_const_for_type w inst.type in
      subst (λ (k : IrInst). inst_value e k ≡ some (wrap_to (or_word inst.type) (pos w)))
        (some-injective _ j made)
        (rewritten_value inst src (ic_trunc_to_type w inst.type) refl
          ∙ ap some (wrap-ic_trunc inst.type w scalar h))

  module _ (inst : IrInst) (scalar : IsScalar inst.type) (a b : IrValue) (x y v : ℕ)
      (j : IrInst) where
    -- What a rewriting has to keep, for the operation and two operands.
    abbrev pub Keeps : IrOp → Option IrInst → Type 0
    Keeps op r =
        payload_value e a.payload ≡ some x
        → payload_value e b.payload ≡ some y
        → IsWord x
        → IsWord y
        → r ≡ some j
        → op_value op inst.cmp_pred (or_word inst.type) (some x ∷ some y ∷ []) ≡ some v
        → inst_value e j ≡ some v

    is_const-value :
        (c : ℕ) (d : IrValueData) (z : ℕ) → is_const c d ≡ true → payload_value e d ≡ some z → z ≡ c
    unfolding payload_value
    is_const-value c (IrValueData.const_int k) z h at =
        sym (some-injective k z at) ∙ (==_iff k c).0 h
    is_const-value c (IrValueData.reg r) z h at = cc
    is_const-value c _ z h at = cc

    copy_if :
        (op : IrOp) (c : ℕ)
        → ((z : ℕ)
            → IsWord z
            → op_value op inst.cmp_pred (or_word inst.type) (some z ∷ some c ∷ [])
              ≡ some (wrap_to (or_word inst.type) (pos z)))
        → is_const c b.payload ≡ true
        → Keeps op (ic_copy_of strdup inst a)
    copy_if op c law is_c px py hx hy made value =
        let y_c = is_const-value c b.payload y is_c py in
        copy_value inst a j x made px
        ∙ sym (law x hx)
        ∙ ap (λ (z : ℕ). op_value op inst.cmp_pred (or_word inst.type) (some x ∷ some z ∷ []))
            (sym y_c)
        ∙ value

    zero_if :
        (op : IrOp)
        → ((z : ℕ)
            → IsWord z
            → op_value op inst.cmp_pred (or_word inst.type) (some z ∷ some 0 ∷ [])
              ≡ some (wrap_to (or_word inst.type) (pos 0)))
        → is_const 0 b.payload ≡ true
        → Keeps op (ic_const inst 0)
    zero_if op law is_c px py hx hy made value =
        let y_c = is_const-value 0 b.payload y is_c py in
        const_value inst 0 j scalar (omega arith) made
        ∙ sym (law x hx)
        ∙ ap (λ (z : ℕ). op_value op inst.cmp_pred (or_word inst.type) (some x ∷ some z ∷ []))
            (sym y_c)
        ∙ value

    cmp_same-value :
        (c d : IrValueData)
        → cmp_same c d ≡ true
        → payload_value e c ≡ some x
        → payload_value e d ≡ some y
        → y ≡ x
    unfolding payload_value
    cmp_same-value (IrValueData.reg r) (IrValueData.reg s) h px py =
        sym (some-injective _ y py) ∙ sym (ap e.reg ((==_iff r s).0 h)) ∙ some-injective _ x px
    cmp_same-value (IrValueData.const_int c) (IrValueData.const_int d) h px py =
        sym (some-injective d y py) ∙ sym ((==_iff c d).0 h) ∙ some-injective c x px
    cmp_same-value _ _ h px py = cc

    cmp-Keeps : Keeps IrOp.cmp (simplify_cmp inst a b)
    unfolding simplify_cmp op_value
    cmp-Keeps px py hx hy made value = elim (Bool-cases (is_f64 a.type || is_f64 b.type)) [
      | inl float ↦ cc (rw float at made)
      | inr int ↦ elim (Bool-cases (cmp_same a.payload b.payload)) [
        | inl same ↦
            let y_x = cmp_same-value a.payload b.payload same px py in
            let bit = self_cmp_value inst.cmp_pred x in
            const_value inst (self_cmp inst.cmp_pred) j scalar
              (subst IsWord bit (word_of-IsWord (compares inst.cmp_pred x x)))
              (rw (int, same) at made)
            ∙ ap (λ (z : ℕ). some (wrap_to (or_word inst.type) (pos z))) (sym bit)
            ∙ ap some (wrap-bit (or_word inst.type) (compares inst.cmp_pred x x))
            ∙ ap (λ (z : ℕ). some (word_of (compares inst.cmp_pred x z))) (sym y_x)
            ∙ value
        | inr other ↦ cc (rw (int, other) at made)
      ]
    ]

    pub binary-Keeps : (op : IrOp) → Keeps op (simplify_binary strdup op inst a b)
    unfolding simplify_binary op_value arith_value
    binary-Keeps IrOp.add px py hx hy made value = elim (Bool-cases (is_const 0 b.payload)) [
      | inl c ↦
          copy_if IrOp.add 0 (add_zero_value (or_word inst.type)) c px py hx hy (rw c at made) value
      | inr n ↦ cc (rw n at made)
    ]
    binary-Keeps IrOp.sub px py hx hy made value = elim (Bool-cases (is_const 0 b.payload)) [
      | inl c ↦
          copy_if IrOp.sub 0 (sub_zero_value (or_word inst.type)) c px py hx hy (rw c at made) value
      | inr n ↦ cc (rw n at made)
    ]
    binary-Keeps IrOp.mul px py hx hy made value = elim (Bool-cases (is_const 1 b.payload)) [
      | inl c ↦
          copy_if IrOp.mul 1 (mul_one_value (or_word inst.type)) c px py hx hy (rw c at made) value
      | inr n ↦ elim (Bool-cases (is_const 0 b.payload)) [
        | inl c ↦
            zero_if IrOp.mul (mul_zero_value (or_word inst.type)) c px py hx hy (rw (n, c) at made)
              value
        | inr m ↦ cc (rw (n, m) at made)
      ]
    ]
    binary-Keeps IrOp.and px py hx hy made value = elim (Bool-cases (is_const 0 b.payload)) [
      | inl c ↦
          zero_if IrOp.and (λ z _. and_zero_value (or_word inst.type) z) c px py hx hy
            (rw c at made) value
      | inr n ↦ cc (rw n at made)
    ]
    binary-Keeps IrOp.or px py hx hy made value = elim (Bool-cases (is_const 0 b.payload)) [
      | inl c ↦
          copy_if IrOp.or 0 (λ z _. or_zero_value (or_word inst.type) z) c px py hx hy
            (rw c at made) value
      | inr n ↦ cc (rw n at made)
    ]
    binary-Keeps IrOp.cmp px py hx hy made value = cmp-Keeps px py hx hy made value
    binary-Keeps _ px py hx hy made value = cc
