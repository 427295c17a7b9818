-- ===== src/Cfg/Leads.antt =====
-- Where the terminators of src/middleend/ir_analysis.c lead, apart from the walk that collects it.
use baa.Base.{
  ℕ, ◌≡◌, refl, sym, ◌∙◌, ap, ◌⊎◌, inl, inr, true, false, ◌||◌, some, List, [], ◌∷◌, ◌++◌, ◌==◌,
  ==_iff, Bool-cases,
}
use baa.Ir.Inst.{IrOp, IrValueData, IrValue, IrInst, IrBlock}
use baa.RegAlloc.Convention.{one_of}
use baa.Liveness.Flow.{either_true, or_left, or_right}
use baa.Cfg.{ir_block_from_block_value, last_inst}
use baa.Cfg.Edges.{target_list, op_targets, targets}

-- The operands send control to the block s: the first of a jump, and the second or third of a branch.
pub data SendsTo (s : ℕ) : IrOp → List IrValue → Type 0 where
  jump :
      (v : IrValue) (rest : List IrValue)
      → v.payload ≡ IrValueData.block s
      → SendsTo s IrOp.br (v ∷ rest)
  if_true :
      (c v : IrValue) (rest : List IrValue)
      → v.payload ≡ IrValueData.block s
      → SendsTo s IrOp.br_cond (c ∷ v ∷ rest)
  if_false :
      (c t v : IrValue) (rest : List IrValue)
      → v.payload ≡ IrValueData.block s
      → SendsTo s IrOp.br_cond (c ∷ t ∷ v ∷ rest)

-- The last of the instructions sends control to the block s.
abbrev pub EndsWith : ℕ → List IrInst → Type 0
EndsWith s is =
    (before : List IrInst) × (i : IrInst) × (is ≡ before ++ i ∷ []) × SendsTo s i.op i.operands

-- The block b ends with a jump or branch to the block s.
abbrev pub Leads : List IrBlock → ℕ → ℕ → Type 0
Leads [] b s = ⊥
Leads (c ∷ cs) b s = ((c.id ≡ b) × EndsWith s c.insts) ⊎ Leads cs b s

target_here :
    (s : ℕ) (v : IrValue)
    → v.payload ≡ IrValueData.block s
    → one_of s (target_list (ir_block_from_block_value v.payload)) ≡ true
target_here s v e = rw e (or_left (s == s) false ((==_iff s s).1 refl))

target_back :
    (s : ℕ) (d : IrValueData)
    → one_of s (target_list (ir_block_from_block_value d)) ≡ true
    → d ≡ IrValueData.block s
target_back s (IrValueData.block n) h = elim (either_true (n == s) false h) [
  | inl e ↦ ap IrValueData.block ((==_iff n s).0 e)
  | inr e ↦ cc
]
target_back s _ h = cc

one_of_split : (s : ℕ) (xs ys : List ℕ) → one_of s (xs ++ ys) ≡ (one_of s xs || one_of s ys)
one_of_split s [] ys = refl
one_of_split s (x ∷ xs) ys = elim (Bool-cases (x == s)) [
  | inl here ↦ rw here refl
  | inr other ↦ rw other (one_of_split s xs ys)
]

SendsTo-targets :
    (s : ℕ) (op : IrOp) (vs : List IrValue) → SendsTo s op vs → one_of s (op_targets op vs) ≡ true
SendsTo-targets s _ _ (SendsTo.jump v rest e) = target_here s v e
SendsTo-targets s _ _ (SendsTo.if_true c v [] e) = target_here s v e
SendsTo-targets s _ _ (SendsTo.if_true c v (w ∷ rest) e) =
    one_of_split s (target_list (ir_block_from_block_value v.payload)) _
    ∙ or_left (one_of s (target_list (ir_block_from_block_value v.payload))) _ (target_here s v e)
SendsTo-targets s _ _ (SendsTo.if_false c t v rest e) =
    one_of_split s (target_list (ir_block_from_block_value t.payload)) _
    ∙ or_right (one_of s (target_list (ir_block_from_block_value t.payload))) _ (target_here s v e)

targets-SendsTo :
    (s : ℕ) (op : IrOp) (vs : List IrValue) → one_of s (op_targets op vs) ≡ true → SendsTo s op vs
targets-SendsTo s IrOp.br [] h = cc
targets-SendsTo s IrOp.br (v ∷ vs) h = SendsTo.jump v vs (target_back s v.payload h)
targets-SendsTo s IrOp.br_cond [] h = cc
targets-SendsTo s IrOp.br_cond (c ∷ []) h = cc
targets-SendsTo s IrOp.br_cond (c ∷ v ∷ []) h = SendsTo.if_true c v [] (target_back s v.payload h)
targets-SendsTo s IrOp.br_cond (c ∷ t ∷ v ∷ rest) h =
    let first = target_list (ir_block_from_block_value t.payload) in
    let second = target_list (ir_block_from_block_value v.payload) in
    elim (either_true (one_of s first) (one_of s second) (sym (one_of_split s first second) ∙ h)) [
      | inl e ↦ SendsTo.if_true c t (v ∷ rest) (target_back s t.payload e)
      | inr e ↦ SendsTo.if_false c t v rest (target_back s v.payload e)
    ]
targets-SendsTo s _ vs h = cc

last_inst-append : (before : List IrInst) (i : IrInst) → last_inst (before ++ i ∷ []) ≡ some i
last_inst-append [] i = refl
last_inst-append (j ∷ []) i = refl
last_inst-append (j ∷ k ∷ rest) i = last_inst-append (k ∷ rest) i

pub EndsWith-targets :
    (s : ℕ) (is : List IrInst) → EndsWith s is → one_of s (targets (last_inst is)) ≡ true
unfolding targets
EndsWith-targets s is (before, i, e, sends) =
    rw (e, last_inst-append before i) (SendsTo-targets s i.op i.operands sends)

pub targets-EndsWith :
    (s : ℕ) (is : List IrInst) → one_of s (targets (last_inst is)) ≡ true → EndsWith s is
unfolding targets
targets-EndsWith s [] h = cc
targets-EndsWith s (i ∷ []) h = ([], i, refl, targets-SendsTo s i.op i.operands h)
targets-EndsWith s (i ∷ j ∷ rest) h =
    let (before, k, e, sends) = targets-EndsWith s (j ∷ rest) h in
    (i ∷ before, k, ap (◌∷◌ i) e, sends)
