-- ===== src/Dce/Successors.antt =====
-- The successors after the edges are built again are those of the terminators
-- (src/middleend/ir_analysis.c).
use baa.Base.{
  ℕ, ◌+◌, ◌≤◌, ◌<◌, ◌≡◌, ◌≢◌, refl, sym, ◌∙◌, ap, subst, inl, inr, true, false, ||-neither, Option,
  none, some, List, [], ◌∷◌, ◌++◌, foldl, if◌then◌else◌, ◌==◌, ==_iff, lt→ltb, length,
  length-append, Bool-cases, arith,
}
use mathlib.Core.List.{append_assoc, append-nil}
use baa.Ir.Inst.{IrOp, IrValue, IrInst, IrBlock}
use baa.Ir.Mutate.{edit_block, ir_block_add_succ, has_room}
use baa.RegAlloc.Convention.{one_of}
use baa.Liveness.Flow.{or_left, or_right}
use baa.Cfg.{ir_block_from_block_value, last_inst}
use baa.Cfg.Edges.{target_list, op_targets, clear_all, targets, rebuild_edges, mark_entry}
use baa.Cfg.Leads.{Leads, EndsWith-targets, targets-EndsWith}
use baa.Dce.Blocks.{succs_of}
use baa.Dce.Ids.{block_ids, add_succ-ids, add_succs-ids}

-- No two blocks have one id.
abbrev pub DistinctIds : List IrBlock → Type 0
DistinctIds [] = Unit
DistinctIds (b ∷ bs) = (one_of b.id (block_ids bs) ≡ false) × DistinctIds bs

edit_block-succs :
    (n k : ℕ) (change : IrBlock → IrBlock) (bs : List IrBlock)
    → ((b : IrBlock) → ((change b).id ≡ b.id) × ((change b).succs ≡ b.succs))
    → succs_of n (edit_block k change bs) ≡ succs_of n bs
unfolding edit_block
edit_block-succs n k change [] same = refl
edit_block-succs n k change (b ∷ bs) same = elim (Bool-cases (b.id == k)) [
  | inl here ↦ rw (here, (same b).0, (same b).1) refl
  | inr other ↦ rw (other, edit_block-succs n k change bs same) refl
]

abbrev with_succ : ℕ → IrBlock → IrBlock
with_succ s b = record b { succs = b.succs ++ s ∷ [] }

with_succ-here :
    (k s : ℕ) (bs : List IrBlock)
    → has_room k bs ≡ true
    → succs_of k (edit_block k (with_succ s) bs) ≡ succs_of k bs ++ s ∷ []
unfolding edit_block has_room
with_succ-here k s [] room = cc
with_succ-here k s (b ∷ bs) room = elim (Bool-cases (b.id == k)) [
  | inl here ↦ rw (here, here) refl
  | inr other ↦ rw (other, other) (with_succ-here k s bs (rw other at room))
]

with_succ-other :
    (n k s : ℕ) (bs : List IrBlock)
    → n ≢ k
    → succs_of n (edit_block k (with_succ s) bs) ≡ succs_of n bs
unfolding edit_block
with_succ-other n k s [] other = refl
with_succ-other n k s (b ∷ bs) other = elim (Bool-cases (b.id == k)) [
  | inl here ↦ elim (Bool-cases (b.id == n)) [
    | inl both ↦ absurd (other (sym ((==_iff b.id n).0 both) ∙ (==_iff b.id k).0 here))
    | inr no_n ↦ rw (here, no_n) refl
  ]
  | inr no_k ↦ rw (no_k, with_succ-other n k s bs other) refl
]

room_for :
    (k : ℕ) (bs : List IrBlock)
    → one_of k (block_ids bs) ≡ true
    → length (succs_of k bs) < 2
    → has_room k bs ≡ true
unfolding has_room
room_for k [] there few = cc
room_for k (b ∷ bs) there few = elim (Bool-cases (b.id == k)) [
  | inl here ↦ rw here (lt→ltb (length b.succs) 2 (rw here at few))
  | inr other ↦ rw other (room_for k bs (rw other at there) (rw other at few))
]

add_succ-here :
    (k s : ℕ) (bs : List IrBlock)
    → has_room k bs ≡ true
    → succs_of k (ir_block_add_succ k s bs) ≡ succs_of k bs ++ s ∷ []
unfolding ir_block_add_succ
add_succ-here k s bs room = rw room (
    edit_block-succs k s _ (edit_block k (with_succ s) bs) (λ b. (refl, refl))
    ∙ with_succ-here k s bs room)

add_succ-other :
    (n k s : ℕ) (bs : List IrBlock) → n ≢ k → succs_of n (ir_block_add_succ k s bs) ≡ succs_of n bs
unfolding ir_block_add_succ
add_succ-other n k s bs other = elim (Bool-cases (has_room k bs)) [
  | inr full ↦ rw full refl
  | inl room ↦ rw room (
      edit_block-succs n s _ (edit_block k (with_succ s) bs) (λ b. (refl, refl))
      ∙ with_succ-other n k s bs other)
]

abbrev add_all : ℕ → List IrBlock → List ℕ → List IrBlock
add_all k bs ts = foldl (λ bs' t. ir_block_add_succ k t bs') bs ts

add_all-other :
    (n k : ℕ) (ts : List ℕ) (bs : List IrBlock)
    → n ≢ k
    → succs_of n (add_all k bs ts) ≡ succs_of n bs
add_all-other n k [] bs other = refl
add_all-other n k (t ∷ ts) bs other =
    add_all-other n k ts (ir_block_add_succ k t bs) other ∙ add_succ-other n k t bs other

add_all-here :
    (k : ℕ) (ts : List ℕ) (bs : List IrBlock)
    → one_of k (block_ids bs) ≡ true
    → length (succs_of k bs) + length ts ≤ 2
    → succs_of k (add_all k bs ts) ≡ succs_of k bs ++ ts
add_all-here k [] bs there few = sym (append-nil (succs_of k bs))
add_all-here k (t ∷ ts) bs there few =
    let room = room_for k bs there (omega (arith, few)) in
    let added = add_succ-here k t bs room in
    let more = length-append {0} (succs_of k bs) (t ∷ []) in
    add_all-here k ts (ir_block_add_succ k t bs) (ap (one_of k) (add_succ-ids k t bs) ∙ there)
      (omega (arith, ap (λ (l : List ℕ). length l) added, more, few))
    ∙ (ap (λ (l : List ℕ). l ++ ts) added ∙ append_assoc (succs_of k bs) (t ∷ []) ts)

target_list-length : (o : Option ℕ) → length (target_list o) ≤ 1
target_list-length none = omega arith
target_list-length (some t) = omega arith

op_targets-length : (op : IrOp) (vs : List IrValue) → length (op_targets op vs) ≤ 2
op_targets-length IrOp.br [] = omega arith
op_targets-length IrOp.br (v ∷ vs) =
    omega (arith, target_list-length (ir_block_from_block_value v.payload))
op_targets-length IrOp.br_cond [] = omega arith
op_targets-length IrOp.br_cond (c ∷ []) = omega arith
op_targets-length IrOp.br_cond (c ∷ v ∷ []) =
    omega (arith, target_list-length (ir_block_from_block_value v.payload))
op_targets-length IrOp.br_cond (c ∷ t ∷ v ∷ rest) =
    let first = target_list (ir_block_from_block_value t.payload) in
    let second = target_list (ir_block_from_block_value v.payload) in
    omega (
      arith,
      length-append {0} first second,
      target_list-length (ir_block_from_block_value t.payload),
      target_list-length (ir_block_from_block_value v.payload),
    )
op_targets-length _ vs = omega arith

targets-length : (o : Option IrInst) → length (targets o) ≤ 2
unfolding targets
targets-length none = omega arith
targets-length (some i) = op_targets-length i.op i.operands

-- The targets of the block with the id.
abbrev pub block_targets : ℕ → List IrBlock → List ℕ
block_targets n [] = []
block_targets n (b ∷ bs) = if b.id == n then targets (last_inst b.insts) else block_targets n bs

rebuild_edges-other :
    (n : ℕ) (walk all : List IrBlock)
    → one_of n (block_ids walk) ≡ false
    → succs_of n (rebuild_edges walk all) ≡ succs_of n all
unfolding rebuild_edges
rebuild_edges-other n [] all absent = refl
rebuild_edges-other n (b ∷ bs) all absent =
    let (first, rest) = ||-neither (b.id == n) (one_of n (block_ids bs)) absent in
    let ts = targets (last_inst b.insts) in
    rebuild_edges-other n bs (add_all b.id all ts) rest
    ∙ add_all-other n b.id ts all (λ e. cc (first, (==_iff b.id n).1 (sym e)))

pub rebuild_edges-succs :
    (n : ℕ) (walk all : List IrBlock)
    → DistinctIds walk
    → one_of n (block_ids walk) ≡ true
    → one_of n (block_ids all) ≡ true
    → succs_of n all ≡ []
    → succs_of n (rebuild_edges walk all) ≡ block_targets n walk
unfolding rebuild_edges
rebuild_edges-succs n [] all distinct there inside empty = cc
rebuild_edges-succs n (b ∷ bs) all (single, distinct) there inside empty =
    let ts = targets (last_inst b.insts) in
    elim (Bool-cases (b.id == n)) [
      | inl here ↦
          let e = (==_iff b.id n).0 here in
          let none_yet : length (succs_of n all) ≡ 0 = ap (λ (l : List ℕ). length l) empty in
          rw here (
            rebuild_edges-other n bs (add_all b.id all ts)
              (subst (λ m. one_of m (block_ids bs) ≡ false) e single)
            ∙ (ap (λ m. succs_of n (add_all m all ts)) e
                ∙ (add_all-here n ts all inside
                      (omega (arith, none_yet, targets-length (last_inst b.insts)))
                    ∙ ap (λ (l : List ℕ). l ++ ts) empty)))
      | inr other ↦
          let apart : n ≢ b.id = λ e. cc (other, (==_iff b.id n).1 (sym e)) in
          rw other (
            rebuild_edges-succs n bs (add_all b.id all ts) distinct (rw other at there)
              (ap (one_of n) (add_succs-ids b.id ts all) ∙ inside)
              (add_all-other n b.id ts all apart ∙ empty))
    ]

pub clear_all-succs : (n : ℕ) (bs : List IrBlock) → succs_of n (clear_all bs) ≡ []
clear_all-succs n [] = refl
clear_all-succs n (b ∷ bs) = elim (Bool-cases (b.id == n)) [
  | inl here ↦ rw here refl
  | inr other ↦ rw other (clear_all-succs n bs)
]

pub mark_entry-succs :
    (n : ℕ) (e : Option ℕ) (bs : List IrBlock) → succs_of n (mark_entry e bs) ≡ succs_of n bs
mark_entry-succs n none bs = refl
mark_entry-succs n (some e) bs = edit_block-succs n e _ bs (λ b. (refl, refl))

pub block_targets-Leads :
    (b s : ℕ) (bs : List IrBlock) → one_of s (block_targets b bs) ≡ true → Leads bs b s
block_targets-Leads b s [] h = cc
block_targets-Leads b s (c ∷ cs) h = elim (Bool-cases (c.id == b)) [
  | inl here ↦ inl ((==_iff c.id b).0 here, targets-EndsWith s c.insts (rw here at h))
  | inr other ↦ inr (block_targets-Leads b s cs (rw other at h))
]

pub Leads-inside : (b s : ℕ) (bs : List IrBlock) → Leads bs b s → one_of b (block_ids bs) ≡ true
Leads-inside b s [] h = absurd h
Leads-inside b s (c ∷ cs) (inl (e, ends)) = or_left (c.id == b) _ ((==_iff c.id b).1 e)
Leads-inside b s (c ∷ cs) (inr later) = or_right (c.id == b) _ (Leads-inside b s cs later)

pub Leads-block_targets :
    (b s : ℕ) (bs : List IrBlock)
    → DistinctIds bs
    → Leads bs b s
    → one_of s (block_targets b bs) ≡ true
Leads-block_targets b s [] distinct h = absurd h
Leads-block_targets b s (c ∷ cs) distinct (inl (e, ends)) =
    rw ((==_iff c.id b).1 e) (EndsWith-targets s c.insts ends)
Leads-block_targets b s (c ∷ cs) (single, distinct) (inr later) = elim (Bool-cases (c.id == b)) [
  | inl here ↦ cc (
    Leads-inside b s cs later,
    subst (λ m. one_of m (block_ids cs) ≡ false) ((==_iff c.id b).0 here) single,
  )
  | inr other ↦ rw other (Leads-block_targets b s cs distinct later)
]
