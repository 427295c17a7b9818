-- ===== src/Ir/Phis.antt =====
-- The order of phis in a block: `ir_block_insert_phi` and `ir_block_remove_inst`
-- (src/middleend/ir_mutate.c) keep every phi in front of the other instructions.
use baa.Base.{
  ℕ, ◌≡◌, ◌≢◌, refl, sym, subst, ◌∙◌, ap, Bool, true, not, ◌&&◌, Option, none, some, List, [], ◌∷◌,
  ◌++◌, if◌then◌else◌, ◌==◌, ==_iff, inl, inr, Bool-cases, Option-cases,
}
use baa.Ir.Inst.{IrInst, IrBlock, IrFunc}
use baa.Ir.Build.{is_phi, ir_func_invalidate_defuse}
use baa.Ir.Mutate.{
  is_id, edit_block, number_inst, insert_before, ir_block_append, ir_block_insert_before,
  first_non_phi, insts_of, ir_block_insert_phi,
}

abbrev pub no_phis : List IrInst → Bool
no_phis [] = true
no_phis (i ∷ is) = not (is_phi i.op) && no_phis is

-- Every phi stands in front of all other instructions.
abbrev pub phis_first : List IrInst → Bool
phis_first [] = true
phis_first (i ∷ is) = if is_phi i.op then phis_first is else no_phis is

-- Every instruction that stands in a block has an id.
abbrev pub Numbered : List IrInst → Type 0
Numbered [] = Unit
Numbered (i ∷ is) = ((n : ℕ) × (i.id ≡ some n)) × Numbered is

-- A phi put in front of the first other instruction.
insert_before-phis_first :
    (n : ℕ) (p : IrInst) (is : List IrInst)
    → is_phi p.op ≡ true
    → phis_first is ≡ true
    → first_non_phi is ≡ some n
    → phis_first (insert_before n p is) ≡ true
unfolding insert_before first_non_phi
insert_before-phis_first n p [] phi h at = refl
insert_before-phis_first n p (i ∷ is) phi h at = elim (Bool-cases (is_id i.id n)) [
  | inl here ↦ rw (here, phi) h
  | inr other ↦ elim (Bool-cases (is_phi i.op)) [
    | inl front ↦
        rw (other, front) (insert_before-phis_first n p is phi (rw front at h) (rw front at at))
    | inr plain ↦ cc (rw (rw plain at at) at other, (==_iff n n).1 refl)
  ]
]

-- With no other instruction the phi goes to the end.
append-phis_first :
    (p : IrInst) (is : List IrInst)
    → is_phi p.op ≡ true
    → Numbered is
    → first_non_phi is ≡ none
    → phis_first (is ++ p ∷ []) ≡ true
unfolding first_non_phi
append-phis_first p [] phi ids at = rw phi
append-phis_first p (i ∷ is) phi ids at = elim (Bool-cases (is_phi i.op)) [
  | inl front ↦ rw front (append-phis_first p is phi ids.1 (rw front at at))
  | inr plain ↦ let (n, id) = ids.0 in cc (id, rw plain at at)
]

insert_before-Numbered :
    (n : ℕ) (p : IrInst) (is : List IrInst)
    → (m : ℕ) × (p.id ≡ some m)
    → Numbered is
    → Numbered (insert_before n p is)
unfolding insert_before
insert_before-Numbered n p [] id ids = tt
insert_before-Numbered n p (i ∷ is) id ids = elim (Bool-cases (is_id i.id n)) [
  | inl here ↦ rw here (id, ids)
  | inr other ↦ rw other (ids.0, insert_before-Numbered n p is id ids.1)
]

append-Numbered :
    (p : IrInst) (is : List IrInst)
    → (m : ℕ) × (p.id ≡ some m)
    → Numbered is
    → Numbered (is ++ p ∷ [])
append-Numbered p [] id ids = (id, tt)
append-Numbered p (i ∷ is) id ids = (ids.0, append-Numbered p is id ids.1)

-- A block that may be edited: its phis in front and its instructions numbered.
abbrev pub IsOrdered : List IrInst → Type 0
IsOrdered is = (phis_first is ≡ true) × Numbered is

abbrev pub AllOrdered : List IrBlock → Type 0
AllOrdered [] = Unit
AllOrdered (b ∷ bs) = IsOrdered b.insts × AllOrdered bs

edit_block-AllOrdered :
    (block : ℕ) (change : List IrInst → List IrInst) (bs : List IrBlock)
    → AllOrdered bs
    → (IsOrdered (insts_of block bs) → IsOrdered (change (insts_of block bs)))
    → AllOrdered (edit_block block (λ b. record b { insts = change b.insts }) bs)
unfolding edit_block insts_of
edit_block-AllOrdered block change [] h keeps = tt
edit_block-AllOrdered block change (b ∷ bs) h keeps = elim (Bool-cases (b.id == block)) [
  | inl here ↦ rw here ((rw here at keeps) h.0, h.1)
  | inr other ↦ rw other (h.0, edit_block-AllOrdered block change bs h.1 (rw other at keeps))
]

insert_at-AllOrdered :
    (block : ℕ) (p : IrInst) (bs : List IrBlock) (m : ℕ)
    → is_phi p.op ≡ true
    → p.id ≡ some m
    → AllOrdered bs
    → (o : Option ℕ) → first_non_phi (insts_of block bs) ≡ o
    → AllOrdered (
        edit_block block
          (λ b. record b {
            insts = elim o [ none ↦ b.insts ++ p ∷ [] | some n ↦ insert_before n p b.insts ];
          })
          bs)
insert_at-AllOrdered block p bs m phi id h none at =
    edit_block-AllOrdered block (λ is. is ++ p ∷ []) bs h
      (λ ok. (
        append-phis_first p (insts_of block bs) phi ok.1 at,
        append-Numbered p (insts_of block bs) (m, id) ok.1,
      ))
insert_at-AllOrdered block p bs m phi id h (some n) at =
    edit_block-AllOrdered block (insert_before n p) bs h (λ ok. (
      insert_before-phis_first n p (insts_of block bs) phi ok.0 at,
      insert_before-Numbered n p (insts_of block bs) (m, id) ok.1,
    ))

number_inst_lem :
    (f : IrFunc) (p : IrInst)
    → ((number_inst f p).0.blocks ≡ f.blocks)
      × ((m : ℕ) × ((number_inst f p).1.id ≡ some m))
      × ((number_inst f p).1.op ≡ p.op)
unfolding number_inst
number_inst_lem f p = elim (Option-cases p.id) [
  | inl missing ↦ rw (missing, number_inst) (refl, (f.next_inst_id, refl), refl)
  | inr (n, id) ↦ rw (id, number_inst) (refl, (n, id), refl)
]

append-AllOrdered :
    (block : ℕ) (p : IrInst) (f : IrFunc)
    → is_phi p.op ≡ true
    → AllOrdered f.blocks
    → first_non_phi (insts_of block f.blocks) ≡ none
    → AllOrdered (ir_block_append block p f).blocks
unfolding ir_block_append ir_func_invalidate_defuse
append-AllOrdered block p f phi h at =
    let (blocks, (m, id), op) = number_inst_lem (ir_func_invalidate_defuse f) p in
    rw blocks (
      insert_at-AllOrdered block (number_inst (ir_func_invalidate_defuse f) p).1 f.blocks m
        (ap is_phi op ∙ phi) id h none at)

insert_before-AllOrdered :
    (block : ℕ) (p : IrInst) (f : IrFunc) (o : Option ℕ)
    → is_phi p.op ≡ true
    → AllOrdered f.blocks
    → first_non_phi (insts_of block f.blocks) ≡ o
    → AllOrdered (ir_block_insert_before block o p f).blocks
unfolding ir_block_insert_before ir_func_invalidate_defuse
insert_before-AllOrdered block p f none phi h at =
    let (blocks, (m, id), op) = number_inst_lem (ir_func_invalidate_defuse f) p in
    let r = number_inst (ir_func_invalidate_defuse f) p in
    append-AllOrdered block r.1 r.0 (ap is_phi op ∙ phi) (subst AllOrdered (sym blocks) h)
      (subst (λ (bs : List IrBlock). first_non_phi (insts_of block bs) ≡ none) (sym blocks) at)
insert_before-AllOrdered block p f (some n) phi h at =
    let (blocks, (m, id), op) = number_inst_lem (ir_func_invalidate_defuse f) p in
    rw blocks (
      insert_at-AllOrdered block (number_inst (ir_func_invalidate_defuse f) p).1 f.blocks m
        (ap is_phi op ∙ phi) id h (some n) at)

-- Where in every block all phis stand in front of the other instructions and each instruction has
-- an id, inserting a phi in a block leaves every block so.
pub insert_phi-AllOrdered :
    (block : ℕ) (p : IrInst) (f : IrFunc)
    → is_phi p.op ≡ true
    → AllOrdered f.blocks
    → AllOrdered (ir_block_insert_phi block p f).blocks
unfolding ir_block_insert_phi
insert_phi-AllOrdered block p f phi h =
    insert_before-AllOrdered block p f (first_non_phi (insts_of block f.blocks)) phi h refl

-- No instruction of the list has the id n.
abbrev pub NoneNamed : ℕ → List IrInst → Type 0
NoneNamed n [] = Unit
NoneNamed n (i ∷ is) = (i.id ≢ some n) × NoneNamed n is

-- No block of the list has this id.
abbrev pub NoBlock : ℕ → List IrBlock → Type 0
NoBlock block [] = Unit
NoBlock block (b ∷ bs) = (b.id ≢ block) × NoBlock block bs
