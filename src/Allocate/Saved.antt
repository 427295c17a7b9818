-- ===== src/Allocate/Saved.antt =====
-- The saved registers of a function (`machine_func_collect_callee_saved` of src/backend/regalloc.c).
use baa.Base.{
  ℕ, ◌-◌, ◌≤◌, ◌≡◌, refl, sym, ◌∙◌, ◌⊎◌, inl, inr, Bool, true, false, not, ◌&&◌, ◌||◌, Option, none,
  some, List, [], ◌∷◌, foldl, ◌==◌, ==_iff, ltb, Bool-cases, arith, length,
}
use baa.Base.Kept.{skip_lem, take_lem}
use baa.Machine.{MachineInst, MachineBlock, MachineFunc}
use baa.RegAlloc.Convention.{CallingConv, phys_reg_count, one_of, in_mask}
use baa.RegAlloc.Active.{write_other, Nat-cases}
use baa.Allocate.{
  operand_reg, mark_reg, mark_inst, mark_blocks, candidates, collect,
  machine_func_collect_callee_saved,
}

-- The operand names the register r, one of the sixteen.
abbrev names : ℕ → Option ℕ → Bool
names r none = false
names r (some n) = ltb n phys_reg_count && n == r

abbrev inst_names : ℕ → MachineInst → Bool
inst_names r i =
    names r (operand_reg i.dst.payload)
    || (names r (operand_reg i.src1.payload) || names r (operand_reg i.src2.payload))

abbrev insts_name : ℕ → List MachineInst → Bool
insts_name r [] = false
insts_name r (i ∷ is) = inst_names r i || insts_name r is

-- An operand of the code names the register.
abbrev pub blocks_name : ℕ → List MachineBlock → Bool
blocks_name r [] = false
blocks_name r (b ∷ bs) = insts_name r b.insts || blocks_name r bs

or_false : (a : Bool) → a ≡ (a || false)
or_false true = refl
or_false false = refl

or_true : (a : Bool) → true ≡ (a || true)
or_true true = refl
or_true false = refl

mark_reg_lem : (used : ℕ → Bool) (o : Option ℕ) (r : ℕ) → mark_reg used o r ≡ (used r || names r o)
mark_reg_lem used none r = or_false (used r)
mark_reg_lem used (some n) r = elim (Bool-cases (ltb n phys_reg_count)) [
  | inr out ↦ rw out (or_false (used r))
  | inl there ↦ elim (Nat-cases r n) [
    | inl e ↦ rw (there, e, (==_iff n n).1 refl) (or_true (used n))
    | inr other ↦ elim (Bool-cases (n == r)) [
      | inl e ↦ absurd (other (sym ((==_iff n r).0 e)))
      | inr e ↦ rw (there, write_other used n r true other, e) (or_false (used r))
    ]
  ]
]

or_assoc : (a b c : Bool) → ((a || b) || c) ≡ (a || (b || c))
or_assoc true b c = refl
or_assoc false b c = refl

mark_inst_lem :
    (used : ℕ → Bool) (i : MachineInst) (r : ℕ) → mark_inst used i r ≡ (used r || inst_names r i)
mark_inst_lem used i r =
    let d = operand_reg i.dst.payload in
    let a = operand_reg i.src1.payload in
    let b = operand_reg i.src2.payload in
    rw
      (
        mark_reg_lem (mark_reg (mark_reg used d) a) b r,
        mark_reg_lem (mark_reg used d) a r,
        mark_reg_lem used d r,
      )
      (rw
        (
          or_assoc (used r) (names r d) (names r a),
          or_assoc (used r) (names r d || names r a) (names r b),
          or_assoc (names r d) (names r a) (names r b),
        )
        refl)

mark_insts_lem :
    (used : ℕ → Bool) (is : List MachineInst) (r : ℕ)
    → foldl mark_inst used is r ≡ (used r || insts_name r is)
mark_insts_lem used [] r = or_false (used r)
mark_insts_lem used (i ∷ is) r =
    rw (mark_insts_lem (mark_inst used i) is r, mark_inst_lem used i r)
      (or_assoc (used r) (inst_names r i) (insts_name r is))

mark_blocks_lem :
    (used : ℕ → Bool) (bs : List MachineBlock) (r : ℕ)
    → mark_blocks used bs r ≡ (used r || blocks_name r bs)
mark_blocks_lem used [] r = or_false (used r)
mark_blocks_lem used (b ∷ bs) r =
    rw (mark_blocks_lem (foldl mark_inst used b.insts) bs r, mark_insts_lem used b.insts r)
      (or_assoc (used r) (insts_name r b.insts) (blocks_name r bs))

module _ (conv : CallingConv) (used : ℕ → Bool) where
  abbrev is_kept : ℕ → Bool
  is_kept r = used r && in_mask conv.callee_saved_mask r

  -- What is collected from the candidates rs.
  abbrev Collected : ℕ → List ℕ → Type 0
  Collected room rs =
      (out : List ℕ) × (collect conv used room rs ≡ some out)
      × ((r : ℕ) → one_of r out ≡ (one_of r rs && is_kept r))

  kept_cases :
      (x : ℕ)
      → ((is_kept x ≡ false) × ((not (used x) || not (in_mask conv.callee_saved_mask x)) ≡ true))
        ⊎ ((is_kept x ≡ true) × ((not (used x) || not (in_mask conv.callee_saved_mask x)) ≡ false))
  kept_cases x = elim (Bool-cases (used x)) [
    | inr unused ↦ rw unused (inl (refl, refl))
    | inl use_it ↦ elim (Bool-cases (in_mask conv.callee_saved_mask x)) [
      | inr scratch ↦ rw (use_it, scratch) (inl (refl, refl))
      | inl saved ↦ rw (use_it, saved) (inr (refl, refl))
    ]
  ]

  collect-Collected : (rs : List ℕ) (room : ℕ) → length rs ≤ room → Collected room rs
  unfolding collect
  collect-Collected [] room enough = ([], refl, (λ r. refl))
  collect-Collected (x ∷ rs) room enough = elim (kept_cases x) [
    | inl (dropped, test) ↦
        let (out, found, has) = collect-Collected rs room (omega (arith, enough)) in
        (out, rw test found, (λ r. has r ∙ skip_lem is_kept x r (one_of r rs) dropped))
    | inr (kept, test) ↦
        let (out, found, has) = collect-Collected rs (room - 1) (omega (arith, enough)) in
        let some_room : (room == 0) ≡ false = ground (arith, enough) in
        (
          x ∷ out,
          rw (test, some_room, found) refl,
          (λ r. rw (has r) (take_lem is_kept x r (one_of r rs) kept)),
        )
  ]

-- With room for seven registers the collection succeeds, and a register is in it just when it is a
-- candidate, an operand of the function's code names it, and the convention has the callee save it.
pub collect_callee_saved_exact :
    (conv : CallingConv) (regs_capacity : ℕ) (func : MachineFunc)
    → 7 ≤ regs_capacity
    → (out : List ℕ) × (machine_func_collect_callee_saved conv regs_capacity func ≡ some out)
      × ((r : ℕ)
          → one_of r out ≡ (
              one_of r candidates
              && (blocks_name r func.blocks && in_mask conv.callee_saved_mask r)))
unfolding machine_func_collect_callee_saved
collect_callee_saved_exact conv regs_capacity func enough =
    let used = mark_blocks (λ _. false) func.blocks in
    let (out, found, has) = collect-Collected conv used candidates regs_capacity enough in
    (out, found, (λ r. rw (sym (mark_blocks_lem (λ _. false) func.blocks r)) (has r)))
