-- ===== src/Dce/Done.antt =====
-- What is left after the removal of dead instructions in a function (src/middleend/ir_dce.c).
use baa.Base.{
  ℕ, ◌≤◌, ◌≡◌, ◌≢◌, ◌⊎◌, ◌∙◌, inl, inr, true, false, Option, none, some, List, [], ◌∷◌, ltb, ltb→lt,
  ◌==◌, ==_iff, Bool-cases, arith,
}
use baa.Ir.Inst.{IrInst, IrFunc}
use baa.Dce.{
  dest_is_unused, ir_inst_is_removable_dead, dead_count, dce_body, entered_body,
  ir_func_dce_instructions,
}
use baa.Dce.Counts.{insts_reads}
use baa.Dce.Trim.{acts, has_effects-acts}
use baa.Dce.Sweeps.{all_insts, fresh_uses, fresh_uses-reads}
use baa.Dce.Work.{dce_body-AllLive}

-- The register that is defined, if any, is out of bounds or read by one of the instructions.
abbrev pub IsRead : ℕ → List IrInst → Option ℕ → Type 0
IsRead max_reg whole none = Unit
IsRead max_reg whole (some d) = (max_reg ≤ d) ⊎ (insts_reads d whole ≢ 0)

-- Each instruction acts or defines something that is read in the whole.
abbrev pub AllNeeded : ℕ → List IrInst → List IrInst → Type 0
AllNeeded max_reg whole [] = Unit
AllNeeded max_reg whole (i ∷ is) =
    ((acts i ≡ true) ⊎ IsRead max_reg whole i.dest) × AllNeeded max_reg whole is

unused_or_IsRead :
    (max_reg : ℕ) (whole : List IrInst) (dest : Option ℕ)
    → dest_is_unused dest (fresh_uses max_reg whole) max_reg ≡ false
    → IsRead max_reg whole dest
unused_or_IsRead max_reg whole none h = tt
unused_or_IsRead max_reg whole (some d) h = elim (Bool-cases (ltb d max_reg)) [
  | inr beyond ↦ inl (ground (arith, beyond))
  | inl below ↦ inr (λ unread.
      let counted = fresh_uses-reads max_reg d whole (ltb→lt d max_reg below) in
      cc (rw below at h, (==_iff (fresh_uses max_reg whole d) 0).1 (counted ∙ unread)))
]

live-AllNeeded :
    (max_reg : ℕ) (whole is : List IrInst)
    → dead_count (fresh_uses max_reg whole) max_reg is ≡ 0
    → AllNeeded max_reg whole is
unfolding dead_count ir_inst_is_removable_dead
live-AllNeeded max_reg whole [] h = tt
live-AllNeeded max_reg whole (i ∷ is) h =
    let uses = fresh_uses max_reg whole in
    (
      elim (Bool-cases (acts i)) [
        | inl busy ↦ inl busy
        | inr quiet ↦ inr (
            unused_or_IsRead max_reg whole i.dest
              (elim (Bool-cases (dest_is_unused i.dest uses max_reg)) [
                | inr used ↦ used
                | inl unused ↦
                    absurd (omega (arith, rw (unused, has_effects-acts i.op ∙ quiet) at h))
              ]))
      ],
      live-AllNeeded max_reg whole is (omega (arith, h)),
    )

no_regs-AllNeeded :
    (max_reg : ℕ) (whole is : List IrInst) → max_reg ≡ 0 → AllNeeded max_reg whole is
no_regs-AllNeeded max_reg whole [] h = tt
no_regs-AllNeeded max_reg whole (i ∷ is) h =
    (inr (beyond i.dest), no_regs-AllNeeded max_reg whole is h)
  where
    beyond : (dest : Option ℕ) → IsRead max_reg whole dest
    beyond none = tt
    beyond (some d) = inl (omega (arith, h))

-- In a function with a body, every instruction that is left is a store, a call, a jump, a return
-- or a processor no-op, defines no register below the function's bound, or defines one that is still
-- read: no sweep is missing.
pub dce_instructions-AllNeeded :
    (f : IrFunc) (e : ℕ)
    → f.is_prototype ≡ false
    → f.entry ≡ some e
    → AllNeeded f.next_reg
        (all_insts (ir_func_dce_instructions f).0)
        (all_insts (ir_func_dce_instructions f).0)
unfolding ir_func_dce_instructions entered_body
dce_instructions-AllNeeded f e body entry = elim (Bool-cases (f.next_reg == 0)) [
  | inl empty ↦
      simp (body, entry, empty)
        (no_regs-AllNeeded f.next_reg (all_insts f) (all_insts f) ((==_iff f.next_reg 0).0 empty))
  | inr regs ↦
      simp (body, entry, regs)
        (live-AllNeeded f.next_reg (all_insts (dce_body f.next_reg f).0)
          (all_insts (dce_body f.next_reg f).0) (dce_body-AllLive f.next_reg f))
]
