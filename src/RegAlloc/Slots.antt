-- ===== src/RegAlloc/Slots.antt =====
-- The stack slots that the linear scan gives out (src/backend/regalloc_linear_scan.c).
use baa.Base.{ℕ, ◌≡◌, refl, sym, ◌∙◌, ◌≢◌, ◌⊎◌, inl, inr, ◌+◌, ◌<◌, ◌≤◌, true, false, arith}
use baa.RegAlloc.Convention.{phys_none}
use baa.RegAlloc.Step.{Placement, write}
use baa.RegAlloc.Active.{write_here, write_other, Nat-cases}

-- In a register, or in a slot between the locals and the top of the slots.
abbrev pub IsPlaced : ℕ → ℕ → Placement → Type 0
IsPlaced base top p =
    ((p.phys_reg ≢ phys_none) × (p.spilled ≡ false))
    ⊎ ((p.phys_reg ≡ phys_none)
        × (p.spilled ≡ true)
        × (base + 8 ≤ p.spill_offset)
        × (p.spill_offset ≤ top))

-- The two slots are no less than a word apart.
abbrev pub Separate : Placement → Placement → Type 0
Separate p q = (p.spill_offset + 8 ≤ q.spill_offset) ⊎ (q.spill_offset + 8 ≤ p.spill_offset)

pub record Slots (base i top : ℕ) (placed : ℕ → Placement) : Type 0 where
  pub grown : base ≤ top
  pub each : (j : ℕ) → j < i → IsPlaced base top (placed j)
  pub apart :
      (j k : ℕ)
      → j < i
      → k < i
      → j ≢ k
      → (placed j).spilled ≡ true
      → (placed k).spilled ≡ true
      → Separate (placed j) (placed k)

-- All but v of those below i' are below i.
abbrev pub AllBut : ℕ → ℕ → ℕ → Type 0
AllBut v i i' = (j : ℕ) → j < i' → j ≢ v → j < i

pub put-Slots :
    (base i i' v top : ℕ) (p : Placement) (placed : ℕ → Placement)
    → AllBut v i i'
    → p.phys_reg ≢ phys_none
    → p.spilled ≡ false
    → Slots base i top placed
    → Slots base i' top (write placed v p)
put-Slots base i i' v top p placed others real kept slots = record {
  grown = slots.grown;
  each = λ j below. elim (Nat-cases j v) [
    | inl e ↦ rw (e, write_here placed v p) (inl (real, kept))
    | inr other ↦ rw (write_other placed v j p other) (slots.each j (others j below other))
  ];
  apart = λ j k below_j below_k different spilled_j spilled_k. elim (Nat-cases j v) [
    | inl e ↦ absurd (cc (kept, rw (e, write_here placed v p) at spilled_j))
    | inr other_j ↦ elim (Nat-cases k v) [
      | inl e ↦ absurd (cc (kept, rw (e, write_here placed v p) at spilled_k))
      | inr other_k ↦
          let same_j = write_other placed v j p other_j in
          let same_k = write_other placed v k p other_k in
          rw (same_j, same_k)
            (slots.apart j k (others j below_j other_j) (others k below_k other_k) different
              (rw same_j at spilled_j) (rw same_k at spilled_k))
    ]
  ];
}

-- A placement in a slot is at most at the top.
slot_le :
    (base top : ℕ) (p : Placement) → IsPlaced base top p → p.spilled ≡ true → p.spill_offset ≤ top
slot_le base top p (inl (real, kept)) spilled = absurd (cc (kept, spilled))
slot_le base top p (inr (none, in_slot, low, high)) spilled = high

grow-IsPlaced : (base top : ℕ) (p : Placement) → IsPlaced base top p → IsPlaced base (top + 8) p
grow-IsPlaced base top p (inl reg) = inl reg
grow-IsPlaced base top p (inr (none, in_slot, low, high)) =
    inr (none, in_slot, low, omega (arith, high))

pub push-Slots :
    (base i i' v top : ℕ) (placed : ℕ → Placement)
    → AllBut v i i'
    → Slots base i top placed
    → Slots base i'
        (top + 8)
        (write placed v (record { phys_reg = phys_none; spilled = true; spill_offset = top + 8 }))
push-Slots base i i' v top placed others slots =
    let p : Placement = record { phys_reg = phys_none; spilled = true; spill_offset = top + 8 } in
    record {
      grown = omega (arith, slots.grown);
      each = λ j below. elim (Nat-cases j v) [
        | inl e ↦
            rw (e, write_here placed v p)
              (inr (refl, refl, omega (arith, slots.grown), omega arith))
        | inr other ↦
            rw (write_other placed v j p other)
              (grow-IsPlaced base top (placed j) (slots.each j (others j below other)))
      ];
      apart = λ j k below_j below_k different spilled_j spilled_k. elim (Nat-cases j v) [
        | inl e ↦
            let other_k : k ≢ v = λ e'. different (e ∙ sym e') in
            let same_k = write_other placed v k p other_k in
            let high =
              slot_le base top (placed k) (slots.each k (others k below_k other_k))
                (rw same_k at spilled_k) in
            rw (e, write_here placed v p, same_k) (inr (omega (arith, high)))
        | inr other_j ↦
            let same_j = write_other placed v j p other_j in
            let high =
              slot_le base top (placed j) (slots.each j (others j below_j other_j))
                (rw same_j at spilled_j) in
            elim (Nat-cases k v) [
              | inl e ↦ rw (e, write_here placed v p, same_j) (inl (omega (arith, high)))
              | inr other_k ↦
                  let same_k = write_other placed v k p other_k in
                  rw (same_j, same_k)
                    (slots.apart j k (others j below_j other_j) (others k below_k other_k) different
                      (rw same_j at spilled_j) (rw same_k at spilled_k))
            ]
      ];
    }
