-- ===== src/Liveness/Exposed.antt =====
-- The sets of uses and definitions of a block (`regalloc_compute_def_use` of src/backend/regalloc.c)
-- against its instructions.
use baa.Base.{
  ℕ, ◌<◌, ◌≡◌, ◌≢◌, refl, sym, ◌∙◌, ap, inl, inr, Bool, true, false, not, ◌&&◌, ◌||◌, Option, none,
  some, List, [], ◌∷◌, foldl, ltb, lt→ltb, ◌==◌, ==_iff, Bool-cases, &&-both, arith,
}
use baa.Machine.{MachineInst, MachineBlock}
use baa.RegAlloc.Convention.{one_of}
use baa.RegAlloc.Step.{write}
use baa.RegAlloc.Active.{write_here, write_other, Nat-cases}
use baa.Liveness.{
  normal_vreg, BlockLiveness, inst_uses, record_use, record_def, scan_inst, block_def_use,
}

abbrev pub is_vreg : Option ℕ → ℕ → Bool
is_vreg none v = false
is_vreg (some d) v = d == v

-- Does the instruction define the register?
abbrev pub defines : ℕ → MachineInst → Bool
defines v inst = is_vreg (normal_vreg inst.dst.payload) v

-- Is the register used before it is defined?
abbrev pub exposed : ℕ → List MachineInst → Bool
exposed v [] = false
exposed v (i ∷ is) = one_of v (inst_uses i) || (not (defines v i) && exposed v is)

abbrev pub defined : ℕ → List MachineInst → Bool
defined v [] = false
defined v (i ∷ is) = defines v i || defined v is

join_false : (a b : Bool) → b ≡ false → a ≡ (a || b)
join_false true b h = refl
join_false false b h = sym h

join_true : (a b : Bool) → b ≡ true → true ≡ (a || b)
join_true true b h = refl
join_true false b h = sym h

eq_refl : (n : ℕ) → (n == n) ≡ true
eq_refl n = (==_iff n n).1 refl

eq_other : (a b : ℕ) → b ≢ a → (a == b) ≡ false
eq_other a b other = elim (Bool-cases (a == b)) [
  | inl e ↦ absurd (other (sym ((==_iff a b).0 e)))
  | inr e ↦ e
]

and_false : (b : Bool) → (b && false) ≡ false
and_false true = refl
and_false false = refl

both_true : (a b : Bool) → a ≡ true → b ≡ true → (a && b) ≡ true
both_true a b p q = rw (p, q) refl

cons_bits : (u d a b : Bool) → ((u || (d && a)) || (d && b)) ≡ (u || (d && (a || b)))
cons_bits true d a b = refl
cons_bits false true a b = refl
cons_bits false false a b = refl

-- Setting a bit, read at another place or at its own.
set_bit : (set : ℕ → Bool) (k v : ℕ) → write set k true v ≡ (set v || (k == v))
set_bit set k v = elim (Nat-cases v k) [
  | inl e ↦ rw (e, write_here set k true) (join_true (set k) (k == k) (eq_refl k))
  | inr other ↦ write_other set k v true other ∙ join_false (set v) (k == v) (eq_other k v other)
]

not_new :
    (max_vreg u : ℕ) (d : Bool)
    → ltb u max_vreg ≡ true
    → (ltb u max_vreg && not d) ≡ false
    → d ≡ true
not_new max_vreg u true below h = refl
not_new max_vreg u false below h = cc (rw below at h)

module _ (max_vreg v : ℕ) (below : v < max_vreg) where
  -- A register out of bounds is another one.
  out_of_bounds : (u : ℕ) → ltb u max_vreg ≡ false → (u == v) ≡ false
  out_of_bounds u h = ground (arith, below, h)

  record_use-bits :
      (bl : BlockLiveness) (u : ℕ)
      → ((record_use max_vreg bl u).uses v ≡ (bl.uses v || (not (bl.defs v) && (u == v))))
        × ((record_use max_vreg bl u).defs ≡ bl.defs)
  unfolding record_use
  record_use-bits bl u = elim (Bool-cases (ltb u max_vreg && not (bl.defs u))) [
    | inl new ↦
        let open_def : not (bl.defs u) ≡ true = (&&-both _ (not (bl.defs u)) new).1 in
        rw new (
          set_bit bl.uses u v ∙ elim (Nat-cases v u) [
            | inl e ↦ rw (e, open_def) refl
            | inr other ↦ rw (eq_other u v other, and_false (not (bl.defs v))) refl
          ],
          refl,
        )
    | inr old ↦ rw old (
      join_false (bl.uses v) (not (bl.defs v) && (u == v)) (elim (Nat-cases v u) [
        | inl e ↦
            let d = not_new max_vreg v (bl.defs v) (lt→ltb v max_vreg below) (rw (sym e) at old) in
            rw d refl
        | inr other ↦ rw (eq_other u v other) (and_false (not (bl.defs v)))
      ]),
      refl,
    )
  ]

  record_uses-bits :
      (us : List ℕ) (bl : BlockLiveness)
      → ((foldl (record_use max_vreg) bl us).uses v
          ≡ (bl.uses v || (not (bl.defs v) && one_of v us)))
        × ((foldl (record_use max_vreg) bl us).defs ≡ bl.defs)
  record_uses-bits [] bl =
      (join_false (bl.uses v) (not (bl.defs v) && false) (and_false (not (bl.defs v))), refl)
  record_uses-bits (u ∷ us) bl =
      let (uses, defs) = record_use-bits bl u in
      let (uses', defs') = record_uses-bits us (record_use max_vreg bl u) in
      (
        uses' ∙ rw (uses, defs) (cons_bits (bl.uses v) (not (bl.defs v)) (u == v) (one_of v us)),
        defs' ∙ defs,
      )

  record_def-bits :
      (bl : BlockLiveness) (d : Option ℕ)
      → ((record_def max_vreg bl d).defs v ≡ (bl.defs v || is_vreg d v))
        × ((record_def max_vreg bl d).uses ≡ bl.uses)
  unfolding record_def
  record_def-bits bl none = (join_false (bl.defs v) false refl, refl)
  record_def-bits bl (some d) = elim (Bool-cases (ltb d max_vreg)) [
    | inl fits ↦ rw fits (set_bit bl.defs d v, refl)
    | inr beyond ↦ rw beyond (join_false (bl.defs v) (d == v) (out_of_bounds d beyond), refl)
  ]

  scan_inst-bits :
      (bl : BlockLiveness) (i : MachineInst)
      → ((scan_inst max_vreg bl i).uses v
          ≡ (bl.uses v || (not (bl.defs v) && one_of v (inst_uses i))))
        × ((scan_inst max_vreg bl i).defs v ≡ (bl.defs v || defines v i))
  unfolding scan_inst
  scan_inst-bits bl i =
      let used = foldl (record_use max_vreg) bl (inst_uses i) in
      let (uses, defs) = record_uses-bits (inst_uses i) bl in
      let (defs', uses') = record_def-bits used (normal_vreg i.dst.payload) in
      (
        ap (λ (s : ℕ → Bool). s v) uses' ∙ uses,
        defs' ∙ ap (λ (s : ℕ → Bool). s v || defines v i) defs,
      )

  step_bits :
      (u d a b e : Bool)
      → ((u || (not d && a)) || (not (d || b) && e)) ≡ (u || (not d && (a || (not b && e))))
  step_bits true d a b e = refl
  step_bits false true a b e = refl
  step_bits false false true b e = refl
  step_bits false false false b e = refl

  assoc_bits : (a b c : Bool) → ((a || b) || c) ≡ (a || (b || c))
  assoc_bits true b c = refl
  assoc_bits false b c = refl

  scan_insts-bits :
      (is : List MachineInst) (bl : BlockLiveness)
      → ((foldl (scan_inst max_vreg) bl is).uses v
          ≡ (bl.uses v || (not (bl.defs v) && exposed v is)))
        × ((foldl (scan_inst max_vreg) bl is).defs v ≡ (bl.defs v || defined v is))
  scan_insts-bits [] bl = (
    join_false (bl.uses v) (not (bl.defs v) && false) (and_false (not (bl.defs v))),
    join_false (bl.defs v) false refl,
  )
  scan_insts-bits (i ∷ is) bl =
      let (uses, defs) = scan_inst-bits bl i in
      let (uses', defs') = scan_insts-bits is (scan_inst max_vreg bl i) in
      (
        uses'
            ∙ rw (uses, defs)
                (step_bits (bl.uses v) (bl.defs v) (one_of v (inst_uses i)) (defines v i)
                  (exposed v is)),
        defs' ∙ rw defs (assoc_bits (bl.defs v) (defines v i) (defined v is)),
      )

  -- For a register below the bound, the set of uses has it just when a use of it is exposed, and the set
  -- of definitions when it is defined.
  pub block_def_use-bits :
      (b : MachineBlock)
      → ((block_def_use max_vreg b).uses v ≡ exposed v b.insts)
        × ((block_def_use max_vreg b).defs v ≡ defined v b.insts)
  unfolding block_def_use
  block_def_use-bits b = scan_insts-bits b.insts _
