-- ===== src/Intervals/Spans.antt =====
-- What an interval covers, and that the intervals only grow (src/backend/regalloc_liveness.c).
use baa.Base.{
  ℕ, zero, suc, ◌+◌, ◌≤◌, ◌<◌, ◌≡◌, refl, sym, ap, inl, inr, true, Option, none, some, List, [],
  ◌∷◌, ◌++◌, foldl, if◌then◌else◌, ◌==◌, ==_iff, ltb, lt→ltb, Bool-cases, arith,
}
use mathlib.Core.Option.{some-injective}
use baa.Machine.{MachineInst}
use baa.RegAlloc.Convention.{one_of}
use baa.RegAlloc.Step.{LiveInterval}
use baa.RegAlloc.Active.{Nat-cases}
use baa.Liveness.{BitSet}
use baa.Liveness.Flow.{either_true}
use baa.Intervals.{
  extend, find_or_add, update_interval, update_set, inst_mentions, update_insts, inst_count,
}

-- The first interval of a register.
abbrev pub find_interval : ℕ → List LiveInterval → Option LiveInterval
find_interval v [] = none
find_interval v (li ∷ rest) = if li.vreg == v then some li else find_interval v rest

-- The first interval of the register v covers the position q.
abbrev pub Spans : ℕ → ℕ → List LiveInterval → Type 0
Spans v q ivs =
    (li : LiveInterval) × (find_interval v ivs ≡ some li) × (li.start ≤ q) × (q ≤ li.stop)

find_or_add-here : (v p : ℕ) (ivs : List LiveInterval) → Spans v p (find_or_add v p ivs)
unfolding find_or_add
find_or_add-here v p [] = (
  record { vreg = v; start = p; stop = p },
  rw ((==_iff v v).1 refl) refl,
  omega arith,
  omega arith,
)
find_or_add-here v p (li ∷ rest) = elim (Bool-cases (li.vreg == v)) [
  | inl here ↦ rw (here, here) (extend li p, refl, ground arith, ground arith)
  | inr other ↦ rw (other, other) (find_or_add-here v p rest)
]

find_or_add-keeps :
    (v p w q : ℕ) (ivs : List LiveInterval) → Spans w q ivs → Spans w q (find_or_add v p ivs)
unfolding find_or_add
find_or_add-keeps v p w q [] (x, found, low, high) = cc
find_or_add-keeps v p w q (li ∷ rest) (x, found, low, high) = elim (Bool-cases (li.vreg == v)) [
  | inl here ↦ elim (Bool-cases (li.vreg == w)) [
    | inl same ↦
        let e : li ≡ x = some-injective li x (rw same at found) in
        let starts : li.start ≡ x.start = ap (λ (k : LiveInterval). k.start) e in
        let stops : li.stop ≡ x.stop = ap (λ (k : LiveInterval). k.stop) e in
        rw (here, same)
          (extend li p, refl, ground (arith, starts, low), ground (arith, stops, high))
    | inr another ↦ rw (here, another) (x, rw another at found, low, high)
  ]
  | inr other ↦ elim (Bool-cases (li.vreg == w)) [
    | inl same ↦ rw (other, same) (x, rw same at found, low, high)
    | inr another ↦
        rw (other, another) (find_or_add-keeps v p w q rest (x, rw another at found, low, high))
  ]
]

module _ (max_vreg : ℕ) where
  update_interval-here :
      (v p : ℕ) (ivs : List LiveInterval)
      → v < max_vreg
      → Spans v p (update_interval max_vreg p ivs v)
  unfolding update_interval
  update_interval-here v p ivs below = rw (lt→ltb v max_vreg below) (find_or_add-here v p ivs)

  update_interval-keeps :
      (v p w q : ℕ) (ivs : List LiveInterval)
      → Spans w q ivs
      → Spans w q (update_interval max_vreg p ivs v)
  unfolding update_interval
  update_interval-keeps v p w q ivs span = elim (Bool-cases (ltb v max_vreg)) [
    | inl fits ↦ rw fits (find_or_add-keeps v p w q ivs span)
    | inr beyond ↦ rw beyond span
  ]

  pub update_set-keeps :
      (n v p w q : ℕ) (set : BitSet) (ivs : List LiveInterval)
      → Spans w q ivs
      → Spans w q (update_set max_vreg p set n v ivs)
  unfolding update_set
  update_set-keeps zero v p w q set ivs span = span
  update_set-keeps (suc n) v p w q set ivs span =
      let next = if set v then update_interval max_vreg p ivs v else ivs in
      update_set-keeps n (v + 1) p w q set next (elim (Bool-cases (set v)) [
        | inl there ↦ rw there (update_interval-keeps v p w q ivs span)
        | inr missing ↦ rw missing span
      ])

  -- A register of the set gets an interval that covers the position.
  pub update_set-here :
      (n v p w : ℕ) (set : BitSet) (ivs : List LiveInterval)
      → set w ≡ true
      → v ≤ w
      → w < v + n
      → w < max_vreg
      → Spans w p (update_set max_vreg p set n v ivs)
  unfolding update_set
  update_set-here zero v p w set ivs there low high below = absurd (omega (arith, low, high))
  update_set-here (suc n) v p w set ivs there low high below =
      let next = if set v then update_interval max_vreg p ivs v else ivs in
      elim (Nat-cases v w) [
        | inl e ↦
            update_set-keeps n (v + 1) p w p set next
              (rw (sym e, e, there) (update_interval-here w p ivs below))
        | inr other ↦
            update_set-here n (v + 1) p w set next there (ground (arith, low, other))
              (omega (arith, high)) below
      ]

  update_list-keeps :
      (us : List ℕ) (p w q : ℕ) (ivs : List LiveInterval)
      → Spans w q ivs
      → Spans w q (foldl (update_interval max_vreg p) ivs us)
  update_list-keeps [] p w q ivs span = span
  update_list-keeps (u ∷ us) p w q ivs span =
      update_list-keeps us p w q (update_interval max_vreg p ivs u)
        (update_interval-keeps u p w q ivs span)

  update_list-here :
      (us : List ℕ) (p w : ℕ) (ivs : List LiveInterval)
      → one_of w us ≡ true
      → w < max_vreg
      → Spans w p (foldl (update_interval max_vreg p) ivs us)
  update_list-here [] p w ivs there below = cc
  update_list-here (u ∷ us) p w ivs there below =
      let next = update_interval max_vreg p ivs u in
      elim (either_true (u == w) (one_of w us) there) [
        | inl same ↦
            update_list-keeps us p w p next
              (rw ((==_iff u w).0 same) (update_interval-here w p ivs below))
        | inr later ↦ update_list-here us p w next later below
      ]

  pub update_insts-keeps :
      (is : List MachineInst) (p w q : ℕ) (ivs : List LiveInterval)
      → Spans w q ivs
      → Spans w q (update_insts max_vreg p is ivs)
  unfolding update_insts
  update_insts-keeps [] p w q ivs span = span
  update_insts-keeps (i ∷ is) p w q ivs span =
      update_insts-keeps is (p + 1) w q (foldl (update_interval max_vreg p) ivs (inst_mentions i))
        (update_list-keeps (inst_mentions i) p w q ivs span)

  -- A register that an instruction mentions gets an interval that covers the instruction.
  pub update_insts-here :
      (before after : List MachineInst) (i : MachineInst) (p w : ℕ) (ivs : List LiveInterval)
      → one_of w (inst_mentions i) ≡ true
      → w < max_vreg
      → Spans w (p + inst_count before) (update_insts max_vreg p (before ++ i ∷ after) ivs)
  unfolding update_insts
  update_insts-here [] after i p w ivs there below =
      let here : p + 0 ≡ p = omega arith in
      rw here (
        update_insts-keeps after (p + 1) w p
          (foldl (update_interval max_vreg p) ivs (inst_mentions i))
          (update_list-here (inst_mentions i) p w ivs there below))
  update_insts-here (b ∷ before) after i p w ivs there below =
      let shift : p + suc (inst_count before) ≡ (p + 1) + inst_count before = omega arith in
      rw shift (
        update_insts-here before after i (p + 1) w
          (foldl (update_interval max_vreg p) ivs (inst_mentions b)) there below)
