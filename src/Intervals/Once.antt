-- ===== src/Intervals/Once.antt =====
-- No register has two intervals, and sorting keeps the intervals (src/backend/regalloc_liveness.c).
use mathlib.Core.List.{Permᴰ}
use baa.Base.{
  ℕ, zero, suc, ◌+◌, ◌-◌, ◌≤◌, ◌<◌, ◌≡◌, ◌≢◌, refl, sym, ◌∙◌, ap, inl, inr, false, some, List, [],
  ◌∷◌, foldl, Bool-cases, arith, length, if◌then◌else◌, ◌==◌, ==_iff, ltb, ltb→lt,
}
use mathlib.Core.Option.{some-injective}
use baa.Machine.{MachineInst, MachineBlock}
use baa.RegAlloc.Step.{LiveInterval}
use baa.RegAlloc.{nth}
use baa.Liveness.{BlockLiveness, BitSet}
use baa.Intervals.{
  find_or_add, update_interval, update_set, update_insts, inst_mentions, inst_count, build_block,
  build_blocks, regalloc_build_intervals,
}
use baa.Intervals.Spans.{find_interval}

-- How many intervals the register has.
abbrev times : ℕ → List LiveInterval → ℕ
times v [] = 0
times v (li ∷ rest) = (if li.vreg == v then 1 else 0) + times v rest

module _ (v : ℕ) where
  find_or_add-other :
      (w p : ℕ) (ivs : List LiveInterval)
      → (w == v) ≡ false
      → times v (find_or_add w p ivs) ≡ times v ivs
  unfolding find_or_add
  find_or_add-other w p [] other = rw other refl
  find_or_add-other w p (li ∷ rest) other = elim (Bool-cases (li.vreg == w)) [
    | inl here ↦ rw here refl
    | inr there ↦
        rw there (ap (λ n. (if li.vreg == v then 1 else 0) + n) (find_or_add-other w p rest other))
  ]

  find_or_add_self :
      (p : ℕ) (ivs : List LiveInterval) → times v ivs ≤ 1 → times v (find_or_add v p ivs) ≤ 1
  unfolding find_or_add
  find_or_add_self p [] once = rw ((==_iff v v).1 refl) (omega arith)
  find_or_add_self p (li ∷ rest) once = elim (Bool-cases (li.vreg == v)) [
    | inl here ↦ rw here once
    | inr there ↦
        rw (there, there) (omega (arith, find_or_add_self p rest (omega (arith, rw there at once))))
  ]

  module _ (max_vreg : ℕ) where
    update_interval-once :
        (p w : ℕ) (ivs : List LiveInterval)
        → times v ivs ≤ 1
        → times v (update_interval max_vreg p ivs w) ≤ 1
    unfolding update_interval
    update_interval-once p w ivs once = elim (Bool-cases (ltb w max_vreg)) [
      | inr out ↦ rw out once
      | inl below ↦ elim (Bool-cases (w == v)) [
        | inl same ↦ rw (below, (==_iff w v).0 same) (find_or_add_self p ivs once)
        | inr other ↦ rw (below, find_or_add-other w p ivs other) once
      ]
    ]

    update_set-once :
        (p : ℕ) (set : BitSet) (n w : ℕ) (ivs : List LiveInterval)
        → times v ivs ≤ 1
        → times v (update_set max_vreg p set n w ivs) ≤ 1
    unfolding update_set
    update_set-once p set zero w ivs once = once
    update_set-once p set (suc n) w ivs once = elim (Bool-cases (set w)) [
      | inl there ↦ rw there (
          update_set-once p set n (w + 1) (update_interval max_vreg p ivs w)
            (update_interval-once p w ivs once))
      | inr absent ↦ rw absent (update_set-once p set n (w + 1) ivs once)
    ]

    mentions-once :
        (p : ℕ) (ws : List ℕ) (ivs : List LiveInterval)
        → times v ivs ≤ 1
        → times v (foldl (update_interval max_vreg p) ivs ws) ≤ 1
    mentions-once p [] ivs once = once
    mentions-once p (w ∷ ws) ivs once =
        mentions-once p ws (update_interval max_vreg p ivs w) (update_interval-once p w ivs once)

    update_insts-once :
        (p : ℕ) (is : List MachineInst) (ivs : List LiveInterval)
        → times v ivs ≤ 1
        → times v (update_insts max_vreg p is ivs) ≤ 1
    unfolding update_insts
    update_insts-once p [] ivs once = once
    update_insts-once p (i ∷ is) ivs once =
        update_insts-once (p + 1) is (foldl (update_interval max_vreg p) ivs (inst_mentions i))
          (mentions-once p (inst_mentions i) ivs once)

    build_blocks-once :
        (lives : ℕ → BlockLiveness) (i p : ℕ) (blocks : List MachineBlock) (ivs : List LiveInterval)
        → times v ivs ≤ 1
        → times v (build_blocks max_vreg lives i p blocks ivs) ≤ 1
    unfolding build_blocks build_block
    build_blocks-once lives i p [] ivs once = once
    build_blocks-once lives i p (b ∷ bs) ivs once =
        let entered = update_set max_vreg p (lives i).live_in max_vreg 0 ivs in
        let scanned = update_insts max_vreg p b.insts entered in
        build_blocks-once lives (i + 1) (p + inst_count b.insts) bs
          (build_block max_vreg (lives i) p b.insts ivs)
          (update_set-once (p + inst_count b.insts - 1) (lives i).live_out max_vreg 0 scanned (
            update_insts-once p b.insts entered
              (update_set-once p (lives i).live_in max_vreg 0 ivs once)))

Perm-times : (v : ℕ) {xs ys : List LiveInterval} → Permᴰ xs ys → times v xs ≡ times v ys
Perm-times v Permᴰ.nil = refl
Perm-times v (Permᴰ.cons e d) = rw (e, Perm-times v d) refl
Perm-times v (Permᴰ.swap e f) = rw (e, f) (omega arith)
Perm-times v (Permᴰ.trans c d) = Perm-times v c ∙ Perm-times v d

pub Perm-length : {xs ys : List LiveInterval} → Permᴰ xs ys → length xs ≡ length ys
Perm-length Permᴰ.nil = refl
Perm-length (Permᴰ.cons e d) = ap suc (Perm-length d)
Perm-length (Permᴰ.swap e f) = refl
Perm-length (Permᴰ.trans c d) = Perm-length c ∙ Perm-length d

-- The interval stands in the list.
abbrev pub Stands : LiveInterval → List LiveInterval → Type 0
Stands li ivs = (k : ℕ) × (k < length ivs) × (nth ivs k ≡ li)

pub Perm-Stands :
    (li : LiveInterval) {xs ys : List LiveInterval} → Permᴰ xs ys → Stands li xs → Stands li ys
Perm-Stands li Permᴰ.nil (k, below, at) = absurd (omega (arith, below))
Perm-Stands li (Permᴰ.cons e d) (zero, below, at) = (0, omega arith, sym e ∙ at)
Perm-Stands li (Permᴰ.cons e d) (suc k, below, at) =
    let (k', below', at') = Perm-Stands li d (k, omega (arith, below), at) in
    (suc k', omega (arith, below'), at')
Perm-Stands li (Permᴰ.swap e f) (zero, below, at) = (1, omega arith, sym e ∙ at)
Perm-Stands li (Permᴰ.swap e f) (suc zero, below, at) = (0, omega arith, sym f ∙ at)
Perm-Stands li (Permᴰ.swap e f) (suc (suc k), below, at) = (suc (suc k), below, at)
Perm-Stands li (Permᴰ.trans c d) s = Perm-Stands li d (Perm-Stands li c s)

pub find_interval-Stands :
    (v : ℕ) (li : LiveInterval) (ivs : List LiveInterval)
    → find_interval v ivs ≡ some li
    → (li.vreg ≡ v) × Stands li ivs
find_interval-Stands v li [] found = cc
find_interval-Stands v li (x ∷ rest) found = elim (Bool-cases (x.vreg == v)) [
  | inl here ↦
      let e : x ≡ li = some-injective x li (rw here at found) in
      (sym (ap (λ (k : LiveInterval). k.vreg) e) ∙ (==_iff x.vreg v).0 here, (0, omega arith, e))
  | inr other ↦
      let (named, (k, below, at)) = find_interval-Stands v li rest (rw other at found) in
      (named, (suc k, omega (arith, below), at))
]

times_here : (ivs : List LiveInterval) (k : ℕ) → k < length ivs → 1 ≤ times (nth ivs k).vreg ivs
times_here [] k below = absurd (omega (arith, below))
times_here (x ∷ rest) zero below = rw ((==_iff x.vreg x.vreg).1 refl) (omega arith)
times_here (x ∷ rest) (suc k) below = omega (arith, times_here rest k (omega (arith, below)))

times_twice :
    (ivs : List LiveInterval) (j k : ℕ)
    → j < k
    → k < length ivs
    → (nth ivs j).vreg ≡ (nth ivs k).vreg
    → 2 ≤ times (nth ivs k).vreg ivs
times_twice [] j k before below same = absurd (omega (arith, below))
times_twice (x ∷ rest) j zero before below same = absurd (omega (arith, before))
times_twice (x ∷ rest) zero (suc k) before below same =
    rw ((==_iff x.vreg (nth rest k).vreg).1 same)
      (omega (arith, times_here rest k (omega (arith, below))))
times_twice (x ∷ rest) (suc j) (suc k) before below same =
    omega (arith, times_twice rest j k (omega (arith, before)) (omega (arith, below)) same)

-- The intervals that are built, in any order, are of different registers.
pub build_intervals-distinct :
    (max_vreg : ℕ) (lives : ℕ → BlockLiveness) (blocks : List MachineBlock)
    (ivs : List LiveInterval)
    → Permᴰ ivs (regalloc_build_intervals max_vreg lives blocks)
    → (j k : ℕ) → j < length ivs
    → k < length ivs
    → j ≢ k
    → (nth ivs j).vreg ≢ (nth ivs k).vreg
unfolding regalloc_build_intervals
build_intervals-distinct max_vreg lives blocks ivs perm j k below_j below_k different same =
    elim (Bool-cases (ltb j k)) [
      | inl before ↦ omega (
        arith,
        ltb→lt j k before,
        times_twice ivs j k (ltb→lt j k before) below_k same,
        once (nth ivs k).vreg,
      )
      | inr after ↦
          let before : k < j = ground (arith, after, different) in
          omega (arith, times_twice ivs k j before below_j (sym same), once (nth ivs j).vreg)
    ]
  where
    once : (v : ℕ) → times v ivs ≤ 1
    once v =
        omega
          (arith, Perm-times v perm, build_blocks-once v max_vreg lives 0 1 blocks [] (omega arith))
