-- ===== src/RegAlloc/Maps.antt =====
-- The maps of results of the linear scan say of a virtual register what its interval got
-- (src/backend/regalloc_linear_scan.c).
use baa.Base.{
  ℕ, zero, suc, ◌≡◌, sym, ◌∙◌, ◌≢◌, inl, inr, ◌+◌, ◌<◌, ◌≤◌, true, false, List, arith, Bool-cases,
  ltb, lt→ltb, length,
}
use baa.RegAlloc.Convention.{CallingConv, phys_none}
use baa.RegAlloc.Step.{
  LiveInterval, Placement, ScanState, record_vreg, place_in, spill_to_stack, expire, take_reg,
  steal_reg, assign, scan_step,
}
use baa.RegAlloc.Active.{write_here, write_other, Nat-cases}
use baa.RegAlloc.Invariant.{expire-Inv}
use baa.RegAlloc.Rounds.{record_vreg_keeps, StateInv, assign-Outcome, scan_step-StateInv}
use baa.RegAlloc.Safe.{InOrder, InOrder-le, scan_start-StateInv}
use baa.RegAlloc.{scan_from, scan_start, nth, regalloc_linear_scan}

-- The maps give the virtual register the placement p.
abbrev pub Agrees : ScanState → ℕ → Placement → Type 0
Agrees s v p =
    (s.vreg_to_phys v ≡ p.phys_reg)
    × (s.vreg_spilled v ≡ p.spilled)
    × (p.spilled ≡ true → s.vreg_spill_offset v ≡ p.spill_offset)

record_vreg_here :
    (max_vreg v : ℕ) (p : Placement) (s : ScanState)
    → v < max_vreg
    → Agrees (record_vreg max_vreg v p s) v p
unfolding record_vreg
record_vreg_here max_vreg v p s below = rw (lt→ltb v max_vreg below) (
  write_here s.vreg_to_phys v p.phys_reg,
  write_here s.vreg_spilled v p.spilled,
  (λ spilled. rw spilled (write_here s.vreg_spill_offset v p.spill_offset)),
)

record_vreg_other :
    (max_vreg v w : ℕ) (p q : Placement) (s : ScanState)
    → w ≢ v
    → Agrees s w q
    → Agrees (record_vreg max_vreg v p s) w q
unfolding record_vreg
record_vreg_other max_vreg v w p q s other (phys, spilled, offset) =
    elim (Bool-cases (ltb v max_vreg)) [
      | inr out ↦ rw out (phys, spilled, offset)
      | inl below ↦ rw below (
        write_other s.vreg_to_phys v w p.phys_reg other ∙ phys,
        write_other s.vreg_spilled v w p.spilled other ∙ spilled,
        (λ h. elim (Bool-cases p.spilled) [
          | inl on_stack ↦
              rw on_stack (write_other s.vreg_spill_offset v w p.spill_offset other ∙ offset h)
          | inr in_reg ↦ rw in_reg (offset h)
        ]),
      )
    ]

module _ (conv : CallingConv) (call_pos : List ℕ) (max_vreg : ℕ) (iv : ℕ → LiveInterval) (count : ℕ)
    (distinct : (j k : ℕ) → j < count → k < count → j ≢ k → (iv j).vreg ≢ (iv k).vreg) where
  -- The maps agree with the first i placements.
  abbrev Maps : ℕ → ScanState → Type 0
  Maps i s = (j : ℕ) → j < i → (iv j).vreg < max_vreg → Agrees s (iv j).vreg (s.placements j)

  steal_reg-Maps :
      (i victim : ℕ) (s : ScanState)
      → i < count
      → victim < i
      → Maps i s
      → Maps i (steal_reg conv max_vreg iv i victim s)
  unfolding steal_reg place_in spill_to_stack
  steal_reg-Maps i victim s inside before maps j below small =
      let s' = spill_to_stack victim s in
      let p = s'.placements victim in
      let v = (iv victim).vreg in
      let s'' = record_vreg max_vreg v p s' in
      let (placements, active, reg_free, next) = record_vreg_keeps max_vreg v p s' in
      let mine : Placement = record (s''.placements i) {
        phys_reg = (s.placements victim).phys_reg;
        spilled = false;
      } in
      rw (write_other s''.placements i j mine (λ e. omega (arith, e, below)), placements)
        (elim (Nat-cases j victim) [
          | inl e ↦ rw e (record_vreg_here max_vreg v p s' (rw e at small))
          | inr other ↦
              let q : Placement = record {
                phys_reg = phys_none;
                spilled = true;
                spill_offset = s.next_spill_offset + 8;
              } in
              record_vreg_other max_vreg v (iv j).vreg p (s'.placements j) s'
                (distinct j victim (omega (arith, below, inside)) (omega (arith, before, inside))
                  other)
                (rw (write_other s.placements victim j q other) (maps j below small))
        ])

  assign-Maps :
      (i : ℕ) (s : ScanState)
      → i < count
      → StateInv conv call_pos max_vreg iv i (iv i).start s
      → Maps i s
      → Maps i (assign conv call_pos max_vreg iv i s)
  unfolding take_reg place_in spill_to_stack
  assign-Maps i s inside inv maps = elim (assign-Outcome conv call_pos max_vreg iv i s inv) [
    | inl (r, real, idle, fit, e) ↦ rw e (λ j below small.
        rw
          (write_other s.placements i j (record (s.placements i) { phys_reg = r; spilled = false })
            (λ e'. omega (arith, e', below)))
          (maps j below small))
    | inr (inl (victim, h, fit, e)) ↦
        rw e (steal_reg-Maps i victim s inside (inv.held victim _ h).0 maps)
    | inr (inr e) ↦ rw e (λ j below small.
        rw
          (write_other s.placements i j
            (record {
              phys_reg = phys_none;
              spilled = true;
              spill_offset = s.next_spill_offset + 8;
            })
            (λ e'. omega (arith, e', below)))
          (maps j below small))
  ]

  scan_step-Maps :
      (i now : ℕ) (s : ScanState)
      → i < count
      → now ≤ (iv i).start
      → StateInv conv call_pos max_vreg iv i now s
      → Maps i s
      → Maps (i + 1) (scan_step conv call_pos max_vreg iv i s)
  unfolding scan_step expire
  scan_step-Maps i now s inside later inv maps j below small =
      let s' = expire iv (iv i).start s in
      let t = assign conv call_pos max_vreg iv i s' in
      let v = (iv i).vreg in
      let (placements, active, reg_free, next) = record_vreg_keeps max_vreg v (t.placements i) t in
      rw placements (elim (Nat-cases j i) [
        | inl e ↦ rw e (record_vreg_here max_vreg v (t.placements i) t (rw e at small))
        | inr other ↦
            let earlier : j < i = omega (arith, below, other) in
            record_vreg_other max_vreg v (iv j).vreg (t.placements i) (t.placements j) t
              (distinct j i (omega (arith, earlier, inside)) inside other)
              (assign-Maps i s' inside
                (expire-Inv conv call_pos iv i now (iv i).start s.placements s.active s.reg_free
                  later inv)
                maps j earlier small)
      ])

  scan_from-Maps :
      (n i now : ℕ) (s : ScanState)
      → i + n ≡ count
      → ((j k : ℕ) → j ≤ k → k < count → (iv j).start ≤ (iv k).start)
      → ((k : ℕ) → i ≤ k → k < count → now ≤ (iv k).start)
      → StateInv conv call_pos max_vreg iv i now s
      → Maps i s
      → Maps count (scan_from conv call_pos max_vreg iv n i s)
  unfolding scan_from
  scan_from-Maps zero i now s whole order later inv maps =
      let all : i ≡ count = omega (arith, whole) in rw (sym all) maps
  scan_from-Maps (suc n) i now s whole order later inv maps =
      let inside : i < count = omega (arith, whole) in
      let first = later i (omega arith) inside in
      scan_from-Maps n (i + 1) (iv i).start (scan_step conv call_pos max_vreg iv i s)
        (omega (arith, whole)) order (λ k from below. order i k (omega (arith, from)) below)
        (scan_step-StateInv conv call_pos max_vreg iv i now s first inv)
        (scan_step-Maps i now s inside first inv maps)

module _ (sort : List LiveInterval → List LiveInterval) (conv : CallingConv) (call_pos : List ℕ)
    (max_vreg stack_size : ℕ) (intervals : List LiveInterval) where
  -- After the scan the maps give the virtual register of every interval, where it is below the bound,
  -- the register or the slot that the interval got, where `sort` orders the intervals by their starts and
  -- keeps their number, and no two intervals have the same virtual register.
  pub linear_scan-Agrees :
      InOrder (sort intervals)
      → length (sort intervals) ≡ length intervals
      → ((j k : ℕ)
          → j < length intervals
          → k < length intervals
          → j ≢ k
          → (nth (sort intervals) j).vreg ≢ (nth (sort intervals) k).vreg)
      → (j : ℕ) → j < length intervals
      → (nth (sort intervals) j).vreg < max_vreg
      → Agrees
          (regalloc_linear_scan sort conv call_pos max_vreg stack_size intervals)
          (nth (sort intervals) j).vreg
          ((regalloc_linear_scan sort conv call_pos max_vreg stack_size intervals).placements j)
  unfolding regalloc_linear_scan
  linear_scan-Agrees order same distinct =
      let iv = nth (sort intervals) in
      scan_from-Maps conv call_pos max_vreg iv (length intervals) distinct (length intervals) 0 0
        (scan_start conv stack_size) (omega arith)
        (λ j k before below.
          InOrder-le (sort intervals) j k order before (omega (arith, same, below)))
        (λ k from below. omega arith) (scan_start-StateInv conv call_pos max_vreg stack_size iv)
        (λ j below. absurd (omega (arith, below)))
