-- ===== src/RegAlloc/Safe.antt =====
-- Whole runs of the linear scan (src/backend/regalloc_linear_scan.c): intervals that overlap have
-- different registers, and each register suits its interval.
use baa.Base.{
  ℕ, zero, suc, ◌≡◌, refl, sym, ◌≢◌, inl, inr, ◌+◌, ◌<◌, ◌≤◌, Bool, true, false, not, ◌||◌, ◌&&◌,
  List, [], ◌∷◌, arith, Bool-cases, ltb, lt→ltb, ltb→lt, ◌==◌, ==_iff, length, ||-neither, &&-both,
}
use baa.RegAlloc.Convention.{
  CallingConv, phys_none, phys_reg_count, rsp, rbp, one_of, reg_free_at_start,
  reg_is_caller_saved_cc,
}
use baa.RegAlloc.Step.{LiveInterval, ScanState, interval_crosses_call, scan_step}
use baa.RegAlloc.Choice.{may_have}
use baa.RegAlloc.Rounds.{StateInv, scan_step-StateInv}
use baa.RegAlloc.{scan_from, scan_start, nth, regalloc_linear_scan}

-- In the order of their starts.
abbrev pub InOrder : List LiveInterval → Type 0
InOrder [] = Unit
InOrder (a ∷ []) = Unit
InOrder (a ∷ b ∷ rest) = (a.start ≤ b.start) × InOrder (b ∷ rest)

InOrder-first :
    (ivs : List LiveInterval) (a : LiveInterval) (k : ℕ)
    → InOrder (a ∷ ivs)
    → k < length ivs
    → a.start ≤ (nth ivs k).start
InOrder-first [] a k o below = omega (arith, below)
InOrder-first (b ∷ rest) a zero o below = o.0
InOrder-first (b ∷ rest) a (suc k) o below =
    omega (arith, o.0, InOrder-first rest b k o.1 (omega (arith, below)))

InOrder-tail : (a : LiveInterval) (ivs : List LiveInterval) → InOrder (a ∷ ivs) → InOrder ivs
InOrder-tail a [] o = tt
InOrder-tail a (b ∷ rest) o = o.1

pub InOrder-le :
    (ivs : List LiveInterval) (j k : ℕ)
    → InOrder ivs
    → j ≤ k
    → k < length ivs
    → (nth ivs j).start ≤ (nth ivs k).start
InOrder-le [] j k o before below = omega (arith, below)
InOrder-le (a ∷ rest) zero zero o before below = omega arith
InOrder-le (a ∷ rest) zero (suc k) o before below = InOrder-first rest a k o (omega (arith, below))
InOrder-le (a ∷ rest) (suc j) zero o before below = omega (arith, before)
InOrder-le (a ∷ rest) (suc j) (suc k) o before below =
    InOrder-le rest j k (InOrder-tail a rest o) (omega (arith, before)) (omega (arith, below))

module _ (conv : CallingConv) (call_pos : List ℕ) (max_vreg : ℕ) (iv : ℕ → LiveInterval)
    (count : ℕ) where
  pub scan_from-StateInv :
      (n i now : ℕ) (s : ScanState)
      → i + n ≡ count
      → ((j k : ℕ) → j ≤ k → k < count → (iv j).start ≤ (iv k).start)
      → ((k : ℕ) → i ≤ k → k < count → now ≤ (iv k).start)
      → StateInv conv call_pos max_vreg iv i now s
      → (t : ℕ) × StateInv conv call_pos max_vreg iv count t
          (scan_from conv call_pos max_vreg iv n i s)
  unfolding scan_from
  scan_from-StateInv zero i now s whole order later inv =
      let all : i ≡ count = omega (arith, whole) in (now, rw (sym all) inv)
  scan_from-StateInv (suc n) i now s whole order later inv =
      scan_from-StateInv n (i + 1) (iv i).start (scan_step conv call_pos max_vreg iv i s)
        (omega (arith, whole)) order (λ k from below. order i k (omega (arith, from)) below)
        (scan_step-StateInv conv call_pos max_vreg iv i now s
          (later i (omega arith) (omega (arith, whole))) inv)

pub scan_start-StateInv :
    (conv : CallingConv) (call_pos : List ℕ) (max_vreg stack_size : ℕ) (iv : ℕ → LiveInterval)
    → StateInv conv call_pos max_vreg iv 0 0 (scan_start conv stack_size)
scan_start-StateInv conv call_pos max_vreg stack_size iv = record {
  held = λ j r h. absurd h;
  distinct = tt;
  on = λ j below real. absurd (omega (arith, below));
  apart = λ j k before below real equal. absurd (omega (arith, below));
  fits = λ j below real. absurd (omega (arith, below));
  open_at_start = λ r h. h;
}

not_lem : (b : Bool) → not b ≡ true → b ≡ false
not_lem true h = cc
not_lem false h = refl

other_lem : (a b : ℕ) → (a == b) ≡ false → a ≢ b
other_lem a b h e = cc (h, (==_iff a b).1 e)

free_lem :
    (conv : CallingConv) (r : ℕ)
    → reg_free_at_start conv r ≡ true
    → (r < phys_reg_count)
      × (r ≢ rsp)
      × (r ≢ rbp)
      × (r ≢ conv.ret_phys_reg)
      × (one_of r conv.int_arg_phys_regs ≡ false)
unfolding reg_free_at_start
free_lem conv r h =
    let args = one_of r conv.int_arg_phys_regs in
    let (there, other) =
      &&-both (ltb r phys_reg_count) (not (r == rsp || r == rbp || conv.ret_phys_reg == r || args))
        h in
    let (rest, argument) =
      ||-neither (r == rsp || r == rbp || conv.ret_phys_reg == r) args (not_lem _ other) in
    let (pointer, result) = ||-neither (r == rsp || r == rbp) (conv.ret_phys_reg == r) rest in
    let (stack, frame) = ||-neither (r == rsp) (r == rbp) pointer in
    (
      ltb→lt r phys_reg_count there,
      other_lem r rsp stack,
      other_lem r rbp frame,
      (λ e. other_lem conv.ret_phys_reg r result (sym e)),
      argument,
    )

may_have_lem :
    (conv : CallingConv) (r : ℕ)
    → may_have conv true r ≡ true
    → reg_is_caller_saved_cc conv r ≡ false
may_have_lem conv r h = elim (Bool-cases (reg_is_caller_saved_cc conv r)) [
  | inl saved ↦ absurd (cc (rw saved at h))
  | inr other ↦ other
]

crosses_call_lem :
    (li : LiveInterval) (p : ℕ) (calls : List ℕ)
    → one_of p calls ≡ true
    → li.start < p
    → p < li.stop
    → interval_crosses_call li calls ≡ true
unfolding interval_crosses_call
crosses_call_lem li p [] call after before = cc
crosses_call_lem li p (q ∷ calls) call after before = elim (Bool-cases (q == p)) [
  | inl here ↦ rw ((==_iff q p).0 here, lt→ltb li.start p after, lt→ltb p li.stop before) refl
  | inr other ↦ elim (Bool-cases (ltb li.start q && ltb q li.stop)) [
    | inl inside ↦ rw inside refl
    | inr outside ↦ rw (outside, crosses_call_lem li p calls (rw other at call) after before) refl
  ]
]

module _ (sort : List LiveInterval → List LiveInterval) (conv : CallingConv) (call_pos : List ℕ)
    (max_vreg stack_size : ℕ) (intervals : List LiveInterval) where
  pub linear_scan-StateInv :
      InOrder (sort intervals)
      → length (sort intervals) ≡ length intervals
      → (t : ℕ) × StateInv conv call_pos max_vreg
          (nth (sort intervals))
          (length intervals)
          t
          (regalloc_linear_scan sort conv call_pos max_vreg stack_size intervals)
  unfolding regalloc_linear_scan
  linear_scan-StateInv order same =
      let iv = nth (sort intervals) in
      scan_from-StateInv conv call_pos max_vreg iv (length intervals) (length intervals) 0 0
        (scan_start conv stack_size) (omega arith)
        (λ j k before below.
          InOrder-le (sort intervals) j k order before (omega (arith, same, below)))
        (λ k from below. omega arith) (scan_start-StateInv conv call_pos max_vreg stack_size iv)

  -- The interval j in the order of the starts, and the register that it gets.
  abbrev pub interval : ℕ → LiveInterval
  interval j = nth (sort intervals) j

  abbrev pub register : ℕ → ℕ
  register j =
      ((regalloc_linear_scan sort conv call_pos max_vreg stack_size intervals).placements
        j).phys_reg

  -- Of two intervals that get the same register, the one that starts later starts after the other has
  -- ended, where `sort` orders the intervals by their starts and keeps their number.
  pub linear_scan_disjoint :
      InOrder (sort intervals)
      → length (sort intervals) ≡ length intervals
      → (j k : ℕ) → j < k
      → k < length intervals
      → register k ≢ phys_none
      → register j ≡ register k
      → (interval j).stop < (interval k).start
  linear_scan_disjoint order same j k before below real equal =
      (linear_scan-StateInv order same).1.apart j k before below real equal

  -- A register that an interval gets is one of the sixteen, but not the stack or frame pointer, not
  -- the register of results and not one of those for arguments, where `sort` orders the intervals by
  -- their starts and keeps their number.
  pub linear_scan_reserved :
      InOrder (sort intervals)
      → length (sort intervals) ≡ length intervals
      → (j : ℕ) → j < length intervals
      → register j ≢ phys_none
      → (register j < phys_reg_count)
        × (register j ≢ rsp)
        × (register j ≢ rbp)
        × (register j ≢ conv.ret_phys_reg)
        × (one_of (register j) conv.int_arg_phys_regs ≡ false)
  linear_scan_reserved order same j below real =
      free_lem conv (register j) ((linear_scan-StateInv order same).1.fits j below real).0

  -- Where a call stands strictly inside an interval, the register that the interval gets is not
  -- caller-saved, where `sort` orders the intervals by their starts and keeps their number.
  pub linear_scan_across_call :
      InOrder (sort intervals)
      → length (sort intervals) ≡ length intervals
      → (j p : ℕ) → j < length intervals
      → register j ≢ phys_none
      → one_of p call_pos ≡ true
      → (interval j).start < p
      → p < (interval j).stop
      → reg_is_caller_saved_cc conv (register j) ≡ false
  linear_scan_across_call order same j p below real call after before =
      let may = ((linear_scan-StateInv order same).1.fits j below real).1 in
      let crosses = crosses_call_lem (interval j) p call_pos call after before in
      may_have_lem conv (register j) (rw crosses at may)
