-- ===== src/Dce/Reach.antt =====
-- The marking of reachable blocks (`ir_mark_reachable` of src/middleend/ir_dce.c).
use baa.Base.{
  ℕ, zero, suc, ◌+◌, ◌≤◌, ◌<◌, ◌≡◌, refl, sym, ◌∙◌, ◌⊎◌, inl, inr, ◌↔◌, Bool, true, false, List, [],
  ◌∷◌, foldl, ◌==◌, ==_iff, ltb, lt→ltb, ltb→lt, Bool-cases, arith, length, subst,
}
use baa.Ir.Inst.{IrBlock}
use baa.RegAlloc.Convention.{one_of}
use baa.RegAlloc.Step.{write}
use baa.RegAlloc.Active.{write_here, write_other, Nat-cases}
use baa.Liveness.Flow.{either_true, or_left, or_right}
use baa.Dce.Unmarked.{unmarked, unmarked-write, unmarked_le, write_grows}
use baa.Dce.Blocks.{succs_of, push_succ, mark_loop, ir_mark_reachable}

-- The block n can be reached from the entry over the edges between blocks below max_id.
pub data Reach (max_id : ℕ) (blocks : List IrBlock) (entry : ℕ) : ℕ → Type 0 where
  start : Reach max_id blocks entry entry
  next :
      (b s : ℕ)
      → Reach max_id blocks entry b
      → one_of s (succs_of b blocks) ≡ true
      → s < max_id
      → Reach max_id blocks entry s

module _ (max_id : ℕ) (blocks : List IrBlock) (entry : ℕ) where
  abbrev MarkState : Type 0
  MarkState = (ℕ → Bool) × List ℕ

  abbrev weight : MarkState → ℕ
  weight (r, stack) = unmarked r max_id + length stack

  -- Between two successors: the successors ss of the block b are still to be looked at.
  record Marks (b : ℕ) (ss : List ℕ) (r : ℕ → Bool) (stack : List ℕ) : Type 0 where
    sound : (n : ℕ) → r n ≡ true → Reach max_id blocks entry n
    first : r entry ≡ true
    stacked : (n : ℕ) → one_of n stack ≡ true → r n ≡ true
    closed :
        (x t : ℕ)
        → r x ≡ true
        → one_of t (succs_of x blocks) ≡ true
        → t < max_id
        → (one_of x stack ≡ true) ⊎ (r t ≡ true) ⊎ ((x ≡ b) × (one_of t ss ≡ true))

  abbrev MarksAt : ℕ → List ℕ → MarkState → Type 0
  MarksAt b ss (r, stack) = Marks b ss r stack

  -- The successor needs no mark.
  skip-Marks :
      (b s : ℕ) (ss : List ℕ) (r : ℕ → Bool) (stack : List ℕ)
      → (s < max_id → r s ≡ true)
      → Marks b (s ∷ ss) r stack
      → Marks b ss r stack
  skip-Marks b s ss r stack old marks = record {
    sound = marks.sound;
    first = marks.first;
    stacked = marks.stacked;
    closed = λ x t marked edge below. elim (marks.closed x t marked edge below) [
      | inl on ↦ inl on
      | inr (inl done) ↦ inr (inl done)
      | inr (inr (e, there)) ↦ elim (Nat-cases s t) [
        | inl same ↦ inr (inl (rw (sym same) (old (omega (arith, same, below)))))
        | inr other ↦ elim (either_true (s == t) (one_of t ss) there) [
          | inl same ↦ absurd (other ((==_iff s t).0 same))
          | inr later ↦ inr (inr (e, later))
        ]
      ]
    ];
  }

  -- The successor is marked and put on the stack.
  mark-Marks :
      (b s : ℕ) (ss : List ℕ) (r : ℕ → Bool) (stack : List ℕ)
      → Reach max_id blocks entry s
      → Marks b (s ∷ ss) r stack
      → Marks b ss (write r s true) (s ∷ stack)
  mark-Marks b s ss r stack way marks = record {
    sound = λ n h. elim (Nat-cases n s) [
      | inl e ↦ rw e way
      | inr other ↦ marks.sound n (sym (write_other r s n true other) ∙ h)
    ];
    first = write_grows r s entry marks.first;
    stacked = λ n h. elim (either_true (s == n) (one_of n stack) h) [
      | inl e ↦ rw (sym ((==_iff s n).0 e)) (write_here r s true)
      | inr on ↦ write_grows r s n (marks.stacked n on)
    ];
    closed = λ x t marked edge below. elim (Nat-cases x s) [
      | inl e ↦ inl (or_left (s == x) (one_of x stack) ((==_iff s x).1 (sym e)))
      | inr other ↦
          elim (marks.closed x t (sym (write_other r s x true other) ∙ marked) edge below) [
            | inl on ↦ inl (or_right (s == x) (one_of x stack) on)
            | inr (inl done) ↦ inr (inl (write_grows r s t done))
            | inr (inr (e, there)) ↦ elim (either_true (s == t) (one_of t ss) there) [
              | inl same ↦ inr (inl (rw (sym ((==_iff s t).0 same)) (write_here r s true)))
              | inr later ↦ inr (inr (e, later))
            ]
          ]
    ];
  }

  push_succ-Marks :
      (b s : ℕ) (ss : List ℕ) (m : MarkState)
      → Reach max_id blocks entry b
      → one_of s (succs_of b blocks) ≡ true
      → MarksAt b (s ∷ ss) m
      → MarksAt b ss (push_succ max_id m s) × (weight (push_succ max_id m s) ≡ weight m)
  unfolding push_succ
  push_succ-Marks b s ss (r, stack) way edge marks = elim (Bool-cases (ltb s max_id)) [
    | inr out ↦
        rw out (skip-Marks b s ss r stack (λ below. cc (out, lt→ltb s max_id below)) marks, refl)
    | inl within ↦ elim (Bool-cases (r s)) [
      | inl marked ↦ rw (within, marked) (skip-Marks b s ss r stack (λ below. marked) marks, refl)
      | inr fresh ↦
          let below = ltb→lt s max_id within in
          rw (within, fresh)
            (
              mark-Marks b s ss r stack (Reach.next b s way edge below) marks,
              omega (arith, unmarked-write r s max_id fresh below),
            )
    ]
  ]

  push_succs-Marks :
      (b : ℕ) (ss : List ℕ) (m : MarkState)
      → Reach max_id blocks entry b
      → ((s : ℕ) → one_of s ss ≡ true → one_of s (succs_of b blocks) ≡ true)
      → MarksAt b ss m
      → MarksAt b [] (foldl (push_succ max_id) m ss)
        × (weight (foldl (push_succ max_id) m ss) ≡ weight m)
  push_succs-Marks b [] m way edges marks = (marks, refl)
  push_succs-Marks b (s ∷ ss) m way edges marks =
      let (after, same) =
        push_succ-Marks b s ss m way
          (edges s (or_left (s == s) (one_of s ss) ((==_iff s s).1 refl))) marks in
      let (done, same') =
        push_succs-Marks b ss (push_succ max_id m s) way
          (λ t there. edges t (or_right (s == t) (one_of t ss) there)) after in
      (done, same' ∙ same)

  pop-Marks :
      (c b : ℕ) (r : ℕ → Bool) (stack : List ℕ)
      → Marks c [] r (b ∷ stack)
      → Marks b (succs_of b blocks) r stack
  pop-Marks c b r stack marks = record {
    sound = marks.sound;
    first = marks.first;
    stacked = λ n on. marks.stacked n (or_right (b == n) (one_of n stack) on);
    closed = λ x t marked edge below. elim (marks.closed x t marked edge below) [
      | inl on ↦ elim (either_true (b == x) (one_of x stack) on) [
        | inl e ↦ let same : x ≡ b = sym ((==_iff b x).0 e) in inr (inr (same, rw same at edge))
        | inr later ↦ inl later
      ]
      | inr (inl done) ↦ inr (inl done)
      | inr (inr (e, there)) ↦ cc
    ];
  }

  -- With enough fuel the loop ends with an empty stack.
  mark_loop-Marks :
      (fuel c : ℕ) (m : MarkState)
      → weight m ≤ fuel
      → MarksAt c [] m
      → (d : ℕ) × MarksAt d [] (mark_loop fuel max_id blocks m)
        × ((mark_loop fuel max_id blocks m).1 ≡ [])
  unfolding mark_loop
  mark_loop-Marks zero c (r, []) enough marks = (c, marks, refl)
  mark_loop-Marks zero c (r, b ∷ stack) enough marks = absurd (omega (arith, enough))
  mark_loop-Marks (suc fuel) c (r, []) enough marks = (c, marks, refl)
  mark_loop-Marks (suc fuel) c (r, b ∷ stack) enough marks =
      let here = marks.stacked b (or_left (b == b) (one_of b stack) ((==_iff b b).1 refl)) in
      let (after, same) =
        push_succs-Marks b (succs_of b blocks) (r, stack) (marks.sound b here) (λ s there. there)
          (pop-Marks c b r stack marks) in
      mark_loop-Marks fuel b (foldl (push_succ max_id) (r, stack) (succs_of b blocks))
        (omega (arith, same, enough)) after

  start-Marks : Marks 0 [] (write (λ _. false) entry true) (entry ∷ [])
  start-Marks = record {
    sound = λ n h. elim (Nat-cases n entry) [
      | inl e ↦ rw e Reach.start
      | inr other ↦ cc (sym (write_other (λ _. false) entry n true other) ∙ h)
    ];
    first = write_here (λ _. false) entry true;
    stacked = λ n h. elim (either_true (entry == n) false h) [
      | inl e ↦ rw (sym ((==_iff entry n).0 e)) (write_here (λ _. false) entry true)
      | inr none ↦ cc
    ];
    closed = λ x t marked edge below. elim (Nat-cases x entry) [
      | inl e ↦ inl (or_left (entry == x) false ((==_iff entry x).1 (sym e)))
      | inr other ↦ cc (sym (write_other (λ _. false) entry x true other) ∙ marked)
    ];
  }

  complete :
      (c : ℕ) (r : ℕ → Bool) (n : ℕ) → Marks c [] r [] → Reach max_id blocks entry n → r n ≡ true
  complete c r _ marks Reach.start = marks.first
  complete c r _ marks (Reach.next b s way edge below) =
      elim (marks.closed b s (complete c r b marks way) edge below) [
        | inl on ↦ cc
        | inr (inl done) ↦ done
        | inr (inr (e, there)) ↦ cc
      ]

  -- Where the entry's id is below the bound, a block is marked just when it can be reached from the entry
  -- over the edges between blocks below the bound.
  pub mark_reachable_iff :
      entry < max_id
      → (n : ℕ) → (ir_mark_reachable max_id blocks entry n ≡ true) ↔ Reach max_id blocks entry n
  unfolding ir_mark_reachable
  mark_reachable_iff below n =
      let first = write (λ _. false) entry true in
      let fits = unmarked-write (λ _. false) entry max_id refl below in
      let (c, marks, empty) =
        mark_loop-Marks max_id 0 (first, entry ∷ [])
          (omega (arith, fits, unmarked_le (λ _. false) max_id)) start-Marks in
      let r = (mark_loop max_id max_id blocks (first, entry ∷ [])).0 in
      rw (lt→ltb entry max_id below)
        (marks.sound n, complete c r n (subst (λ l. Marks c [] r l) empty marks))
