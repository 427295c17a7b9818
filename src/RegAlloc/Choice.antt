-- ===== src/RegAlloc/Choice.antt =====
-- The choices of the linear scan (src/backend/regalloc_linear_scan.c): the free register for an
-- interval and the active interval that gives up its own.
use baa.Base.{
  ℕ, ◌≡◌, refl, sym, ◌≢◌, ◌⊎◌, inl, inr, Bool, true, List, [], ◌∷◌, ltb, Bool-cases, not, ◌&&◌,
  &&-both, subst, ◌∙◌, ◌==◌, ==_iff,
}
use baa.RegAlloc.Convention.{CallingConv, reg_is_caller_saved_cc, phys_none, one_of}
use baa.RegAlloc.Step.{LiveInterval, ActiveEntry, find_reg, pick_spill}
use baa.RegAlloc.Active.{Holds}

-- A register that an interval may have: one across a call has none that the call may change.
abbrev pub may_have : CallingConv → Bool → ℕ → Bool
may_have cc crosses r = not (crosses && reg_is_caller_saved_cc cc r)

later_one_of : (r x : ℕ) (rs : List ℕ) → one_of r rs ≡ true → one_of r (x ∷ rs) ≡ true
later_one_of r x rs there = elim (Bool-cases (x == r)) [ inl e ↦ rw e | inr e ↦ rw e there ]

find_reg-passes :
    (cc : CallingConv) (crosses : Bool) (free : ℕ → Bool) (r : ℕ) (rs : List ℕ)
    → (find_reg cc crosses free (r ∷ rs) ≡ find_reg cc crosses free rs)
      ⊎ (find_reg cc crosses free (r ∷ rs) ≡ r)
unfolding find_reg
find_reg-passes conv crosses free r rs =
    elim (Bool-cases (crosses && reg_is_caller_saved_cc conv r)) [
      | inl unfit ↦ inl (rw unfit refl)
      | inr fit ↦ elim (Bool-cases (free r)) [
        | inl idle ↦ inr (rw (fit, idle) refl)
        | inr taken ↦ inl (rw (fit, taken) refl)
      ]
    ]

find_reg-nil :
    (cc : CallingConv) (crosses : Bool) (free : ℕ → Bool) → find_reg cc crosses free [] ≡ phys_none
unfolding find_reg
find_reg-nil conv crosses free = refl

-- The register found stands in the list.
pub find_reg-one_of :
    (cc : CallingConv) (crosses : Bool) (free : ℕ → Bool) (order : List ℕ)
    → find_reg cc crosses free order ≢ phys_none
    → one_of (find_reg cc crosses free order) order ≡ true
find_reg-one_of conv crosses free [] found = absurd (found (find_reg-nil conv crosses free))
find_reg-one_of conv crosses free (r ∷ rs) found = elim (find_reg-passes conv crosses free r rs) [
  | inl same ↦
      subst (λ (q : ℕ). one_of q (r ∷ rs) ≡ true) (sym same)
        (later_one_of (find_reg conv crosses free rs) r rs
          (find_reg-one_of conv crosses free rs (λ e. found (same ∙ e))))
  | inr here ↦
      let first : one_of r (r ∷ rs) ≡ true = rw ((==_iff r r).1 refl) in
      subst (λ (q : ℕ). one_of q (r ∷ rs) ≡ true) (sym here) first
]

pub find_reg_lem :
    (cc : CallingConv) (crosses : Bool) (free : ℕ → Bool) (order : List ℕ)
    → find_reg cc crosses free order ≢ phys_none
    → (free (find_reg cc crosses free order) ≡ true)
      × (may_have cc crosses (find_reg cc crosses free order) ≡ true)
unfolding find_reg
find_reg_lem conv crosses free [] found = absurd (found refl)
find_reg_lem conv crosses free (r ∷ rs) found =
    elim (Bool-cases (crosses && reg_is_caller_saved_cc conv r)) [
      | inl unfit ↦ rw unfit (find_reg_lem conv crosses free rs (rw unfit at found))
      | inr fit ↦ elim (Bool-cases (free r)) [
        | inl idle ↦ rw (fit, idle) (idle, rw fit refl)
        | inr taken ↦ rw (fit, taken) (find_reg_lem conv crosses free rs (rw (fit, taken) at found))
      ]
    ]

-- The interval chosen is the current one, or an active one whose register would do.
pub pick_spill_lem :
    (cc : CallingConv) (crosses : Bool) (iv : ℕ → LiveInterval) (i longest v : ℕ)
    → (entries : List ActiveEntry) → pick_spill cc crosses iv i longest entries ≡ v
    → (v ≡ i) ⊎ ((r : ℕ) × Holds v r entries × (may_have cc crosses r ≡ true))
unfolding pick_spill
pick_spill_lem conv crosses iv i longest v [] chosen = inl (sym chosen)
pick_spill_lem conv crosses iv i longest v (a ∷ rest) chosen =
    let fit = may_have conv crosses a.reg in
    let stop = (iv a.interval_idx).stop in
    elim (Bool-cases (fit && ltb longest stop)) [
      | inl better ↦
          elim (pick_spill_lem conv crosses iv a.interval_idx stop v rest (rw better at chosen)) [
            | inl this ↦
                inr (a.reg, inl (sym this, refl), (&&-both fit (ltb longest stop) better).0)
            | inr (r, held, ok) ↦ inr (r, inr held, ok)
          ]
      | inr worse ↦ elim (pick_spill_lem conv crosses iv i longest v rest (rw worse at chosen)) [
        | inl this ↦ inl this
        | inr (r, held, ok) ↦ inr (r, inr held, ok)
      ]
    ]
