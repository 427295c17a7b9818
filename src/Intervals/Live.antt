-- ===== src/Intervals/Live.antt =====
-- A register's interval covers the instructions before which it is live
-- (src/backend/regalloc_liveness.c).
use baa.Base.{
  ℕ, ◌+◌, ◌≤◌, ◌≡◌, refl, sym, ◌∙◌, ap, ◌⊎◌, inl, inr, true, false, not, ◌&&◌, &&-both, ◌||◌,
  ||-neither, Option, none, some, List, [], ◌∷◌, ◌++◌, ◌==◌, Bool-cases, arith,
}
use mathlib.Core.Option.{some-injective}
use baa.Machine.{MachineInst, MachineBlock}
use baa.RegAlloc.Convention.{one_of}
use baa.RegAlloc.Step.{LiveInterval}
use baa.Liveness.{
  listed, normal_vreg, mem_base_vreg, same_vreg, two_address_use, is_two_address, inst_uses,
}
use baa.Liveness.Exposed.{exposed, defined, defines, is_vreg}
use baa.Liveness.Flow.{LiveOut, either_true, or_left, or_right}
use baa.Intervals.{inst_mentions, inst_count}
use baa.Intervals.Spans.{Spans}

-- Live before the instructions that end the block i: used there before it is defined, or not defined
-- there and live at the end of the block.
abbrev pub LiveBefore : List MachineBlock → ℕ → ℕ → List MachineInst → Type 0
LiveBefore blocks v i rest =
    (exposed v rest ≡ true) ⊎ ((defined v rest ≡ false) × LiveOut blocks v i)

one_of-append : (v : ℕ) (xs ys : List ℕ) → one_of v (xs ++ ys) ≡ (one_of v xs || one_of v ys)
one_of-append v [] ys = refl
one_of-append v (x ∷ xs) ys = elim (Bool-cases (x == v)) [
  | inl here ↦ rw here refl
  | inr other ↦ rw other (one_of-append v xs ys)
]

two_address_lem :
    (v : ℕ) (i : MachineInst)
    → one_of v (listed (two_address_use i)) ≡ true
    → one_of v (listed (normal_vreg i.dst.payload)) ≡ true
unfolding two_address_use
two_address_lem v i h = elim (Bool-cases (is_two_address i.op)) [
  | inr single ↦ cc (rw single at h)
  | inl double ↦
      same_vreg_lem v (normal_vreg i.dst.payload) (normal_vreg i.src1.payload) (rw double at h)
]
  where
    same_vreg_lem :
        (w : ℕ) (d s : Option ℕ)
        → one_of w (listed (same_vreg d s)) ≡ true
        → one_of w (listed d) ≡ true
    same_vreg_lem w none s k = cc
    same_vreg_lem w (some d) none k = cc
    same_vreg_lem w (some d) (some s) k = elim (Bool-cases (d == s)) [
      | inl same ↦ rw same at k
      | inr other ↦ cc (rw other at k)
    ]

one_of-left : (v : ℕ) (xs ys : List ℕ) → one_of v xs ≡ true → one_of v (xs ++ ys) ≡ true
one_of-left v xs ys h = one_of-append v xs ys ∙ or_left (one_of v xs) (one_of v ys) h

one_of-right : (v : ℕ) (xs ys : List ℕ) → one_of v ys ≡ true → one_of v (xs ++ ys) ≡ true
one_of-right v xs ys h = one_of-append v xs ys ∙ or_right (one_of v xs) (one_of v ys) h

one_of-either :
    (v : ℕ) (xs ys : List ℕ)
    → one_of v (xs ++ ys) ≡ true
    → (one_of v xs ≡ true) ⊎ (one_of v ys ≡ true)
one_of-either v xs ys h = either_true (one_of v xs) (one_of v ys) (sym (one_of-append v xs ys) ∙ h)

module _ (v : ℕ) (a b c d e f : List ℕ) where
  third : one_of v c ≡ true → one_of v (a ++ (b ++ (c ++ (d ++ (e ++ f))))) ≡ true
  third h =
      one_of-right v a (b ++ (c ++ (d ++ (e ++ f))))
        (one_of-right v b (c ++ (d ++ (e ++ f))) (one_of-left v c (d ++ (e ++ f)) h))

  later : one_of v (d ++ (e ++ f)) ≡ true → one_of v (a ++ (b ++ (c ++ (d ++ (e ++ f))))) ≡ true
  later h =
      one_of-right v a (b ++ (c ++ (d ++ (e ++ f))))
        (one_of-right v b (c ++ (d ++ (e ++ f))) (one_of-right v c (d ++ (e ++ f)) h))

  last : one_of v f ≡ true → one_of v (a ++ (b ++ (c ++ (d ++ (e ++ f))))) ≡ true
  last h = later (one_of-right v d (e ++ f) (one_of-right v e f h))

-- The lists in the order of the intervals hold what those in the order of the uses hold.
reorder :
    (v : ℕ) (a b c d e f g : List ℕ)
    → (one_of v e ≡ true → one_of v g ≡ true)
    → one_of v (a ++ (b ++ (c ++ (d ++ (e ++ f))))) ≡ true
    → one_of v (a ++ (c ++ (b ++ (d ++ (f ++ g))))) ≡ true
reorder v a b c d e f g double h = elim (one_of-either v a (b ++ (c ++ (d ++ (e ++ f)))) h) [
  | inl in_a ↦ one_of-left v a (c ++ (b ++ (d ++ (f ++ g)))) in_a
  | inr h1 ↦ elim (one_of-either v b (c ++ (d ++ (e ++ f))) h1) [
    | inl in_b ↦ third v a c b d f g in_b
    | inr h2 ↦ elim (one_of-either v c (d ++ (e ++ f)) h2) [
      | inl in_c ↦
          one_of-right v a (c ++ (b ++ (d ++ (f ++ g))))
            (one_of-left v c (b ++ (d ++ (f ++ g))) in_c)
      | inr h3 ↦ later v a c b d f g (elim (one_of-either v d (e ++ f) h3) [
        | inl in_d ↦ one_of-left v d (f ++ g) in_d
        | inr h4 ↦ one_of-right v d (f ++ g) (elim (one_of-either v e f h4) [
          | inl in_e ↦ one_of-right v f g (double in_e)
          | inr in_f ↦ one_of-left v f g in_f
        ])
      ])
    ]
  ]
]

-- What is used is mentioned.
uses-mentions :
    (v : ℕ) (i : MachineInst) → one_of v (inst_uses i) ≡ true → one_of v (inst_mentions i) ≡ true
unfolding inst_uses inst_mentions
uses-mentions v i h =
    reorder v (listed (normal_vreg i.src1.payload)) (listed (mem_base_vreg i.src1.payload))
      (listed (normal_vreg i.src2.payload)) (listed (mem_base_vreg i.src2.payload))
      (listed (two_address_use i)) (listed (mem_base_vreg i.dst.payload))
      (listed (normal_vreg i.dst.payload)) (two_address_lem v i) h

is_vreg-listed : (d : Option ℕ) (v : ℕ) → is_vreg d v ≡ true → one_of v (listed d) ≡ true
is_vreg-listed none v h = cc
is_vreg-listed (some d) v h = or_left (d == v) false h

defines-mentions :
    (v : ℕ) (i : MachineInst) → defines v i ≡ true → one_of v (inst_mentions i) ≡ true
unfolding inst_mentions
defines-mentions v i h =
    last v (listed (normal_vreg i.src1.payload)) (listed (normal_vreg i.src2.payload))
      (listed (mem_base_vreg i.src1.payload)) (listed (mem_base_vreg i.src2.payload))
      (listed (mem_base_vreg i.dst.payload)) (listed (normal_vreg i.dst.payload))
      (is_vreg-listed (normal_vreg i.dst.payload) v h)

-- A place in a list of instructions where the register is mentioned.
abbrev pub MentionIn : ℕ → List MachineInst → Type 0
MentionIn v is =
    (before after : List MachineInst) × (i : MachineInst) × (is ≡ before ++ i ∷ after)
    × (one_of v (inst_mentions i) ≡ true)

later_mention :
    (v : ℕ) (j : MachineInst) (is : List MachineInst) → MentionIn v is → MentionIn v (j ∷ is)
later_mention v j is (before, after, i, split, there) =
    (j ∷ before, after, i, ap (◌∷◌ j) split, there)

pub exposed-MentionIn : (v : ℕ) (is : List MachineInst) → exposed v is ≡ true → MentionIn v is
exposed-MentionIn v [] h = cc
exposed-MentionIn v (i ∷ is) h =
    elim (either_true (one_of v (inst_uses i)) (not (defines v i) && exposed v is) h) [
      | inl here ↦ ([], is, i, refl, uses-mentions v i here)
      | inr after ↦
          later_mention v i is
            (exposed-MentionIn v is (&&-both (not (defines v i)) (exposed v is) after).1)
    ]

pub defined-MentionIn : (v : ℕ) (is : List MachineInst) → defined v is ≡ true → MentionIn v is
defined-MentionIn v [] h = cc
defined-MentionIn v (i ∷ is) h = elim (either_true (defines v i) (defined v is) h) [
  | inl here ↦ ([], is, i, refl, defines-mentions v i here)
  | inr after ↦ later_mention v i is (defined-MentionIn v is after)
]

pub exposed-append :
    (v : ℕ) (xs ys : List MachineInst)
    → defined v xs ≡ false
    → exposed v ys ≡ true
    → exposed v (xs ++ ys) ≡ true
exposed-append v [] ys clear h = h
exposed-append v (x ∷ xs) ys clear h =
    let (first, rest) = ||-neither (defines v x) (defined v xs) clear in
    or_right (one_of v (inst_uses x)) (not (defines v x) && exposed v (xs ++ ys))
      (rw (first, exposed-append v xs ys rest h) refl)

pub defined-append :
    (v : ℕ) (xs ys : List MachineInst)
    → defined v xs ≡ false
    → defined v ys ≡ false
    → defined v (xs ++ ys) ≡ false
defined-append v [] ys clear h = h
defined-append v (x ∷ xs) ys clear h =
    let (first, rest) = ||-neither (defines v x) (defined v xs) clear in
    rw (first, defined-append v xs ys rest h) refl

pub inst_count-append :
    (xs ys : List MachineInst) → inst_count (xs ++ ys) ≡ inst_count xs + inst_count ys
inst_count-append [] ys = omega arith
inst_count-append (x ∷ xs) ys = omega (arith, inst_count-append xs ys)

-- An interval that covers two positions covers those between them.
pub Spans-between :
    (v a q b : ℕ) (ivs : List LiveInterval)
    → Spans v a ivs
    → Spans v b ivs
    → a ≤ q
    → q ≤ b
    → Spans v q ivs
Spans-between v a q b ivs (li, found, low, high) (li', found', low', high') before after =
    let same : li ≡ li' = some-injective li li' (sym found ∙ found') in
    let stops : li.stop ≡ li'.stop = ap (λ (k : LiveInterval). k.stop) same in
    (li, found, omega (arith, low, before), omega (arith, stops, high', after))

pub append_assoc : (xs ys zs : List MachineInst) → (xs ++ ys) ++ zs ≡ xs ++ (ys ++ zs)
append_assoc [] ys zs = refl
append_assoc (x ∷ xs) ys zs = ap (◌∷◌ x) (append_assoc xs ys zs)
