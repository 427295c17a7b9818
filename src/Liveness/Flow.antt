-- ===== src/Liveness/Flow.antt =====
-- What it means for a register to be live in a machine function, and the unions over the successors
-- of a block (src/backend/regalloc_liveness.c).
use baa.Base.{
  ℕ, ◌<◌, ◌≡◌, refl, sym, ◌∙◌, ◌⊎◌, inl, inr, Bool, true, false, ◌||◌, ||-neither, Option, none,
  some, List, [], ◌∷◌, ◌==◌, ==_iff,
}
use baa.Machine.{MachineBlock}
use baa.RegAlloc.Convention.{one_of}
use baa.Liveness.{BitSet, BlockLiveness, block_at, index_of, union_live_in, union_succs}
use baa.Liveness.Sets.{bitset_union-bit, bitset_union-same}
use baa.Liveness.Exposed.{exposed, defined}

-- The block i may go on with the block j.
abbrev pub Succ : List MachineBlock → ℕ → ℕ → Type 0
Succ blocks i j =
    (s : ℕ) × (one_of s (block_at blocks i).succs ≡ true) × (index_of s blocks ≡ some j)

-- The register v may be used before it is defined, on a way that starts with the block.
pub data LiveIn (blocks : List MachineBlock) (v : ℕ) : ℕ → Type 0 where
  used : (i : ℕ) → exposed v (block_at blocks i).insts ≡ true → LiveIn blocks v i
  through :
      (i j : ℕ)
      → defined v (block_at blocks i).insts ≡ false
      → Succ blocks i j
      → LiveIn blocks v j
      → LiveIn blocks v i

-- The register v is live at the start of a successor.
abbrev pub LiveOut : List MachineBlock → ℕ → ℕ → Type 0
LiveOut blocks v i = (j : ℕ) × Succ blocks i j × LiveIn blocks v j

pub either_true : (a b : Bool) → (a || b) ≡ true → (a ≡ true) ⊎ (b ≡ true)
either_true true b h = inl refl
either_true false b h = inr h

pub or_left : (a b : Bool) → a ≡ true → (a || b) ≡ true
or_left a b h = rw h refl

pub or_right : (a b : Bool) → b ≡ true → (a || b) ≡ true
or_right true b h = refl
or_right false b h = h

module _ (bits : ℕ) (lives : ℕ → BlockLiveness) (blocks : List MachineBlock) where
  union_live_in-grows :
      (o : Option ℕ) (out : BitSet) (v : ℕ)
      → v < bits
      → out v ≡ true
      → (union_live_in bits lives o out).0 v ≡ true
  unfolding union_live_in
  union_live_in-grows none out v below h = h
  union_live_in-grows (some j) out v below h =
      bitset_union-bit bits out (lives j).live_in v below ∙ or_left (out v) ((lives j).live_in v) h

  union_live_in-same :
      (o : Option ℕ) (out : BitSet)
      → (union_live_in bits lives o out).1 ≡ false
      → (union_live_in bits lives o out).0 ≡ out
  unfolding union_live_in
  union_live_in-same none out h = refl
  union_live_in-same (some j) out h = bitset_union-same bits out (lives j).live_in h

  union_live_in-has :
      (o : Option ℕ) (out : BitSet) (j v : ℕ)
      → o ≡ some j
      → v < bits
      → (lives j).live_in v ≡ true
      → (union_live_in bits lives o out).0 v ≡ true
  unfolding union_live_in
  union_live_in-has o out j v e below h = rw e (
      bitset_union-bit bits out (lives j).live_in v below
      ∙ or_right (out v) ((lives j).live_in v) h)

  union_live_in-only :
      (o : Option ℕ) (out : BitSet) (v : ℕ)
      → v < bits
      → (union_live_in bits lives o out).0 v ≡ true
      → (out v ≡ true) ⊎ ((j : ℕ) × (o ≡ some j) × ((lives j).live_in v ≡ true))
  unfolding union_live_in
  union_live_in-only none out v below h = inl h
  union_live_in-only (some j) out v below h =
      elim (either_true (out v) ((lives j).live_in v)
        (sym (bitset_union-bit bits out (lives j).live_in v below) ∙ h)) [
          | inl old ↦ inl old
          | inr new ↦ inr (j, refl, new)
        ]

  pub union_succs-grows :
      (ss : List ℕ) (out : BitSet) (v : ℕ)
      → v < bits
      → out v ≡ true
      → (union_succs bits lives blocks ss out).0 v ≡ true
  unfolding union_succs
  union_succs-grows [] out v below h = h
  union_succs-grows (s ∷ ss) out v below h =
      union_succs-grows ss (union_live_in bits lives (index_of s blocks) out).0 v below
        (union_live_in-grows (index_of s blocks) out v below h)

  pub union_succs-same :
      (ss : List ℕ) (out : BitSet)
      → (union_succs bits lives blocks ss out).1 ≡ false
      → (union_succs bits lives blocks ss out).0 ≡ out
  unfolding union_succs
  union_succs-same [] out h = refl
  union_succs-same (s ∷ ss) out h =
      let first = union_live_in bits lives (index_of s blocks) out in
      let (quiet, rest) = ||-neither first.1 (union_succs bits lives blocks ss first.0).1 h in
      union_succs-same ss first.0 rest ∙ union_live_in-same (index_of s blocks) out quiet

  pub union_succs-has :
      (ss : List ℕ) (out : BitSet) (s j v : ℕ)
      → one_of s ss ≡ true
      → index_of s blocks ≡ some j
      → v < bits
      → (lives j).live_in v ≡ true
      → (union_succs bits lives blocks ss out).0 v ≡ true
  unfolding union_succs
  union_succs-has [] out s j v there at below h = cc
  union_succs-has (t ∷ ss) out s j v there at below h =
      let first = (union_live_in bits lives (index_of t blocks) out).0 in
      elim (either_true (t == s) (one_of s ss) there) [
        | inl here ↦
            union_succs-grows ss first v below
              (union_live_in-has (index_of t blocks) out j v (rw ((==_iff t s).0 here) at) below h)
        | inr later ↦ union_succs-has ss first s j v later at below h
      ]

  pub union_succs-only :
      (ss : List ℕ) (out : BitSet) (v : ℕ)
      → v < bits
      → (union_succs bits lives blocks ss out).0 v ≡ true
      → (out v ≡ true)
        ⊎ ((s j : ℕ) × (one_of s ss ≡ true)
            × (index_of s blocks ≡ some j)
            × ((lives j).live_in v ≡ true))
  unfolding union_succs
  union_succs-only [] out v below h = inl h
  union_succs-only (t ∷ ss) out v below h =
      let first = (union_live_in bits lives (index_of t blocks) out).0 in
      elim (union_succs-only ss first v below h) [
        | inl here ↦ elim (union_live_in-only (index_of t blocks) out v below here) [
          | inl old ↦ inl old
          | inr (j, at, live) ↦
              inr (t, j, or_left (t == t) (one_of t ss) ((==_iff t t).1 refl), at, live)
        ]
        | inr (s, j, there, at, live) ↦ inr (s, j, or_right (t == s) (one_of s ss) there, at, live)
      ]
