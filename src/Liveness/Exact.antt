-- ===== src/Liveness/Exact.antt =====
-- The sets of the liveness analysis are exactly the registers that are live
-- (src/backend/regalloc_liveness.c).
use baa.Base.{
  ℕ, zero, suc, ◌*◌, ◌<◌, ◌≤◌, ◌≡◌, refl, sym, ◌∙◌, ap, ◌↔◌, inl, inr, Bool, true, false, not, ◌&&◌,
  &&-both, ◌||◌, Option, none, some, List, [], ◌∷◌, ◌==◌, Bool-cases, Option-cases, ltb, foldl,
  arith, length,
}
use mathlib.Core.Option.{some-injective}
use baa.Machine.{MachineInst, MachineBlock}
use baa.RegAlloc.Step.{write}
use baa.RegAlloc.Active.{write_here, write_other, Nat-cases}
use baa.Liveness.{
  BitSet, BlockLiveness, block_at, index_of, bitset_word_count, bitset_diff, normal_vreg, inst_uses,
  record_use, record_def, scan_inst, block_def_use, regalloc_compute_def_use, union_succs,
  update_block, round, rounds, regalloc_compute_liveness,
}
use baa.Liveness.Sets.{update_live_in-bit}
use baa.Liveness.Exposed.{exposed, defined, block_def_use-bits}
use baa.Liveness.Flow.{LiveIn, LiveOut, union_succs-only, either_true, or_left, or_right}
use baa.Liveness.Stable.{StableAt, rounds-stable}

index_of-lt :
    (s : ℕ) (blocks : List MachineBlock) (j : ℕ) → index_of s blocks ≡ some j → j < length blocks
unfolding index_of
index_of-lt s [] j h = cc
index_of-lt s (b ∷ bs) j h = elim (Bool-cases (b.id == s)) [
  | inl here ↦ ground (arith, rw here at h)
  | inr other ↦ elim (Option-cases (index_of s bs)) [
    | inl nowhere ↦ cc (rw (other, nowhere) at h)
    | inr (k, at) ↦
        let next : some (suc k) ≡ some j = rw (other, at) at h in
        omega (arith, index_of-lt s bs k at, some-injective (suc k) j next)
  ]
]

not_true : (b : Bool) → not b ≡ true → b ≡ false
not_true true h = cc
not_true false h = refl

-- The bits are those of the bound at least.
words_cover : (max_vreg : ℕ) → max_vreg ≤ 64 * bitset_word_count max_vreg
unfolding bitset_word_count
words_cover max_vreg = omega arith

kept_uses :
    (bits : ℕ) (blocks : List MachineBlock) (lives : ℕ → BlockLiveness) (i v : ℕ)
    → (update_block bits lives blocks i).0.uses v ≡ (lives i).uses v
unfolding update_block
kept_uses bits blocks lives i v = refl

kept_defs :
    (bits : ℕ) (blocks : List MachineBlock) (lives : ℕ → BlockLiveness) (i v : ℕ)
    → (update_block bits lives blocks i).0.defs v ≡ (lives i).defs v
unfolding update_block
kept_defs bits blocks lives i v = refl

-- The scan of a block leaves the other two sets alone.
abbrev SameLive : BlockLiveness → BlockLiveness → Type 0
SameLive a b = (a.live_in ≡ b.live_in) × (a.live_out ≡ b.live_out)

record_uses-SameLive :
    (max_vreg : ℕ) (us : List ℕ) (bl : BlockLiveness)
    → SameLive (foldl (record_use max_vreg) bl us) bl
unfolding record_use
record_uses-SameLive max_vreg [] bl = (refl, refl)
record_uses-SameLive max_vreg (u ∷ us) bl =
    let (i, o) = record_uses-SameLive max_vreg us (record_use max_vreg bl u) in
    elim (Bool-cases (ltb u max_vreg && not (bl.defs u))) [
      | inl new ↦ (i ∙ rw new refl, o ∙ rw new refl)
      | inr old ↦ (i ∙ rw old refl, o ∙ rw old refl)
    ]

record_def-SameLive :
    (max_vreg : ℕ) (bl : BlockLiveness) (d : Option ℕ) → SameLive (record_def max_vreg bl d) bl
unfolding record_def
record_def-SameLive max_vreg bl none = (refl, refl)
record_def-SameLive max_vreg bl (some d) = elim (Bool-cases (ltb d max_vreg)) [
  | inl fits ↦ rw fits (refl, refl)
  | inr beyond ↦ rw beyond (refl, refl)
]

scan_insts-SameLive :
    (max_vreg : ℕ) (is : List MachineInst) (bl : BlockLiveness)
    → SameLive (foldl (scan_inst max_vreg) bl is) bl
unfolding scan_inst
scan_insts-SameLive max_vreg [] bl = (refl, refl)
scan_insts-SameLive max_vreg (i ∷ is) bl =
    let used = foldl (record_use max_vreg) bl (inst_uses i) in
    let (in_rest, out_rest) = scan_insts-SameLive max_vreg is (scan_inst max_vreg bl i) in
    let (in_def, out_def) = record_def-SameLive max_vreg used (normal_vreg i.dst.payload) in
    let (in_use, out_use) = record_uses-SameLive max_vreg (inst_uses i) bl in
    (in_rest ∙ in_def ∙ in_use, out_rest ∙ out_def ∙ out_use)

-- The sets start empty.
block_def_use-empty :
    (max_vreg : ℕ) (b : MachineBlock)
    → ((block_def_use max_vreg b).live_in ≡ (λ v. false))
      × ((block_def_use max_vreg b).live_out ≡ (λ v. false))
unfolding block_def_use
block_def_use-empty max_vreg b = scan_insts-SameLive max_vreg b.insts _

module _ (max_vreg : ℕ) (blocks : List MachineBlock) where
  abbrev bits : ℕ
  bits = 64 * bitset_word_count max_vreg

  -- The sets of uses and definitions are the blocks' own, and what is in the others is live.
  record Sound (lives : ℕ → BlockLiveness) : Type 0 where
    pub own_uses : (i v : ℕ) → v < max_vreg → (lives i).uses v ≡ exposed v (block_at blocks i).insts
    pub own_defs : (i v : ℕ) → v < max_vreg → (lives i).defs v ≡ defined v (block_at blocks i).insts
    pub in_live : (i v : ℕ) → v < max_vreg → (lives i).live_in v ≡ true → LiveIn blocks v i
    pub out_live : (i v : ℕ) → v < max_vreg → (lives i).live_out v ≡ true → LiveOut blocks v i

  start-Sound : Sound (regalloc_compute_def_use max_vreg blocks)
  unfolding regalloc_compute_def_use
  start-Sound = record {
    own_uses = λ i v below. (block_def_use-bits max_vreg v below (block_at blocks i)).0;
    own_defs = λ i v below. (block_def_use-bits max_vreg v below (block_at blocks i)).1;
    in_live = λ i v below h.
        absurd
          (cc (ap (λ (s : BitSet). s v) (block_def_use-empty max_vreg (block_at blocks i)).0, h));
    out_live = λ i v below h.
        absurd
          (cc (ap (λ (s : BitSet). s v) (block_def_use-empty max_vreg (block_at blocks i)).1, h));
  }

  -- What the new set of a block has at its end and at its start is live.
  update_out :
      (lives : ℕ → BlockLiveness) (i v : ℕ)
      → Sound lives
      → v < max_vreg
      → (update_block bits lives blocks i).0.live_out v ≡ true
      → LiveOut blocks v i
  unfolding update_block
  update_out lives i v sound below h =
      elim (union_succs-only bits lives blocks (block_at blocks i).succs (lives i).live_out v
        (omega (arith, below, words_cover max_vreg)) h) [
          | inl old ↦ sound.out_live i v below old
          | inr (s, j, there, at, live) ↦ (j, (s, there, at), sound.in_live j v below live)
        ]

  update_in :
      (lives : ℕ → BlockLiveness) (i v : ℕ)
      → Sound lives
      → v < max_vreg
      → (update_block bits lives blocks i).0.live_in v ≡ true
      → LiveIn blocks v i
  unfolding update_block
  update_in lives i v sound below h =
      let bl = lives i in
      let out = (union_succs bits lives blocks (block_at blocks i).succs bl.live_out).0 in
      let temp : BitSet = λ w. bitset_diff out bl.defs w || bl.uses w in
      let small : v < bits = omega (arith, below, words_cover max_vreg) in
      elim (either_true (out v && not (bl.defs v)) (bl.uses v)
        (sym (update_live_in-bit bits bl.live_in temp v small) ∙ h)) [
          | inr use_here ↦ LiveIn.used i (sym (sound.own_uses i v below) ∙ use_here)
          | inl passes ↦
              let (after, clear) = &&-both (out v) (not (bl.defs v)) passes in
              let (j, edge, live) = update_out lives i v sound below after in
              LiveIn.through i j (sym (sound.own_defs i v below) ∙ not_true (bl.defs v) clear) edge
                live
        ]

  update-Sound :
      (lives : ℕ → BlockLiveness) (i : ℕ)
      → Sound lives
      → Sound (write lives i (update_block bits lives blocks i).0)
  update-Sound lives i sound =
      let new = (update_block bits lives blocks i).0 in
      let at = λ (k : ℕ). Nat-cases k i in
      record {
        own_uses = λ k v below. elim (at k) [
          | inl e ↦
              rw (e, write_here lives i new)
                (kept_uses bits blocks lives i v ∙ sound.own_uses i v below)
          | inr other ↦ rw (write_other lives i k new other) (sound.own_uses k v below)
        ];
        own_defs = λ k v below. elim (at k) [
          | inl e ↦
              rw (e, write_here lives i new)
                (kept_defs bits blocks lives i v ∙ sound.own_defs i v below)
          | inr other ↦ rw (write_other lives i k new other) (sound.own_defs k v below)
        ];
        in_live = λ k v below h. elim (at k) [
          | inl e ↦ rw e (update_in lives i v sound below (rw (e, write_here lives i new) at h))
          | inr other ↦ sound.in_live k v below (rw (write_other lives i k new other) at h)
        ];
        out_live = λ k v below h. elim (at k) [
          | inl e ↦ rw e (update_out lives i v sound below (rw (e, write_here lives i new) at h))
          | inr other ↦ sound.out_live k v below (rw (write_other lives i k new other) at h)
        ];
      }

  round-Sound :
      (n : ℕ) (lives : ℕ → BlockLiveness) → Sound lives → Sound (round bits blocks n lives).0
  unfolding round
  round-Sound zero lives sound = sound
  round-Sound (suc n) lives sound =
      round-Sound n (write lives n (update_block bits lives blocks n).0)
        (update-Sound lives n sound)

  rounds-Sound :
      (limit : ℕ) (lives : ℕ → BlockLiveness)
      → Sound lives
      → Sound (rounds bits blocks limit lives).0
  unfolding rounds
  rounds-Sound zero lives sound = sound
  rounds-Sound (suc limit) lives sound =
      let after = round bits blocks (length blocks) lives in
      let sound' = round-Sound (length blocks) lives sound in
      elim (Bool-cases after.1) [
        | inl more ↦ rw more (rounds-Sound limit after.0 sound')
        | inr done ↦ rw done sound'
      ]

  -- In a solution, what is live is in the sets.
  complete :
      (lives : ℕ → BlockLiveness) (v i : ℕ)
      → Sound lives
      → ((k : ℕ) → k < length blocks → StableAt bits blocks lives k)
      → v < max_vreg
      → i < length blocks
      → LiveIn blocks v i
      → (lives i).live_in v ≡ true
  complete lives v _ sound stable below inside (LiveIn.used i h) =
      let small : v < bits = omega (arith, below, words_cover max_vreg) in
      (stable i inside).0 v small ∙ or_right _ ((lives i).uses v) (sound.own_uses i v below ∙ h)
  complete lives v _ sound stable below inside (LiveIn.through i j clear (s, there, at) live) =
      let small : v < bits = omega (arith, below, words_cover max_vreg) in
      let next = complete lives v j sound stable below (index_of-lt s blocks j at) live in
      let out = (stable i inside).1 j v (s, there, at) small next in
      (stable i inside).0 v small
      ∙ or_left ((lives i).live_out v && not ((lives i).defs v)) ((lives i).uses v)
          (rw (out, sound.own_defs i v below ∙ clear) refl)

  -- Where the rounds end before their limit, a register below the bound is in the set of a block's
  -- start just when it may be used before it is defined on a way that starts with the block, and in
  -- the set of its end just when that holds of the start of a successor.
  pub compute_liveness_exact :
      (regalloc_compute_liveness max_vreg blocks).1 ≡ false
      → (i v : ℕ) → i < length blocks
      → v < max_vreg
      → ((((regalloc_compute_liveness max_vreg blocks).0 i).live_in v ≡ true) ↔ LiveIn blocks v i)
        × ((((regalloc_compute_liveness max_vreg blocks).0 i).live_out v ≡ true)
            ↔ LiveOut blocks v i)
  unfolding regalloc_compute_liveness
  compute_liveness_exact ended i v inside below =
      let start = regalloc_compute_def_use max_vreg blocks in
      let lives = (rounds bits blocks 100 start).0 in
      let sound = rounds-Sound 100 start start-Sound in
      let stable = rounds-stable bits blocks 100 start ended in
      let small : v < bits = omega (arith, below, words_cover max_vreg) in
      (
        (sound.in_live i v below, complete lives v i sound stable below inside),
        (
          sound.out_live i v below,
          (λ (j, (s, there, at), live).
              (stable i inside).1 j v (s, there, at) small
                (complete lives v j sound stable below (index_of-lt s blocks j at) live)),
        ),
      )
