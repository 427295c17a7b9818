-- ===== src/Liveness/Stable.antt =====
-- Where the rounds of the liveness analysis stop changing, the sets solve the equations, and every
-- register that is live is in them (src/backend/regalloc_liveness.c).
use baa.Base.{
  ℕ, zero, suc, ◌<◌, ◌≡◌, refl, sym, ◌∙◌, ap, subst, inl, inr, true, false, not, ◌&&◌, ◌||◌,
  ||-neither, List, Bool-cases, arith, length,
}
use mathlib.Core.Path.{fun_ext}
use baa.Machine.{MachineBlock}
use baa.RegAlloc.Step.{write}
use baa.RegAlloc.Active.{write_here, write_other, Nat-cases}
use baa.Liveness.{
  BitSet, BlockLiveness, block_at, bitset_diff, update_live_in, union_succs, update_block, round,
  rounds,
}
use baa.Liveness.Sets.{update_live_in-bit, update_live_in-same}
use baa.Liveness.Flow.{Succ, union_succs-same, union_succs-has}

write_same {ℓ} : {A : Type ℓ} (f : ℕ → A) (k : ℕ) → write f k (f k) ≡ f
write_same f k = fun_ext (λ n. elim (Nat-cases n k) [
  | inl e ↦ rw e (write_here f k (f k))
  | inr other ↦ write_other f k n (f k) other
])

module _ (bits : ℕ) (blocks : List MachineBlock) where
  -- The equations of the block i.
  abbrev pub StableAt : (ℕ → BlockLiveness) → ℕ → Type 0
  StableAt lives i =
      ((v : ℕ)
        → v < bits
        → (lives i).live_in v
          ≡ (((lives i).live_out v && not ((lives i).defs v)) || (lives i).uses v))
      × ((j v : ℕ)
          → Succ blocks i j
          → v < bits
          → (lives j).live_in v ≡ true
          → (lives i).live_out v ≡ true)

  update_block-same :
      (lives : ℕ → BlockLiveness) (i : ℕ)
      → (update_block bits lives blocks i).1 ≡ false
      → ((update_block bits lives blocks i).0 ≡ lives i) × StableAt lives i
  unfolding update_block
  update_block-same lives i h =
      let bl = lives i in
      let ss = (block_at blocks i).succs in
      let out = union_succs bits lives blocks ss bl.live_out in
      let temp : BitSet = λ v. bitset_diff out.0 bl.defs v || bl.uses v in
      let live = update_live_in bits bl.live_in temp in
      let (grown, changed) = ||-neither out.1 live.1 h in
      let same_out = union_succs-same bits lives blocks ss bl.live_out grown in
      let same_in = update_live_in-same bits bl.live_in temp changed in
      (
        rw (same_in, same_out) refl,
        (
          (λ v below.
              ap (λ (s : BitSet). s v) (sym same_in)
              ∙ update_live_in-bit bits bl.live_in temp v below
              ∙ ap (λ (s : BitSet). (s v && not (bl.defs v)) || bl.uses v) same_out),
          (λ j v (s, there, at) below live_j.
              ap (λ (s : BitSet). s v) (sym same_out)
              ∙ union_succs-has bits lives blocks ss bl.live_out s j v there at below live_j),
        ),
      )

  round-same :
      (n : ℕ) (lives : ℕ → BlockLiveness)
      → (round bits blocks n lives).1 ≡ false
      → ((round bits blocks n lives).0 ≡ lives) × ((i : ℕ) → i < n → StableAt lives i)
  unfolding round
  round-same zero lives h = (refl, λ i below. absurd (omega (arith, below)))
  round-same (suc n) lives h =
      let updated = update_block bits lives blocks n in
      let next = write lives n updated.0 in
      let (quiet, rest) = ||-neither updated.1 (round bits blocks n next).1 h in
      let (same, stable) = update_block-same lives n quiet in
      let unchanged : next ≡ lives = ap (write lives n) same ∙ write_same lives n in
      let (same', stable') = round-same n next rest in
      (
        same' ∙ unchanged,
        (λ i below. elim (Nat-cases i n) [
          | inl e ↦ rw e stable
          | inr other ↦
              subst (λ (l : ℕ → BlockLiveness). StableAt l i) unchanged
                (stable' i (ground (arith, below, other)))
        ]),
      )

  -- Rounds that end with no change leave a solution.
  pub rounds-stable :
      (limit : ℕ) (lives : ℕ → BlockLiveness)
      → (rounds bits blocks limit lives).1 ≡ false
      → (i : ℕ) → i < length blocks
      → StableAt (rounds bits blocks limit lives).0 i
  unfolding rounds
  rounds-stable zero lives h i below = cc
  rounds-stable (suc limit) lives h i below =
      let after = round bits blocks (length blocks) lives in
      elim (Bool-cases after.1) [
        | inl more ↦ rw more (rounds-stable limit after.0 (rw more at h) i below)
        | inr done ↦
            let (same, stable) = round-same (length blocks) lives done in
            rw (done, same) (stable i below)
      ]
