-- ===== src/Liveness.antt =====
-- Liveness of virtual registers in a machine function (src/backend/regalloc_liveness.c, with the
-- bit sets and the sets of definitions and uses of src/backend/regalloc.c). A bit set of w words is a
-- function of the bit, and its bits are those below 64 * w; an array is a function of its index.
-- Allocation succeeds.
pub mod Sets
pub mod Exposed
pub mod Flow
pub mod Stable
pub mod Exact
use baa.Base.{
  ℕ, zero, suc, ◌+◌, ◌*◌, ◌/◌, Bool, true, false, not, ◌&&◌, ◌||◌, Option, none, some, List, [],
  ◌∷◌, ◌++◌, foldl, if◌then◌else◌, ◌==◌, ltb, length, get_or,
}
use baa.Base.Int.{pos}
use baa.Machine.{MachineOp, MachineOperandData, MachineInst, MachineBlock}
use baa.RegAlloc.Step.{write}

abbrev pub BitSet : Type 0
BitSet = ℕ → Bool

unfoldable pub bitset_word_count : ℕ → ℕ
bitset_word_count n = (n + 63) / 64

abbrev pub bitset_alloc : BitSet
bitset_alloc = λ _. false

abbrev pub bitset_set : BitSet → ℕ → BitSet
bitset_set set bit = write set bit true

-- Is the test true of a number below n?
unfoldable pub any_below : ℕ → (ℕ → Bool) → Bool
any_below zero test = false
any_below (suc n) test = test n || any_below n test

-- The union, and whether it has more bits than the first set.
unfoldable pub bitset_union : ℕ → BitSet → BitSet → BitSet × Bool
unfolding any_below
bitset_union bits dst src =
    if any_below bits (λ v. not (dst v) && src v)
    then ((λ v. dst v || src v), true)
    else (dst, false)

abbrev pub bitset_diff : BitSet → BitSet → BitSet
bitset_diff a b = λ v. a v && not (b v)

-- The number of a normal virtual register.
abbrev pub normal_vreg : MachineOperandData → Option ℕ
normal_vreg (MachineOperandData.vreg (pos n)) = some n
normal_vreg _ = none

abbrev pub mem_base_vreg : MachineOperandData → Option ℕ
mem_base_vreg (MachineOperandData.mem (pos n) offset) = some n
mem_base_vreg _ = none

pub record BlockLiveness : Type 0 where
  pub block_id : ℕ
  pub defs : BitSet
  pub uses : BitSet
  pub live_in : BitSet
  pub live_out : BitSet

abbrev pub listed : Option ℕ → List ℕ
listed none = []
listed (some v) = v ∷ []

-- The operations that read their destination where it is their first source too.
unfoldable pub is_two_address : MachineOp → Bool
is_two_address MachineOp.add = true
is_two_address MachineOp.sub = true
is_two_address MachineOp.imul = true
is_two_address MachineOp.shl = true
is_two_address MachineOp.shr = true
is_two_address MachineOp.sar = true
is_two_address MachineOp.and = true
is_two_address MachineOp.or = true
is_two_address MachineOp.xor = true
is_two_address MachineOp.neg = true
is_two_address MachineOp.not = true
is_two_address _ = false

abbrev pub same_vreg : Option ℕ → Option ℕ → Option ℕ
same_vreg (some d) (some s) = if d == s then some d else none
same_vreg _ _ = none

unfoldable pub two_address_use : MachineInst → Option ℕ
unfolding is_two_address
two_address_use inst =
    if is_two_address inst.op
    then same_vreg (normal_vreg inst.dst.payload) (normal_vreg inst.src1.payload)
    else none

-- The registers that are recorded as uses, in their order.
unfoldable pub inst_uses : MachineInst → List ℕ
unfolding two_address_use
inst_uses inst =
    listed (normal_vreg inst.src1.payload)
    ++ (listed (mem_base_vreg inst.src1.payload)
        ++ (listed (normal_vreg inst.src2.payload)
            ++ (listed (mem_base_vreg inst.src2.payload)
                ++ (listed (two_address_use inst) ++ listed (mem_base_vreg inst.dst.payload)))))

unfoldable pub record_use : ℕ → BlockLiveness → ℕ → BlockLiveness
record_use max_vreg bl vreg =
    if ltb vreg max_vreg && not (bl.defs vreg)
    then record bl { uses = bitset_set bl.uses vreg }
    else bl

unfoldable pub record_def : ℕ → BlockLiveness → Option ℕ → BlockLiveness
record_def max_vreg bl none = bl
record_def max_vreg bl (some vreg) =
    if ltb vreg max_vreg then record bl { defs = bitset_set bl.defs vreg } else bl

unfoldable pub scan_inst : ℕ → BlockLiveness → MachineInst → BlockLiveness
unfolding inst_uses record_use record_def
scan_inst max_vreg bl inst =
    record_def max_vreg (foldl (record_use max_vreg) bl (inst_uses inst))
      (normal_vreg inst.dst.payload)

unfoldable pub block_def_use : ℕ → MachineBlock → BlockLiveness
unfolding scan_inst
block_def_use max_vreg block =
    foldl (scan_inst max_vreg)
      (record {
        block_id = block.id;
        defs = bitset_alloc;
        uses = bitset_alloc;
        live_in = bitset_alloc;
        live_out = bitset_alloc;
      })
      block.insts

abbrev pub no_block : MachineBlock
no_block = record { id = 0; insts = []; succs = [] }

abbrev pub block_at : List MachineBlock → ℕ → MachineBlock
block_at blocks i = get_or blocks i no_block

-- The sets of all blocks by their index.
unfoldable pub regalloc_compute_def_use : ℕ → List MachineBlock → ℕ → BlockLiveness
unfolding block_def_use
regalloc_compute_def_use max_vreg blocks i = block_def_use max_vreg (block_at blocks i)

abbrev pub next_index : Option ℕ → Option ℕ
next_index none = none
next_index (some j) = some (suc j)

-- The index of the block that a pointer leads to.
unfoldable pub index_of : ℕ → List MachineBlock → Option ℕ
index_of id [] = none
index_of id (b ∷ bs) = if b.id == id then some 0 else next_index (index_of id bs)

unfoldable pub union_live_in : ℕ → (ℕ → BlockLiveness) → Option ℕ → BitSet → BitSet × Bool
unfolding bitset_union
union_live_in bits lives none out = (out, false)
union_live_in bits lives (some j) out = bitset_union bits out (lives j).live_in

-- What is live at the end of a block grows by what is live at the start of its successors.
unfoldable pub union_succs :
    ℕ → (ℕ → BlockLiveness) → List MachineBlock → List ℕ → BitSet → BitSet × Bool
unfolding union_live_in index_of
union_succs bits lives blocks [] out = (out, false)
union_succs bits lives blocks (s ∷ ss) out =
    let (out', changed) = union_live_in bits lives (index_of s blocks) out in
    let (out'', more) = union_succs bits lives blocks ss out' in (out'', changed || more)

-- Where a bit differs, the new set is written.
unfoldable pub update_live_in : ℕ → BitSet → BitSet → BitSet × Bool
unfolding any_below
update_live_in bits live temp =
    if any_below bits (λ v. if live v then not (temp v) else temp v)
    then (temp, true)
    else (live, false)

-- The body of the inner loop, for one block.
unfoldable pub update_block : ℕ → (ℕ → BlockLiveness) → List MachineBlock → ℕ → BlockLiveness × Bool
unfolding union_succs update_live_in
update_block bits lives blocks i =
    let bl = lives i in
    let (out, grown) = union_succs bits lives blocks (block_at blocks i).succs bl.live_out in
    let temp : BitSet = λ v. bitset_diff out bl.defs v || bl.uses v in
    let (live, changed) = update_live_in bits bl.live_in temp in
    (record bl { live_in = live; live_out = out }, grown || changed)

-- A round over the blocks from the last to the first.
unfoldable pub round : ℕ → List MachineBlock → ℕ → (ℕ → BlockLiveness) → (ℕ → BlockLiveness) × Bool
unfolding update_block
round bits blocks zero lives = (lives, false)
round bits blocks (suc i) lives =
    let (bl, changed) = update_block bits lives blocks i in
    let (lives', more) = round bits blocks i (write lives i bl) in (lives', changed || more)

-- Rounds until there is no change, `limit` at most; the flag is the one of the last round.
unfoldable pub rounds : ℕ → List MachineBlock → ℕ → (ℕ → BlockLiveness) → (ℕ → BlockLiveness) × Bool
rounds bits blocks zero lives = (lives, true)
rounds bits blocks (suc limit) lives =
    let rest = rounds bits blocks limit (round bits blocks (length blocks) lives).0 in
    if (round bits blocks (length blocks) lives).1
    then rest
    else ((round bits blocks (length blocks) lives).0, false)

-- The sets, and whether the loop was still changing them when it stopped.
unfoldable pub regalloc_compute_liveness : ℕ → List MachineBlock → (ℕ → BlockLiveness) × Bool
unfolding rounds regalloc_compute_def_use bitset_word_count
regalloc_compute_liveness max_vreg blocks =
    rounds (64 * bitset_word_count max_vreg) blocks 100 (regalloc_compute_def_use max_vreg blocks)
