-- ===== src/RegAlloc.antt =====
-- Linear-scan register allocation (src/backend/regalloc_linear_scan.c, with the helpers of
-- src/backend/regalloc.c and the calling conventions of src/backend/target.c). A register is its
-- number, and PHYS_NONE the 32-bit pattern of -1. An array is a function of its index. A position is
-- one more than in the source, where an empty first block gives -1. Allocation succeeds; a spill
-- offset is the distance below RBP, and no stack grows beyond an int.
pub mod Convention
pub mod Step
pub mod Active
pub mod Choice
pub mod Invariant
pub mod Moves
pub mod Rounds
pub mod Safe
pub mod Slots
pub mod Frame
pub mod Maps
use baa.Base.{
  ℕ, zero, suc, ◌+◌, Bool, true, false, List, [], ◌∷◌, if◌then◌else◌, ◌==◌, ltb, ◌&&◌, length,
  get_or,
}
use baa.RegAlloc.Convention.{CallingConv, phys_none, reg_free_at_start}
use baa.RegAlloc.Step.{LiveInterval, Placement, ScanState, scan_step}

-- The rounds of the scan from the interval i on.
unfoldable pub scan_from :
    CallingConv → List ℕ → ℕ → (ℕ → LiveInterval) → ℕ → ℕ → ScanState → ScanState
scan_from cc call_pos max_vreg iv zero i s = s
scan_from cc call_pos max_vreg iv (suc n) i s =
    scan_from cc call_pos max_vreg iv n (i + 1) (scan_step cc call_pos max_vreg iv i s)

abbrev pub unplaced : Placement
unplaced = record { phys_reg = phys_none; spilled = false; spill_offset = 0 }

abbrev pub no_interval : LiveInterval
no_interval = record { vreg = 0; start = 0; stop = 0 }

abbrev pub nth : List LiveInterval → ℕ → LiveInterval
nth ivs i = get_or ivs i no_interval

-- The state before the first interval, for a function with `stack_size` bytes of locals.
abbrev pub scan_start : CallingConv → ℕ → ScanState
scan_start cc stack_size = record {
  placements = λ _. unplaced;
  active = [];
  reg_free = reg_free_at_start cc;
  callee_saved_used = λ _. false;
  next_spill_offset = stack_size;
  spill_count = 0;
  vreg_to_phys = λ _. phys_none;
  vreg_spilled = λ _. false;
  vreg_spill_offset = λ _. 0;
}

-- `sort` stands for `qsort` with `interval_cmp_start`.
unfoldable pub regalloc_linear_scan :
    (List LiveInterval → List LiveInterval)
    → CallingConv
    → List ℕ
    → ℕ
    → ℕ
    → List LiveInterval
    → ScanState
unfolding scan_from
regalloc_linear_scan sort cc call_pos max_vreg stack_size intervals =
    scan_from cc call_pos max_vreg (nth (sort intervals)) (length intervals) 0
      (scan_start cc stack_size)
