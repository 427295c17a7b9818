-- ===== src/Tests/RegAlloc.antt =====
-- Runs of the linear scan (src/backend/regalloc_linear_scan.c).
use baa.Base.{
  ℕ, ◌≡◌, refl, sym, ◌∙◌, ◌≢◌, ◌<◌, true, false, List, [], ◌∷◌, if◌then◌else◌, ltb, ◌==◌, ◌&&◌,
  ◌||◌, arith,
}
use baa.RegAlloc.Convention.{
  phys_reg_count, rsp, rbp, cc_win_x64, cc_sysv_amd64, one_of, reg_free_at_start,
  reg_is_caller_saved_cc,
}
use baa.RegAlloc.Step.{LiveInterval, ScanState}
use baa.RegAlloc.Safe.{
  InOrder, register, linear_scan_disjoint, linear_scan_reserved, linear_scan_across_call,
}
use baa.RegAlloc.Slots.{IsPlaced, Separate}
use baa.RegAlloc.Frame.{result, linear_scan-IsPlaced, linear_scan-Separate}
use baa.RegAlloc.{scan_from, regalloc_linear_scan}

abbrev pub insert_interval : LiveInterval → List LiveInterval → List LiveInterval
insert_interval a [] = a ∷ []
insert_interval a (b ∷ rest) =
    let later = insert_interval a rest in
    if ltb a.start b.start || a.start == b.start && ltb a.vreg b.vreg
    then a ∷ b ∷ rest
    else b ∷ later

-- Insertion by start and virtual register.
abbrev pub sort_intervals : List LiveInterval → List LiveInterval
sort_intervals [] = []
sort_intervals (a ∷ rest) = insert_interval a (sort_intervals rest)

abbrev live : ℕ → ℕ → ℕ → LiveInterval
live v from to = record { vreg = v; start = from; stop = to }

-- Two short intervals after another, and one across the call at 4.
abbrev few : List LiveInterval
few = live 2 3 6 ∷ live 0 0 1 ∷ live 1 2 5 ∷ live 3 7 9 ∷ []

-- Seven intervals across the call at 10.
abbrev many : List LiveInterval
many =
    live 0 0 20
    ∷ live 1 1 21
    ∷ live 2 2 22
    ∷ live 3 3 23
    ∷ live 4 4 24
    ∷ live 5 5 25
    ∷ live 6 6 15
    ∷ []

abbrev few_register : ℕ → ℕ
few_register j = register sort_intervals cc_win_x64 (4 ∷ []) 4 16 few j

abbrev many_result : ScanState
many_result = result sort_intervals cc_sysv_amd64 (10 ∷ []) 7 16 many

few_registers :
    (few_register 0 ≡ 10) × (few_register 1 ≡ 6) × (few_register 2 ≡ 7) × (few_register 3 ≡ 10)
unfolding regalloc_linear_scan baa.RegAlloc.Step.scan_step reg_is_caller_saved_cc reg_free_at_start
    baa.RegAlloc.Step.take_reg
few_registers = (refl, refl, refl, refl)

many_spilled :
    ((many_result.placements 4).spilled ≡ true)
    × ((many_result.placements 5).spilled ≡ true)
    × ((many_result.placements 6).phys_reg ≡ 15)
unfolding regalloc_linear_scan baa.RegAlloc.Step.scan_step reg_is_caller_saved_cc reg_free_at_start
    baa.RegAlloc.Step.take_reg baa.RegAlloc.Step.steal_reg
many_spilled = (refl, refl, refl)

few-InOrder : InOrder (sort_intervals few)
few-InOrder = (omega arith, (omega arith, (omega arith, tt)))

many-InOrder : InOrder (sort_intervals many)
many-InOrder =
    (omega arith, (omega arith, (omega arith, (omega arith, (omega arith, (omega arith, tt))))))

linear_scan_disjoint_example : 1 < 7
linear_scan_disjoint_example =
    linear_scan_disjoint sort_intervals cc_win_x64 (4 ∷ []) 4 16 few few-InOrder refl 0 3
      (omega arith) (omega arith) (λ e. omega (arith, few_registers.3, e))
      (few_registers.0 ∙ sym few_registers.3)

linear_scan_reserved_example :
    (few_register 1 < phys_reg_count)
    × (few_register 1 ≢ rsp)
    × (few_register 1 ≢ rbp)
    × (few_register 1 ≢ cc_win_x64.ret_phys_reg)
    × (one_of (few_register 1) cc_win_x64.int_arg_phys_regs ≡ false)
linear_scan_reserved_example =
    linear_scan_reserved sort_intervals cc_win_x64 (4 ∷ []) 4 16 few few-InOrder refl 1
      (omega arith) (λ e. omega (arith, few_registers.1, e))

linear_scan_across_call_example : reg_is_caller_saved_cc cc_win_x64 (few_register 1) ≡ false
linear_scan_across_call_example =
    linear_scan_across_call sort_intervals cc_win_x64 (4 ∷ []) 4 16 few few-InOrder refl 1 4
      (omega arith) (λ e. omega (arith, few_registers.1, e)) refl (omega arith) (omega arith)

linear_scan-IsPlaced_example : IsPlaced 16 many_result.next_spill_offset (many_result.placements 4)
linear_scan-IsPlaced_example =
    linear_scan-IsPlaced sort_intervals cc_sysv_amd64 (10 ∷ []) 7 16 many many-InOrder refl 4
      (omega arith)

linear_scan-Separate_example : Separate (many_result.placements 5) (many_result.placements 4)
linear_scan-Separate_example =
    linear_scan-Separate sort_intervals cc_sysv_amd64 (10 ∷ []) 7 16 many many-InOrder refl 5 4
      (omega arith) (omega arith) (λ e. omega (arith, e)) many_spilled.1 many_spilled.0
