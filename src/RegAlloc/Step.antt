-- ===== src/RegAlloc/Step.antt =====
-- One interval of the linear scan (the body of the loop of `regalloc_linear_scan` in
-- src/backend/regalloc_linear_scan.c). The fields of a live interval that the scan reads and those
-- that it writes are two records.
use baa.Base.{ℕ, ◌+◌, Bool, true, false, not, ◌&&◌, ◌||◌, List, [], ◌∷◌, if◌then◌else◌, ◌==◌, ltb}
use baa.RegAlloc.Convention.{
  CallingConv, phys_none, alloc_order, reg_is_caller_saved_cc, reg_is_callee_saved_cc,
}

pub record LiveInterval : Type 0 where
  pub vreg : ℕ
  pub start : ℕ
  pub stop : ℕ

pub record Placement : Type 0 where
  pub phys_reg : ℕ
  pub spilled : Bool
  pub spill_offset : ℕ

pub record ActiveEntry : Type 0 where
  pub interval_idx : ℕ
  pub reg : ℕ

pub record ScanState : Type 0 where
  pub placements : ℕ → Placement
  pub active : List ActiveEntry
  pub reg_free : ℕ → Bool
  pub callee_saved_used : ℕ → Bool
  pub next_spill_offset : ℕ
  pub spill_count : ℕ
  pub vreg_to_phys : ℕ → ℕ
  pub vreg_spilled : ℕ → Bool
  pub vreg_spill_offset : ℕ → ℕ

-- A write to an array.
abbrev pub write {ℓ} : {A : Type ℓ} → (ℕ → A) → ℕ → A → ℕ → A
write f k v n = if n == k then v else f n

unfoldable pub interval_crosses_call : LiveInterval → List ℕ → Bool
interval_crosses_call li [] = false
interval_crosses_call li (p ∷ ps) = ltb li.start p && ltb p li.stop || interval_crosses_call li ps

-- The entries that are over before `start` give their registers back.
unfoldable pub still_active : (ℕ → LiveInterval) → ℕ → List ActiveEntry → List ActiveEntry
still_active iv start [] = []
still_active iv start (a ∷ rest) =
    if ltb (iv a.interval_idx).stop start
    then still_active iv start rest
    else a ∷ still_active iv start rest

unfoldable pub freed_by : (ℕ → LiveInterval) → ℕ → List ActiveEntry → (ℕ → Bool) → ℕ → Bool
freed_by iv start [] free = free
freed_by iv start (a ∷ rest) free =
    freed_by iv start rest
      (if ltb (iv a.interval_idx).stop start then write free a.reg true else free)

-- The first register of the order that is free and, for an interval across a call, survives it.
unfoldable pub find_reg : CallingConv → Bool → (ℕ → Bool) → List ℕ → ℕ
find_reg cc crosses free [] = phys_none
find_reg cc crosses free (r ∷ rs) =
    if crosses && reg_is_caller_saved_cc cc r
    then find_reg cc crosses free rs
    else if free r
    then r
    else find_reg cc crosses free rs

-- Before the first entry that ends later.
unfoldable pub insert_active :
    (ℕ → LiveInterval) → ℕ → ActiveEntry → List ActiveEntry → List ActiveEntry
insert_active iv stop entry [] = entry ∷ []
insert_active iv stop entry (a ∷ rest) =
    if ltb stop (iv a.interval_idx).stop
    then entry ∷ a ∷ rest
    else a ∷ insert_active iv stop entry rest

-- The index of the longest interval that may give up its register.
unfoldable pub pick_spill : CallingConv → Bool → (ℕ → LiveInterval) → ℕ → ℕ → List ActiveEntry → ℕ
pick_spill cc crosses iv spill_idx longest_end [] = spill_idx
pick_spill cc crosses iv spill_idx longest_end (a ∷ rest) =
    let stop = (iv a.interval_idx).stop in
    let better = not (crosses && reg_is_caller_saved_cc cc a.reg) && ltb longest_end stop in
    pick_spill cc crosses iv (if better then a.interval_idx else spill_idx)
      (if better then stop else longest_end) rest

unfoldable pub remove_active : ℕ → List ActiveEntry → List ActiveEntry
remove_active idx [] = []
remove_active idx (a ∷ rest) = if a.interval_idx == idx then rest else a ∷ remove_active idx rest

-- The maps of results learn of a virtual register's placement.
unfoldable pub record_vreg : ℕ → ℕ → Placement → ScanState → ScanState
record_vreg max_vreg vreg p s =
    if ltb vreg max_vreg
    then record s {
      vreg_to_phys = write s.vreg_to_phys vreg p.phys_reg;
      vreg_spilled = write s.vreg_spilled vreg p.spilled;
      vreg_spill_offset =
          if p.spilled then write s.vreg_spill_offset vreg p.spill_offset else s.vreg_spill_offset;
    }
    else s

-- The interval i goes to a register.
unfoldable pub place_in : CallingConv → (ℕ → LiveInterval) → ℕ → ℕ → ScanState → ScanState
unfolding insert_active
place_in cc iv i r s = record s {
  placements = write s.placements i (record (s.placements i) { phys_reg = r; spilled = false });
  active = insert_active iv (iv i).stop (record { interval_idx = i; reg = r }) s.active;
  callee_saved_used =
      if reg_is_callee_saved_cc cc r then write s.callee_saved_used r true else s.callee_saved_used;
}

-- An interval goes to the next slot of the stack.
unfoldable pub spill_to_stack : ℕ → ScanState → ScanState
spill_to_stack i s =
    let offset = s.next_spill_offset + 8 in
    record s {
      placements =
          write s.placements i
            (record { phys_reg = phys_none; spilled = true; spill_offset = offset });
      next_spill_offset = offset;
      spill_count = s.spill_count + 1;
    }

-- Step 1: the expired intervals leave.
unfoldable pub expire : (ℕ → LiveInterval) → ℕ → ScanState → ScanState
unfolding still_active freed_by
expire iv start s = record s {
  active = still_active iv start s.active;
  reg_free = freed_by iv start s.active s.reg_free;
}

-- Step 2: a free register is taken.
unfoldable pub take_reg : CallingConv → (ℕ → LiveInterval) → ℕ → ℕ → ScanState → ScanState
unfolding place_in
take_reg cc iv i r s = place_in cc iv i r (record s { reg_free = write s.reg_free r false })

-- Step 3: an active interval is spilled and its register taken.
unfoldable pub steal_reg : CallingConv → ℕ → (ℕ → LiveInterval) → ℕ → ℕ → ScanState → ScanState
unfolding spill_to_stack record_vreg remove_active place_in
steal_reg cc max_vreg iv i victim s =
    let freed_reg = (s.placements victim).phys_reg in
    let s' = spill_to_stack victim s in
    let s'' = record_vreg max_vreg (iv victim).vreg (s'.placements victim) s' in
    place_in cc iv i freed_reg (record s'' { active = remove_active victim s''.active })

unfoldable pub assign : CallingConv → List ℕ → ℕ → (ℕ → LiveInterval) → ℕ → ScanState → ScanState
unfolding interval_crosses_call find_reg pick_spill
assign cc call_pos max_vreg iv i s =
    let cur = iv i in
    let crosses = interval_crosses_call cur call_pos in
    let assigned = find_reg cc crosses s.reg_free alloc_order in
    let spill_idx = pick_spill cc crosses iv i cur.stop s.active in
    if not (assigned == phys_none)
    then take_reg cc iv i assigned s
    else if not (spill_idx == i)
    then steal_reg cc max_vreg iv i spill_idx s
    else spill_to_stack i s

unfoldable pub scan_step : CallingConv → List ℕ → ℕ → (ℕ → LiveInterval) → ℕ → ScanState → ScanState
unfolding expire assign record_vreg
scan_step cc call_pos max_vreg iv i s =
    let s' = assign cc call_pos max_vreg iv i (expire iv (iv i).start s) in
    record_vreg max_vreg (iv i).vreg (s'.placements i) s'
