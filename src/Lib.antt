-- ===== src/Lib.antt =====
-- Baa compiles an Arabic programming language. A source file goes through the front end
-- (src/frontend: lexer, parser, semantic analysis), is lowered to an intermediate representation in
-- SSA form (src/middleend/ir_lower*.c, ir_mem2reg.c), is optimised there by passes over modules,
-- functions, blocks and instructions (src/middleend/ir_optimizer.c runs them in turn), and becomes
-- assembly in the back end (src/backend). This library models the representation, its storage and
-- four of the passes, of the back end the allocation of registers, and of the runtime SHA-256.
--
-- Which file models which part:
--   * Base: shared names, 64-bit words (Base/Word), integers (Base/Int), Boolean tests, lists.
--   * Ir/Types, Ir/Inst: the data of src/middleend/ir.h: IRType, IROp, IRValue, IRInst, IRBlock,
--     IRFunc and IRModule, with `ir_types_equal` and `ir_type_bits` of src/middleend/ir.c.
--   * Ir/Build: the constructors `ir_value_*`, `ir_inst_*` (src/middleend/ir.c), `ir_block_new` and
--     `ir_func_*` (src/middleend/ir_containers.c).
--   * Ir/Mutate: `ir_block_append`, `ir_block_add_succ` (src/middleend/ir_containers.c),
--     `ir_block_insert_before`, `ir_block_insert_phi` and `ir_block_remove_inst`
--     (src/middleend/ir_mutate.c); Ir/Phis: the order of phis in a block.
--   * Ir/Eval: a reference meaning of the operations over the integers; it follows no code.
--   * DefUse: `ir_defuse_build` (src/middleend/ir_defuse.c); DefUse/Complete: proofs on it.
--   * ConstFold: src/middleend/ir_constfold.c, with the fold of one instruction in ConstFold and the
--     pass over a function and a module in ConstFold/Pass; the proofs stand in Trunc, Arith, Inst
--     (one instruction) and Preserves (the pass).
--   * InstCombine: src/middleend/ir_instcombine.c; the proofs stand in Identities, Meaning, Sound.
--   * Canon: src/middleend/ir_canon.c; the proofs stand in Canon/Value (what changes in an instruction)
--     and Canon/Stable (a second run).
--   * Cfg: `ir_func_validate_cfg` and `ir_module_validate_cfg` of src/middleend/ir_analysis.c; Cfg/Valid
--     has the proofs. Cfg/Edges: `ir_func_rebuild_preds` of that file.
--   * Dce: `ir_func_dce_instructions` of src/middleend/ir_dce.c; the proofs stand in Counts (counts and
--     reads), Trim (what may be left out), Sweeps, Work (the whole removal), Done (what is left) and Flag.
--     Dce/Blocks: `ir_func_remove_unreachable_blocks` and `ir_dce_run` of that file, whose proofs stand
--     in Unmarked and Reach (the marking), Ids, Successors and Ways (the edges) and Unreachable (the
--     blocks that stay). Cfg/Leads says which block sends control where; it follows no code.
--   * RegAlloc: `regalloc_linear_scan` (src/backend/regalloc_linear_scan.c). RegAlloc/Convention has the
--     registers and calling conventions (src/backend/regalloc.h, src/backend/regalloc.c,
--     src/backend/target.c), RegAlloc/Step one round. The proofs stand in Active and Choice (the list of
--     active intervals, the choices of a round), Invariant, Moves, Rounds and Safe (registers), Slots
--     and Frame (slots on the stack).
--     RegAlloc/Maps relates the maps by virtual register to the placements.
--   * Machine: the data of src/backend/isel.h: MachineOp, MachineOperand, MachineInst, MachineBlock and
--     MachineFunc.
--   * Liveness: `regalloc_compute_def_use` (src/backend/regalloc.c, with its bit sets) and
--     `regalloc_compute_liveness` (src/backend/regalloc_liveness.c); the proofs stand in Sets, Exposed
--     (one block), Flow (what live means), Stable and Exact (the rounds).
--   * Intervals: `regalloc_build_intervals` (src/backend/regalloc_liveness.c); the proofs stand in Spans
--     and Cover (what the intervals cover), Live and Occupied (where a register is live), Once (one
--     interval for a register) and Interfere (with the linear scan).
--   * Allocate: `regalloc_func_ex` (src/backend/regalloc_driver.c) with `regalloc_insert_spill_code` and
--     `regalloc_rewrite` (src/backend/regalloc_rewrite.c), and `machine_func_collect_callee_saved`
--     (src/backend/regalloc.c), whose proofs stand in Saved; Placed and Apart have those on operands.
--   * Sha256: src/runtime/hash_runtime.c, with the compression of a block in Sha256/Words; the proofs
--     stand in Stream (pieces), Digest (the padded message) and Texts (paths, digits and files).
--     Sha256/Standard has the digest of FIPS 180-4, which follows no code; Agree relates the two.
--   * DataLayout: src/middleend/ir_data_layout.c.
--   * Arena: src/middleend/ir_arena.c.
--   * Tests: runs at concrete inputs.
--
-- How state and pointers are modelled. A record stands for each struct and a list for each linked
-- list or counted array. A pointer to a block or an instruction is its id, which a function hands
-- out once; an edit through a pointer is an edit at that id. A chain of uses holds addresses of
-- operands in the source; here a use is an instruction's id and a place in it (`Slot`). An
-- operation that changes a function takes it and returns it, with its result or its flag `changed`.
-- An int64_t is its 64-bit pattern, a size_t a number below 2 ^ 64, and every wrap is written out. The
-- int products and sums of sizes are cut to 32 bits; C leaves their overflow undefined.
-- Negation of the least int64_t, which C leaves undefined, wraps.
--
-- In the register allocation an array is a function of its index, a position is one more than in
-- the source (an empty first block gives -1 there), PHYS_NONE is the pattern of -1, and a spill
-- offset is the distance below RBP. A bit set is a function of the bit, a pointer to a machine
-- block its id, and a physical register in a rewritten operand its number, as in the source. In
-- SHA-256 the block of 64 bytes with its length is the list of its bytes.
--
-- Parameters: `qsort` is an argument `sort` of the linear scan; its theorems ask that it orders the
-- intervals by their starts and keeps their number, or keeps the intervals. The positions of the
-- calls are an argument of the linear scan, which Allocate gives it. What opening, reading and
-- closing a file give is an argument of the hash of a file (`FileReads`). `strdup` copies a name to
-- a place of the allocator's choice (its text stays), and what `malloc` gives, an address
-- or NULL, is an argument of the arena's operations; the hash's texts take whether `calloc` succeeds. A loop runs over a list or a range of numbers
-- but for five: that of `sha256_update` has the number of bytes as its fuel and each round takes
-- one at least; the linear scan runs for the number of intervals; the sweeps for dead instructions
-- have one more than the number of instructions, and each sweep but the last removes one. The
-- marking of reachable blocks has as many rounds as there are ids, and each takes a block that is
-- put on the stack once. The rounds of the liveness analysis have the source's limit of 100, and
-- the flag of the last round tells whether they had ended; the theorems that need that ask for it.
--
-- Not modelled: of a module all but its functions; the failure of allocations outside the arena and
-- the hash's texts, and with it the scan of the whole function that constant folding keeps for a
-- missing chain of uses; the contents of the memory that the arena hands out, its
-- `ir_arena_strdup`; freeing; the cached chains of uses of a function (constant folding always
-- builds its own); dominators of src/middleend/ir_analysis.c; the other passes, the front end and
-- the driver; of the back end instruction selection and emission; the rest of the runtime. An
-- operand beyond the four that an instruction has room for is dropped, as in the source.
pub mod Base
pub mod Ir
pub mod Arena
pub mod DataLayout
pub mod DefUse
pub mod InstCombine
pub mod ConstFold
pub mod Canon
pub mod Cfg
pub mod Dce
pub mod RegAlloc
pub mod Machine
pub mod Liveness
pub mod Intervals
pub mod Allocate
pub mod Sha256
pub mod Tests
