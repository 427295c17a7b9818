-- ===== src/Ir.antt =====
-- The intermediate representation (src/middleend/ir.h, ir.c, ir_containers.c, ir_mutate.c).
-- `Types` has the types, `Inst` the values, instructions, blocks and functions, `Build` the
-- constructors, `Mutate` the edits of a block, `Phis` the order of phis, and `Eval` a reference meaning of the operations.
pub mod Types
pub mod Inst
pub mod Build
pub mod Mutate
pub mod Phis
pub mod Eval
