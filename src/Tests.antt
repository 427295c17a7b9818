-- ===== src/Tests.antt =====
-- Runs of the modelled code at concrete inputs: a small function for the optimiser's passes
-- (src/middleend/), an arena and a few types.
pub mod Programs
mod ConstFold
mod InstCombine
mod Storage
mod Blocks
mod Sha256
pub mod RegAlloc
mod Canon
mod Dce
mod Cfg
pub mod Liveness
mod Allocate
mod Unreachable
