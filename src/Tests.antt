-- ===== src/Tests.antt =====
-- Tests, and for each theorem with hypotheses an input at which it applies.
pub mod Cycle
pub mod Machine
pub mod Node
pub mod Verdicts
pub mod Chip
pub mod Tables
pub mod Addresses
pub mod Formation
pub mod Buffers
pub mod Monitor
pub mod Update
pub mod Startup
pub mod Runs
pub mod Turns
pub mod Delivery
pub mod Wires
pub mod Watch
