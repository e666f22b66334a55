-- ===== src/Total.antt =====
-- That the master's handlers end: `Ready` states of which state and of which kernel, `Steps`, `Calls`,
-- `Messages` and `Loops` prove it of the functions that the handlers call, `Handlers` of the handlers, and
-- `Events` of every sequence of events.
pub mod Ready
pub mod Received
pub mod Steps
pub mod Calls
pub mod Messages
pub mod Loops
pub mod Handlers
pub mod Diagnose
pub mod Events
