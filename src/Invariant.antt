-- ===== src/Invariant.antt =====
-- What holds of the master's tables and counters after every handler: `Consistent` states it, `Steps`
-- and `Calls` prove it of the network manager's functions, `Joins` of a node that joins, `Messages`
-- and `Handlers` of the mesh layer and the diagnostic thread, `Events` of every sequence of events.
pub mod Consistent
pub mod Steps
pub mod Calls
pub mod Joins
pub mod Messages
pub mod Handlers
pub mod Events
