-- ===== src/NetMgr.antt =====
-- The network manager of the master, src/hg_netMgr.c.
pub mod States
pub mod Counters
pub mod Clients
pub mod Queues
pub mod Latency
pub mod Timers
