-- ===== src/Cmb.antt =====
-- The program of a node (the CMB build), which answers the master.
pub mod Node
pub mod Wire
pub mod Delivery
pub mod Opening
pub mod Address
pub mod Queues
pub mod Start
