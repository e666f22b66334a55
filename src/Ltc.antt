-- ===== src/Ltc.antt =====
-- The battery monitor chip of a node, src/hg_ltc.c.
pub mod Pec
pub mod Init
pub mod Adc
pub mod Device
