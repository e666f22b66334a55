-- ===== src/Mesh.antt =====
-- The mesh layer of the master: what it records of each message (`Info`), the messages it sends
-- (`Send`), the starts and recoveries (`Nodes`), the handlers of received messages (`Handlers`) and
-- of expired timers (`Expiry`). From src/hg_mesh.c, src/mesh_cli.c, src/hg_netMgr.c and src/fnv.c.
pub mod Info
pub mod Token
pub mod Send
pub mod Nodes
pub mod Handlers
pub mod Expiry
