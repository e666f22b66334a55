-- ===== src/Lib.antt =====
-- A model of the wireless battery management system's network: a master (the BMS), which gives
-- nodes (the CMBs) their addresses on a Bluetooth mesh and collects their cell voltages in
-- transactions of OK, token, data and acknowledgement.
--
-- The parts, and the code that they are about:
--
--   Types              the enums and structs of src/hg_netMgr.h and the `fifo_data_t` of
--                      src/mesh_cli.c; a message as it is handed to the mesh
--   Kernel             what the program calls and does not define (Zephyr, crc16_ansi), and the FNV
--                      hash, as a record of operations over an abstract state; Kernel.Laws states
--                      the documented behaviour of the queues; Kernel.Simulated is an instance
--   Bms                the master's globals, and commands over them; Bms.Post states what holds of
--                      the state that a command ends in
--   NetMgr             src/hg_netMgr.c: States (the packet state machine of a node), Counters,
--                      Clients (`mercury_netMgr_InitState`, `mercury_netMgr_NewClient`, with the
--                      search of an address in Address, how far it goes in Address.Near, and the
--                      nodes that join one after the other in Series), Queues, Latency and Timers
--   Mesh               src/hg_mesh.c and src/mesh_cli.c of the master: Info (what is recorded of a
--                      message), Token (`token_gen` of src/fnv.c), Send, Nodes, Handlers, and Expiry
--                      (the two expiry functions of src/hg_netMgr.c)
--   Diag               the diagnostic thread of src/app_master.c
--   App                the main thread of src/app_master.c, its presence check (Presence: what that does
--                      to the nodes) and the wait for the nodes (Forming: from the cleared tables to
--                      the end of that wait)
--   Startup            `main` of src/main.c for the master, and how src/hg_mesh.c brings up the mesh:
--                      Update (the wait for an update), Master (from the wait to the threads)
--   Led                src/led.c: Codes (what is seen of it)
--   Spi                the transfers of src/hg_spi.c, with the chip at the other end as a parameter,
--                      and Setup (the set-up of the peripheral, and its test)
--   Ltc                the battery monitor chip, src/hg_ltc.c: Pec (its packet error code), Init (the
--                      return code of the initialisation), Adc (commands, poll loop, read-out) and
--                      Device (all of it over the bus; Registers has a chip that keeps what it is
--                      told)
--   Cmb                the program of a node, src/app_slave.c and the CMB parts of src/mesh_cli.c
--                      and src/hg_mesh.c: Node, Wire (the master's reply as a node reads
--                      it), Opening (a node's OK as the master takes it in, which is a byte short of
--                      what Total and Cycle suppose), Delivery (its answer), Address (the
--                      wait of a node for its address), Queues and Start (the set-up of a node and
--                      the start of its main thread)
--   Radon              the packets for the external monitor, src/hg_test.c: Packets (what they hold)
--   Fwupd              the firmware update, src/fwupd.c: Blocks and Image (the download), Stage (the
--                      pages that are erased and the copy loop of the final stage)
--   Preload            src/preload.c, and the test for an update in src/main.c: Regions (the memory
--                      protection unit) and Lines (what RXLine makes of the bytes that come)
--   Invariant          what every event that drives the master keeps
--   Total              that the events of nodes in the tables are handled to their end
--   Cycle              an abstract machine of a cycle of transactions, that the handlers do its steps
--                      (Handlers), and whole cycles (Complete)
--   Samples, Tests     concrete masters, a run of a transaction, and the theorems at an input
--
-- A handler takes the state to a `Run`: it ends normally, stops for ever in `mercury_led_fatal`, or
-- faults, where the C code leaves an array, hands NULL to a FIFO or pulls from an empty buffer. An
-- event of the master is one whole handler: threads and timers are taken to interleave between
-- handlers and not within. Machine integers wrap where the code counts: `% 2 ^ w` is written out.
--
-- NODES_NUM is the length of `systemStateLog`; the header defines it as 1, and its comment and the
-- loops speak of up to HG_NET_MAXCLIENTS = 16. `t_health` is not declared in the repository; its
-- fields are taken from their uses, with `active` a `uint8_t`.
--
-- The search of an address in `mercury_netMgr_NewClient` runs on the fuel 3297 = 205 * 16 + 17: its
-- measure falls in every round from 205 * 16 + 16. The loops that empty a FIFO run on fuel given by
-- the caller; more than the FIFOs have entries is enough. The other loops are over a number of rounds
-- that the code fixes, or over a list.
--
-- A node's `extern` variables `ackSgn` and `startSgn`, which no file defines, are taken as variables
-- of their own. The chip and its answers over SPI, random numbers and the calls that provision a node are
-- parameters.
--
-- The UART of Fwupd is the list of the bytes that come, that of Preload a list of polls; where a list
-- ends the code is still polling. The loop of the download runs on fuel given by the caller; more than
-- there are blocks is enough. The copy loop of the final stage ends on no fuel.
--
-- Not modelled: printing, what the mesh stack does, the priorities and stacks of the threads, the
-- registers of the flash in the final stage, and how long the code sleeps but for the LED.
pub mod Prelude
pub mod Types
pub mod Kernel
pub mod Bms
pub mod NetMgr
pub mod Mesh
pub mod Diag
pub mod Led
pub mod App
pub mod Startup
pub mod Spi
pub mod Ltc
pub mod Cmb
pub mod Radon
pub mod Fwupd
pub mod Preload
pub mod Invariant
pub mod Total
pub mod Cycle
pub mod Samples
pub mod Tests
