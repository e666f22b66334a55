-- ===== src/Tests/Node.antt =====
-- The theorems on the program of a node, at a node with the address 17.
use wbms.Prelude.{
  ℕ, ◌/◌, ◌%◌, ◌^◌, ◌≡◌, ◌≢◌, refl, none, List, [], ◌∷◌, ◌++◌, arith, replicate, ltb→lt,
}
use wbms.Types.{Item, u8, le16, le32, mem}
use wbms.Kernel.Simulated.{World, boot, simulated}
use wbms.Cmb.Node.{Cmb, Services, done, main_round, addr_rp_handler}
use wbms.Cmb.Node.Signals.{start, acknowledged, take_signals, IsQuiet, main_round-quiet}
use wbms.Cmb.Start.{main_init, main_start, no_signal, no_start, main_start-lost}
use wbms.Cmb.Wire.{IsWire, addr_rp_handler-wire}

abbrev pub node : Cmb World
node = record {
  mesh_addr = 17;
  hw_addr = 17;
  uicr_customer0 = 17;
  addr_token = 9;
  start_sem = 0;
  ack_sgn = 0;
  start_sgn = 0;
  ok_sgn = 0;
  rcv_sgn = 0;
  restart_sgn = 0;
  cell_volts = replicate 16 200;
  curr_crc = 3200;
  packet_count = 1;
  last_tx_ok = 0;
  last_rx_tok = 0;
  world = boot;
}

node-IsQuiet : IsQuiet node
node-IsQuiet = record { no_ok = refl; no_rcv = refl; no_restart = refl }

-- The master acknowledges twice and starts the node again.
main_round-quiet_example :
    main_round ⦃k = simulated⦄
      (take_signals (acknowledged 224 ∷ start ∷ acknowledged 224 ∷ []) node)
    ≡ done (record (node) { ack_sgn = 1; start_sgn = 1; start_sem = 1 })
unfolding take_signals
main_round-quiet_example =
    main_round-quiet ⦃k = simulated⦄ (acknowledged 224 ∷ start ∷ acknowledged 224 ∷ []) node
      node-IsQuiet

-- The start signal has come too early, and the master acknowledges once more.
main_start-lost_example :
    main_start ⦃k = simulated⦄
      (take_signals (acknowledged 224 ∷ []) (main_init (take_signals (start ∷ []) node)))
    ≡ none
main_start-lost_example =
    main_start-lost ⦃k = simulated⦄ (start ∷ []) (acknowledged 224 ∷ []) node (no_start no_signal)

abbrev item_bytes : Item → List ℕ
item_bytes (u8 x) = x % 256 ∷ []
item_bytes (le16 x) = x % 256 ∷ x / 256 % 256 ∷ []
item_bytes (le32 x) = x % 256 ∷ x / 256 % 256 ∷ x / 65536 % 256 ∷ x / 16777216 % 256 ∷ []
item_bytes (mem l) = l

abbrev pub wire : List Item → List ℕ
wire [] = []
wire (x ∷ xs) = item_bytes x ++ wire xs

pub wire-IsWire : IsWire wire
wire-IsWire = record { le32_bytes = λ x items. refl; le16_bytes = λ x items. refl }

abbrev services : Services World
services = record {
  rand32 = λ w. (w.clock, w);
  rand_cells = λ w. (replicate 16 w.clock, w);
  provision = λ a w. w;
}

addr_rp_handler-wire_example :
    ((9 ≡ node.addr_token)
      → addr_rp_handler services 224 (wire (le32 9 ∷ le16 18 ∷ [])) node
        ≡ done (record (node) { mesh_addr = 18; hw_addr = 18; uicr_customer0 = 18 }))
    × ((9 ≢ node.addr_token)
        → addr_rp_handler services 224 (wire (le32 9 ∷ le16 18 ∷ [])) node ≡ done node)
addr_rp_handler-wire_example =
    addr_rp_handler-wire services wire wire-IsWire 224 9 18 node (λ e. ground arith)
      (ltb→lt 9 (2 ^ 32) refl) (ltb→lt 18 (2 ^ 16) refl)
