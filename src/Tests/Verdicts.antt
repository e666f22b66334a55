-- ===== src/Tests/Verdicts.antt =====
-- The theorems on received packets, at a master for sixteen nodes.
use wbms.Prelude.{some, get_elem?, ◌^◌, ◌≡◌, refl, [], ◌∷◌, replicate, ltb→lt, arith}
use wbms.Types.{
  rcv_msg, rx_ok, tx_token, token_mismatch, RxCvPkt, TransCnt, PktCnt, HgNetClient, BmsSt,
}
use wbms.Kernel.Simulated.{World, boot, simulated, data_addr_fifo-IsFifo, addr_fifo-IsFifo}
use wbms.Bms.{Bms, done}
use wbms.NetMgr.States.{states_step, node_idx}
use wbms.Mesh.Send.{message, flush_fifos}
use wbms.Mesh.Send.Flush.{AreApart, flush_fifos-empties}
use wbms.Mesh.Handlers.{data_handler}
use wbms.Mesh.Handlers.Dropped.{dropped, data_handler-rejected}
use wbms.Mesh.Expiry.{ok_lost}
use wbms.Mesh.Expiry.Twice.{ok_lost-recovered}
use wbms.Diag.{verify_rx_data, crc16_check}
use wbms.Diag.Verify.{Entries, verify_rx_data-Entries}
use wbms.NetMgr.Queues.{search_rounds}
use wbms.NetMgr.Counters.{count_transaction}
use wbms.Samples.{master, free_client, free_entry}

-- Node 17 has sent its OK, and sends data before its token.
abbrev eager : BmsSt
eager = record (free_entry) { curr_pkt = rx_ok }

abbrev eager_master : Bms World
eager_master = record (master 16) {
  system_state_log = free_entry ∷ eager ∷ replicate 14 free_entry;
}

data_handler-rejected_example :
    data_handler ⦃k = simulated⦄ 9 17 (5 ∷ []) eager_master
    ≡ done tt (
        dropped 17 free_client (record eager_master {
          system_state_log =
              free_entry ∷ record (eager) { prev_pkt = tx_token } ∷ replicate 14 free_entry;
        }))
unfolding states_step node_idx
data_handler-rejected_example =
    data_handler-rejected ⦃k = simulated⦄ 9 17 (5 ∷ []) free_client eager eager_master refl refl
      refl refl

abbrev waiting_world : World
waiting_world = record (boot) {
  addrs = record { addr = 16; cnt = 0 } ∷ record { addr = 17; cnt = 1 } ∷ [];
  data_addrs = record { addr = 18; cnt = 0 } ∷ [];
}

abbrev waiting_master : Bms World
waiting_master = record (master 16) { world = waiting_world }

simulated-AreApart : AreApart simulated (λ w. w.addrs) (λ w. w.data_addrs)
simulated-AreApart = record {
  addr_law = addr_fifo-IsFifo;
  data_law = data_addr_fifo-IsFifo;
  addr_get = λ w. ground arith;
  data_get = λ w. ground arith;
  addr_release = λ w. refl;
  data_release = λ w. refl;
}

flush_fifos-empties_example :
    (w : World) × (flush_fifos ⦃k = simulated⦄ 3 waiting_master
      ≡ done tt (record waiting_master { world = w }))
    × (w.addrs ≡ [])
    × (w.data_addrs ≡ [])
flush_fifos-empties_example =
    flush_fifos-empties ⦃k = simulated⦄ (λ w. w.addrs) (λ w. w.data_addrs) simulated-AreApart 3
      waiting_master (ltb→lt 2 3 refl) (ltb→lt 1 3 refl)

-- A packet whose token was never sent, with the right CRC: its transaction is rejected and closed.
abbrev stray : RxCvPkt
stray = record { addr = 17; token = 5; cells = 1 ∷ 2 ∷ []; pec = 3; ts = 0 }

abbrev fresh : TransCnt
fresh = record { t_started = 0; t_closed = 0; t_rejected = 0 }

verify_rx_data-Entries_example :
    (s' : Bms World) × (verify_rx_data ⦃k = simulated⦄ stray (master 16) ≡ done tt s')
    × Entries 1 s'
        (record { t_started = 0; t_closed = 1; t_rejected = 1 })
        (record (free_entry) { curr_node = token_mismatch })
unfolding node_idx search_rounds crc16_check count_transaction
verify_rx_data-Entries_example =
    verify_rx_data-Entries ⦃k = simulated⦄ stray (master 16) fresh free_entry
      (record { client = free_client; of_client = refl; of_transactions = refl; of_states = refl })

-- Node 17 sends no OK in time.
abbrev held_client : HgNetClient
held_client = record (free_client) { addr = 17 }

abbrev held_master : Bms World
held_master = record (master 16) { client = free_client ∷ held_client ∷ replicate 14 free_client }

abbrev no_packets : PktCnt
no_packets = record { tok_cnt = 0; cv_cnt = 0; ok_cnt = 0; ack_cnt = 0; rcv_cnt = 0; rst_cnt = 0 }

ok_lost-recovered_example :
    (s' : Bms World) × (ok_lost ⦃k = simulated⦄ 17 held_master ≡ done tt s')
    × (get_elem? s'.pkt_cnt_log 1 ≡ some (record (no_packets) { rcv_cnt = 2 }))
    × (s'.world ≡ (simulated.mesh_send (message rcv_msg 17 []) held_master.world).1)
unfolding node_idx
ok_lost-recovered_example =
    ok_lost-recovered ⦃k = simulated⦄ 17 held_master held_client fresh free_entry no_packets
      (ltb→lt 15 17 refl) (ltb→lt 17 (2 ^ 8) refl) refl refl refl refl refl refl
