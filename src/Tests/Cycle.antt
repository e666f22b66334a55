-- ===== src/Tests/Cycle.antt =====
-- Two nodes join and go through a transaction.
use wbms.Prelude.{ℕ, ◌≡◌, refl, List, [], ◌∷◌, map}
use wbms.Types.{Message, Op, addr_rp, token_msg, ack_msg, start_msg}
use wbms.Kernel.Simulated.{World, simulated}
use wbms.Bms.{Run, done, ◌>>◌}
use wbms.NetMgr.Clients.{
  init_state, init_entry, new_client, find_slot, assign_addr, find_addr, round, taken, enter_client,
}
use wbms.NetMgr.States.{
  update_node_state, update_system_state, states_step, states_update, judge, node_idx,
}
use wbms.NetMgr.Counters.{
  error_count_update, packet_count_update, count_packet, transaction_update, count_transaction,
}
use wbms.NetMgr.Latency.{log_write_time, write_stamp, queue_latency}
use wbms.NetMgr.Queues.{push_qtx, push_qrx}
use wbms.NetMgr.Timers.{stop_ok_timer, stop_data_timer, start_ok_timer, start_data_timer}
use wbms.Mesh.Info.{
  update_ok_info, take_ok, write_last_ok, update_data_info, take_data, pull_cells, update_ack_info,
  update_token_info, update_rejected_msg_info,
}
use wbms.Mesh.Token.{token_gen}
use wbms.Mesh.Send.{
  cli_send_token, cli_send_ack, cli_allow_start, send_address, mesh_send_token, drain,
}
use wbms.Mesh.Nodes.{client_addr, send_start, start_entry}
use wbms.Mesh.Handlers.{
  addr_rq_handler, ok_handler, accept_ok, after_ok, data_handler, check_data, accept_data,
}
use wbms.Samples.{master}

abbrev data_bytes : ℕ → List ℕ
data_bytes tok =
    1 ∷ 2 ∷ 3 ∷ 4 ∷ 5 ∷ 6 ∷ 7 ∷ 8 ∷ 9 ∷ 10 ∷ 11 ∷ 12 ∷ 13 ∷ 14 ∷ 15 ∷ 16 ∷ tok ∷ 0 ∷ 0 ∷ 0 ∷ 136 ∷ 0
    ∷ []

cycle : Run World (Unit {0})
unfolding init_state init_entry new_client find_slot assign_addr find_addr round taken enter_client
    update_node_state update_system_state states_step states_update judge node_idx client_addr
    send_start start_entry addr_rq_handler ok_handler accept_ok after_ok data_handler check_data
    accept_data update_ok_info take_ok write_last_ok update_data_info take_data pull_cells
    update_ack_info update_token_info update_rejected_msg_info error_count_update
    packet_count_update count_packet transaction_update count_transaction log_write_time write_stamp
    queue_latency push_qtx push_qrx stop_ok_timer stop_data_timer start_ok_timer start_data_timer
    cli_send_token cli_send_ack cli_allow_start send_address mesh_send_token drain token_gen
cycle =
    (do
      init_state
      addr_rq_handler ⦃k = simulated⦄ 1 (9 ∷ 0 ∷ 0 ∷ 0 ∷ [])
      addr_rq_handler ⦃k = simulated⦄ 1 (8 ∷ 0 ∷ 0 ∷ 0 ∷ [])
      send_start ⦃k = simulated⦄
      ok_handler ⦃k = simulated⦄ 9 17 (1 ∷ 1 ∷ [])
      ok_handler ⦃k = simulated⦄ 9 16 (1 ∷ 1 ∷ [])
      data_handler ⦃k = simulated⦄ 9 17 (data_bytes 0)
      data_handler ⦃k = simulated⦄ 9 16 (data_bytes 0))
      (master 16)

sent_by : Run World (Unit {0}) → List (Op × ℕ)
sent_by r = elim r [ done _ s ↦ map (λ (m : Message). (m.op, m.addr)) s.world.sent | _ ↦ [] ]

-- The messages of a start-up and a transaction of two nodes: addresses, starts, a token for each
-- node in the order of the OKs, and the acknowledgements in the order of the data.
cycle_sent :
    sent_by cycle
    ≡ (addr_rp, 1)
      ∷ (addr_rp, 1)
      ∷ (start_msg, 16)
      ∷ (start_msg, 17)
      ∷ (token_msg, 17)
      ∷ (token_msg, 16)
      ∷ (ack_msg, 17)
      ∷ (ack_msg, 16)
      ∷ []
unfolding sent_by cycle
cycle_sent = refl
