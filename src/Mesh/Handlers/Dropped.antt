-- ===== src/Mesh/Handlers/Dropped.antt =====
-- A data packet that `mercury_mesh_DataHandler` does not accept.
use wbms.Prelude.{ℕ, List, ◌%◌, ◌^◌, ◌≡◌, true, false, some, get_elem?, set, arith}
use wbms.Types.{rx_data, tx_token, pkt_st_err, batt_info_lost, BmsSt, eq_sys, HgNetClient}
use wbms.Kernel.{Kernel}
use wbms.Bms.{Bms, done}
use wbms.NetMgr.States.{node_idx, states_step, states_update}
use wbms.NetMgr.States.Protocol.{states_step_rejected}
use wbms.NetMgr.Counters.{count_error, count_client_error, log_error, error_count_update}
use wbms.Mesh.Info.{update_data_info, update_rejected_msg_info}
use wbms.Mesh.Handlers.{check_data, data_handler}

module _ {W : Type 0} where
  -- The state with one dropped message counted, for the system and for the node of client `c`.
  abbrev pub dropped : ℕ → HgNetClient → Bms W → Bms W
  dropped a c s = record s {
    client = set s.client (node_idx a) (count_client_error pkt_st_err c);
    hm = record (s.hm) { log = count_error pkt_st_err s.hm.log };
  }

module _ {W : Type 0} ⦃k : Kernel W⦄ where
  rejected_info :
      (a : ℕ) (c : HgNetClient) (s : Bms W)
      → get_elem? s.client (node_idx a) ≡ some c
      → update_rejected_msg_info a s ≡ done tt (dropped a c s)
  unfolding update_rejected_msg_info error_count_update log_error
  rejected_info a c s e = ground arith

  -- While the system is in BATT_INFO_LOST every data packet is only counted as dropped: its contents
  -- are not read, no state machine moves, and nothing is sent or queued.
  pub data_handler-lost :
      (fuel sender : ℕ) (buf : List ℕ) (c : HgNetClient) (s : Bms W)
      → s.hm.curr_sys ≡ batt_info_lost
      → get_elem? s.client (node_idx (sender % 2 ^ 8)) ≡ some c
      → data_handler fuel sender buf s ≡ done tt (dropped (sender % 2 ^ 8) c s)
  unfolding data_handler
  data_handler-lost fuel sender buf c s lost e =
      ground (arith, rejected_info (sender % 2 ^ 8) c s e)

  -- Otherwise a data packet that comes when its node was not given a token is only counted as
  -- dropped, and noted in the node's previous event: its contents are not read, and nothing is sent
  -- or queued.
  pub data_handler-rejected :
      (fuel sender : ℕ) (buf : List ℕ) (c : HgNetClient) (st : BmsSt) (s : Bms W)
      → eq_sys s.hm.curr_sys batt_info_lost ≡ false
      → get_elem? s.client (node_idx (sender % 2 ^ 8)) ≡ some c
      → get_elem? s.system_state_log (node_idx (sender % 2 ^ 8)) ≡ some st
      → (states_step rx_data st).1 ≡ true
      → data_handler fuel sender buf s
        ≡ done tt (
            dropped (sender % 2 ^ 8) c (record s {
              system_state_log =
                  set s.system_state_log
                    (node_idx (sender % 2 ^ 8))
                    (record st { prev_pkt = tx_token });
            }))
  unfolding data_handler check_data update_data_info states_update
  data_handler-rejected fuel sender buf c st s fine e d wrong =
      let s' = record s {
        system_state_log =
            set s.system_state_log (node_idx (sender % 2 ^ 8)) (record st { prev_pkt = tx_token });
      } in
      ground (arith, states_step_rejected rx_data st wrong, rejected_info (sender % 2 ^ 8) c s' e)
