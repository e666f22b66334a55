-- ===== src/Mesh/Handlers.antt =====
-- The handlers of the messages that the master receives, src/mesh_cli.c. `sender` is `ctx->addr`, a
-- `uint16_t`. The master's own address is NODE_BMS_ADDR = 224.
pub mod Dropped
use wbms.Prelude.{ℕ, ◌+◌, ◌*◌, ◌%◌, ◌^◌, none, some, Option, List, ◌∷◌, ◌==◌, if◌then◌else◌, inc_u8}
use wbms.Types.{no_issues, batt_info_lost, FifoData, eq_sys}
use wbms.Kernel.{Fifo, Kernel}
use wbms.Bms.{done, fault, Cmd, pure, ◌>>=◌, ◌>>◌, modify, call, call_, need}
use wbms.NetMgr.States.{update_system_state}
use wbms.NetMgr.Clients.{new_client}
use wbms.NetMgr.Timers.{stop_ok_timer, stop_data_timer}
use wbms.Mesh.Info.{update_ok_info, update_data_info, update_rejected_msg_info}
use wbms.Mesh.Send.{mesh_send_token, send_address}
use wbms.Mesh.Nodes.{client_addr}

-- `u4.u32`, from the four bytes `buf->data[0..3]`, little-endian
unfoldable pub token_code : List ℕ → Option ℕ
token_code (a ∷ b ∷ c ∷ d ∷ rest) = some (a + 256 * b + 256 * 256 * c + 256 * 256 * 256 * d)
token_code _ = none

module _ {W : Type 0} ⦃k : Kernel W⦄ where
  -- `k_malloc`, `memcpy` and `k_fifo_put`: without memory the code hands NULL to the FIFO.
  unfoldable pub put_copy : Fifo W FifoData → FifoData → Cmd W (Unit {0})
  put_copy q d = do allocated ← call k.malloc; if allocated then call_ (q.put d) else λ s. fault

  -- The end of `mercury_mesh_OKHandler`: the last OK of the active nodes starts the tokens.
  unfoldable pub after_ok : ℕ → Cmd W (Unit {0})
  after_ok fuel s =
      if s.addr_cnt == s.hm.active
      then (do
        update_system_state no_issues
        mesh_send_token fuel
        modify (λ s'. record s' { addr_cnt = 0 }))
          s
      else done tt s

  -- An OK that the state machine has accepted.
  unfoldable pub accept_ok : ℕ → FifoData → Cmd W (Unit {0})
  unfolding put_copy after_ok
  accept_ok fuel d = do
    stop_ok_timer d.addr
    put_copy k.addr_fifo d
    modify (λ s. record s { addr_cnt = inc_u8 s.addr_cnt })
    after_ok fuel

  -- `mercury_mesh_OKHandler`. The sender is compared with the master's own address only after
  -- `updateOKInfo`.
  unfoldable pub ok_handler : ℕ → ℕ → List ℕ → Cmd W (Unit {0})
  ok_handler fuel sender buf = do
    (_, buf) ← need (k.pull_u8 buf)
    let ok_addr = sender % 2 ^ 8
    err ← update_ok_info buf ok_addr
    n ← (λ s. done s.addr_cnt s)
    if ok_addr == 224
        then pure tt
        else if err
        then update_rejected_msg_info ok_addr
        else accept_ok fuel (record { addr = ok_addr; cnt = n })

  -- A data packet that the state machine has accepted.
  unfoldable pub accept_data : ℕ → FifoData → Cmd W (Unit {0})
  unfolding put_copy
  accept_data fuel d = do
    stop_data_timer d.addr
    modify (λ s. record s { datmsg_cnt = inc_u8 s.datmsg_cnt })
    put_copy k.data_addr_fifo d
    mesh_send_token fuel

  -- The part of `mercury_mesh_DataHandler` for a system that is not in BATT_INFO_LOST.
  unfoldable pub check_data : ℕ → ℕ → List ℕ → Cmd W (Unit {0})
  check_data fuel addr buf = do
    n ← (λ s. done s.datmsg_cnt s)
    err ← update_data_info buf addr
    if err
        then update_rejected_msg_info addr
        else accept_data fuel (record { addr = addr; cnt = n })

  -- `mercury_mesh_DataHandler`
  unfoldable pub data_handler : ℕ → ℕ → List ℕ → Cmd W (Unit {0})
  data_handler fuel sender buf s =
      if eq_sys s.hm.curr_sys batt_info_lost
      then update_rejected_msg_info (sender % 2 ^ 8) s
      else check_data fuel (sender % 2 ^ 8) buf s

  -- `mercury_mesh_RXAddrRQHandler`
  unfoldable pub addr_rq_handler : ℕ → List ℕ → Cmd W (Unit {0})
  unfolding token_code
  addr_rq_handler sender buf = if sender == 224 then pure tt else (do
    t_code ← need (token_code buf)
    n ← new_client
    a ← client_addr n
    send_address a t_code)
