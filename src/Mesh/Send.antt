-- ===== src/Mesh/Send.antt =====
-- The messages that the master sends, src/mesh_cli.c. A message that the mesh refuses is fatal, with
-- the LED code 3.
pub mod Flush
use wbms.Prelude.{ℕ, zero, suc, true, false, Option, List, [], ◌∷◌, if◌then◌else◌}
use wbms.Types.{
  Op, addr_rp, ack_msg, start_msg, token_msg, rcv_msg, Item, le16, le32, Message, FifoData,
}
use wbms.Kernel.{Fifo, Kernel}
use wbms.Bms.{done, no_fuel, Cmd, pure, led_fatal, ◌>>=◌, ◌>>◌, modify, call, call_, need}
use wbms.NetMgr.States.{node_idx}
use wbms.NetMgr.Timers.{start_data_timer, start_ok_timer}
use wbms.Mesh.Info.{update_ack_info, update_recover_info, update_token_info}
use wbms.Mesh.Token.{token_gen}

abbrev pub message : Op → ℕ → List Item → Message
message op addr items = record { op = op; addr = addr; items = items }

module _ {W : Type 0} ⦃k : Kernel W⦄ where
  -- `bt_mesh_model_send`, with what follows when it succeeds.
  unfoldable pub transmit : Message → Cmd W (Unit {0}) → Cmd W (Unit {0})
  transmit msg sent = do failed ← call (k.mesh_send msg); if failed then led_fatal 3 else sent

  -- `mercury_mesh_sendAddress`, to NODE_CMB_DEFADDR
  unfoldable pub send_address : ℕ → ℕ → Cmd W (Unit {0})
  unfolding transmit
  send_address new_addr t_code =
      transmit (message addr_rp 1 (le32 t_code ∷ le16 new_addr ∷ [])) (pure tt)

  -- `bt_mesh_cli_sendToken`
  unfoldable pub cli_send_token : ℕ → Cmd W (Unit {0})
  unfolding transmit node_idx
  cli_send_token addr = do
    t ← call k.uptime
    let hval = token_gen k.fnv_32a_str t
    transmit (message token_msg addr (le32 hval ∷ []))
        (update_token_info hval addr >> start_data_timer (node_idx addr))

  -- `bt_mesh_cli_sendACK`
  unfoldable pub cli_send_ack : ℕ → Cmd W (Unit {0})
  unfolding transmit node_idx
  cli_send_ack dest =
      transmit (message ack_msg dest []) (update_ack_info dest >> start_ok_timer (node_idx dest))

  -- `bt_mesh_cli_sendRecover`
  unfoldable pub cli_send_recover : ℕ → Cmd W (Unit {0})
  unfolding transmit
  cli_send_recover dest = transmit (message rcv_msg dest []) (update_recover_info dest)

  -- `bt_mesh_cli_allowStart`
  unfoldable pub cli_allow_start : ℕ → Cmd W (Unit {0})
  unfolding transmit
  cli_allow_start dest = do
    modify (λ s. record s { addr_cnt = 0 })
    transmit (message start_msg dest []) (pure tt)

  -- The loop `while(!k_fifo_is_empty(..))` of `mercury_mesh_sendToken` and of
  -- `bt_mesh_cli_flushFifos`, with the use that is made of each element before it is freed.
  unfoldable pub drain :
      Fifo W FifoData → (Option FifoData → Cmd W (Unit {0})) → ℕ → Cmd W (Unit {0})
  drain q use_of zero s = no_fuel
  drain q use_of (suc fuel) s = elim (q.is_empty s.world) [
    | true ↦ done tt s
    | false ↦ (call q.get >>= λ d. use_of d >> call_ k.release >> drain q use_of fuel) s
  ]

  -- `bt_mesh_cli_sendACK(model, destAddr->addr)`
  unfoldable pub acknowledge : Option FifoData → Cmd W (Unit {0})
  acknowledge o = do d ← need o; cli_send_ack d.addr

  -- `mercury_mesh_sendToken`: a token for the next node that has sent its OK; when none is left,
  -- acknowledgements for all the nodes that have sent their data.
  unfoldable pub mesh_send_token : ℕ → Cmd W (Unit {0})
  unfolding acknowledge
  mesh_send_token fuel s =
      if k.addr_fifo.is_empty s.world
      then drain k.data_addr_fifo acknowledge fuel s
      else (call k.addr_fifo.get >>= need >>= λ d. cli_send_token d.addr >> call_ k.release) s

  -- `bt_mesh_cli_flushFifos`
  unfoldable pub flush_fifos : ℕ → Cmd W (Unit {0})
  unfolding drain
  flush_fifos fuel = do
    drain k.addr_fifo (λ _. pure tt) fuel
    drain k.data_addr_fifo (λ _. pure tt) fuel
