-- ===== src/Mesh/Expiry.antt =====
-- The expiry functions of a node's two timers, src/hg_netMgr.c. The timers' user data is the address
-- in `NetState.client[i]`, of which the functions read one byte.
pub mod Twice
use wbms.Prelude.{ℕ, ◌-◌, ◌%◌, ◌^◌, leb, if◌then◌else◌}
use wbms.Types.{timeout_err, rejected, batt_info_lost}
use wbms.Kernel.{Kernel}
use wbms.Bms.{fault, Cmd, ◌>>=◌, ◌>>◌}
use wbms.NetMgr.States.{update_node_state, update_system_state}
use wbms.NetMgr.Counters.{transaction_update, error_count_update}
use wbms.Mesh.Info.{update_recover_info}
use wbms.Mesh.Send.{flush_fifos}
use wbms.Mesh.Nodes.{client_addr, recover_nodes, send_start}

module _ {W : Type 0} ⦃k : Kernel W⦄ where
  -- `data_expiry_function`, from the lost node's address
  unfoldable pub data_lost : ℕ → ℕ → Cmd W (Unit {0})
  data_lost fuel lost = do
    update_node_state lost timeout_err
    transaction_update lost rejected
    update_system_state batt_info_lost
    update_recover_info lost
    error_count_update lost timeout_err
    flush_fifos fuel
    send_start

  unfoldable pub data_expiry : ℕ → ℕ → Cmd W (Unit {0})
  data_expiry fuel i = do a ← client_addr i; data_lost fuel (a % 2 ^ 8)

  -- `mercury_mesh_recoverNodes(lostNode - BASE_ADDR)`: the index is an `int`
  unfoldable pub recover_lost : ℕ → Cmd W (Unit {0})
  recover_lost lost = if leb 16 lost then recover_nodes (lost - 16) else λ s. fault

  -- `ok_expiry_function`, from the lost node's address
  unfoldable pub ok_lost : ℕ → Cmd W (Unit {0})
  unfolding recover_lost
  ok_lost lost = do
    update_node_state lost timeout_err
    transaction_update lost rejected
    recover_lost lost
    error_count_update lost timeout_err
    update_recover_info lost

  unfoldable pub ok_expiry : ℕ → Cmd W (Unit {0})
  ok_expiry i = do a ← client_addr i; ok_lost (a % 2 ^ 8)
