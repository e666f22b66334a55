-- ===== src/Mesh/Nodes.antt =====
-- Starting and recovering nodes, src/hg_mesh.c.
use wbms.Prelude.{ℕ, zero, suc, ◌+◌, ◌||◌, none, some, get_elem?, if◌then◌else◌}
use wbms.Types.{paired, batt_info_lost, eq_node, eq_sys}
use wbms.Kernel.{Kernel}
use wbms.Bms.{done, fault, Cmd, pure, ◌>>=◌, ◌>>◌}
use wbms.Mesh.Send.{cli_send_token, cli_send_ack, cli_send_recover, cli_allow_start}

module _ {W : Type 0} where
  -- `NetState.client[i].addr`
  unfoldable pub client_addr : ℕ → Cmd W ℕ
  client_addr i s = elim (get_elem? s.client i) [ none ↦ fault | some c ↦ done c.addr s ]

module _ {W : Type 0} ⦃k : Kernel W⦄ where
  -- `mercury_mesh_recoverNodes(int nodeIdx)`
  unfoldable pub recover_nodes : ℕ → Cmd W (Unit {0})
  unfolding client_addr
  recover_nodes i = do dest ← client_addr i; cli_send_recover dest

  -- `mercury_mesh_resendACK(uint8_t nodeIdx)`
  unfoldable pub resend_ack : ℕ → Cmd W (Unit {0})
  unfolding client_addr
  resend_ack i = do dest ← client_addr i; cli_send_ack dest

  -- `mercury_mesh_resendToken(uint8_t addr)`
  unfoldable pub resend_token : ℕ → Cmd W (Unit {0})
  resend_token addr = cli_send_token addr

  -- One round of the loop of `mercury_mesh_sendStart`.
  unfoldable pub start_entry : ℕ → Cmd W (Unit {0})
  unfolding client_addr
  start_entry i s = elim (get_elem? s.system_state_log i) [
    | none ↦ fault
    | some st ↦
        if eq_node st.curr_node paired || eq_sys s.hm.curr_sys batt_info_lost
        then (client_addr i >>= cli_allow_start) s
        else done tt s
  ]

  -- The loop, by the rounds left.
  unfoldable pub start_rounds : ℕ → ℕ → Cmd W (Unit {0})
  start_rounds zero i = pure tt
  start_rounds (suc n) i = start_entry i >> start_rounds n (i + 1)

  -- `mercury_mesh_sendStart`, over the `active` first entries. The rounds do not change `active`.
  unfoldable pub send_start : Cmd W (Unit {0})
  unfolding start_rounds
  send_start s = start_rounds s.hm.active 0 s
