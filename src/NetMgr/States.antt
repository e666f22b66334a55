-- ===== src/NetMgr/States.antt =====
-- The packet state machine of a node (`mercury_netMgr_statesUpdate`) and the two setters of the
-- node and system states, src/hg_netMgr.c.
pub mod Protocol
pub mod Trace
use wbms.Prelude.{
  ℕ, ◌+◌, ◌%◌, ◌^◌, Bool, true, false, not, ◌&&◌, none, some, if◌then◌else◌, ◌≡◌, get_elem?, set,
}
use wbms.Types.{
  PktS, no_info, rx_ok, tx_token, tx_ack, rx_data, tx_recover, NodeS, active, pkt_st_err,
  timeout_err, SysSs, BmsSt, eq_pkt,
}
use wbms.Bms.{Bms, Run, done, fault, Cmd, ◌>>=◌, modify, need, update_at}

-- `(uint8_t)(addr - BASE_ADDR)`, with BASE_ADDR = 16
unfoldable pub node_idx : ℕ → ℕ
node_idx addr = (addr + 240) % 2 ^ 8

-- The `switch` over the current event: a new node state, or the rejection of the event with the
-- previous event corrected.
pub data Verdict : Type 0 where
  accept : NodeS → Verdict
  reject : PktS → Verdict

unfoldable pub judge : PktS → PktS → NodeS → Verdict
judge rx_ok prev node =
    if not (eq_pkt prev tx_ack) && (not (eq_pkt prev no_info) && not (eq_pkt prev tx_recover))
    then reject tx_ack
    else accept active
judge tx_token prev node = if not (eq_pkt prev rx_ok) then reject rx_ok else accept node
judge rx_data prev node = if not (eq_pkt prev tx_token) then reject tx_token else accept node
judge tx_ack prev node = if not (eq_pkt prev rx_data) then reject rx_data else accept node
judge tx_recover prev node = accept timeout_err
judge no_info prev node = accept node

-- The entry after the event, and the returned flag: `true` if states are mixed up.
unfoldable pub states_step : PktS → BmsSt → BmsSt × Bool
unfolding judge
states_step curr st = elim (judge curr st.curr_pkt st.curr_node) [
  | reject fixed ↦ (record st { prev_pkt = fixed }, true)
  | accept node ↦ (
    record { prev_pkt = st.curr_pkt; curr_pkt = curr; prev_node = st.curr_node; curr_node = node },
    false,
  )
]

module _ {W : Type 0} where
  -- `mercury_netMgr_statesUpdate(uint8_t nodeAddr, t_pktS curr)`
  unfoldable pub states_update : ℕ → PktS → Cmd W Bool
  unfolding node_idx
  states_update addr curr s = elim (get_elem? s.system_state_log (node_idx addr)) [
    | none ↦ fault
    | some st ↦
        let (st', err) = states_step curr st in
        done err (record s { system_state_log = set s.system_state_log (node_idx addr) st' })
  ]

  -- `mercury_netMgr_updateNodeState(uint16_t addr, t_nodeS state)`
  unfoldable pub update_node_state : ℕ → NodeS → Cmd W (Unit {0})
  unfolding node_idx
  update_node_state addr state s =
      elim (update_at s.system_state_log (node_idx addr)
        (λ st. record st { prev_node = st.curr_node; curr_node = state })) [
          | none ↦ fault
          | some l ↦ done tt (record s { system_state_log = l })
        ]

  -- `mercury_netMgr_updateSystemState(t_sysSS state)`
  unfoldable pub update_system_state : SysSs → Cmd W (Unit {0})
  update_system_state state s =
      done tt (record s { hm = record (s.hm) { prev_sys = s.hm.curr_sys; curr_sys = state } })
