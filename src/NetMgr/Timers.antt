-- ===== src/NetMgr/Timers.antt =====
-- The timers of each node, src/hg_netMgr.c. `ok_timeout` and `data_timeout` have NODES_NUM entries.
use wbms.Prelude.{ℕ, ltb, if◌then◌else◌}
use wbms.Types.{Timer, ok_timeout, data_timeout}
use wbms.Kernel.{Kernel}
use wbms.Bms.{done, fault, Cmd, call_, nodes_num}
use wbms.NetMgr.States.{node_idx}

module _ {W : Type 0} ⦃k : Kernel W⦄ where
  -- `mercury_netMgr_startDataTimer(uint8_t nodeIdx)`, for DATA_TIMER_VALUE ms
  unfoldable pub start_data_timer : ℕ → Cmd W (Unit {0})
  start_data_timer idx s =
      if ltb idx (nodes_num s) then call_ (k.timer_start (data_timeout idx) 1000) s else fault

  -- `mercury_netMgr_startOkTimer(uint8_t nodeIdx)`, for OK_TIMER_VALUE ms
  unfoldable pub start_ok_timer : ℕ → Cmd W (Unit {0})
  start_ok_timer idx s =
      if ltb idx (nodes_num s) then call_ (k.timer_start (ok_timeout idx) 1000) s else fault

  -- The body that the two stop functions share: stop a timer that has time left.
  unfoldable pub stop_timer : Timer → Cmd W (Unit {0})
  stop_timer t s =
      if ltb 0 (k.timer_remaining t s.world) then call_ (k.timer_stop t) s else done tt s

  -- `mercury_netMgr_stopDataTimer(uint8_t nodeAddr)`
  unfoldable pub stop_data_timer : ℕ → Cmd W (Unit {0})
  unfolding node_idx stop_timer
  stop_data_timer addr s =
      if ltb (node_idx addr) (nodes_num s)
      then stop_timer (data_timeout (node_idx addr)) s
      else fault

  -- `mercury_netMgr_stopOkTimer(uint8_t nodeAddr)`
  unfoldable pub stop_ok_timer : ℕ → Cmd W (Unit {0})
  unfolding node_idx stop_timer
  stop_ok_timer addr s =
      if ltb (node_idx addr) (nodes_num s) then stop_timer (ok_timeout (node_idx addr)) s else fault
