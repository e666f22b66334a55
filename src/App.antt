-- ===== src/App.antt =====
-- The master's threads, src/app_master.c, and the wait for the nodes, `mercury_mesh_forming` of
-- src/hg_netMgr.c. What they print and how long they sleep is left out.
pub mod Presence
pub mod Forming
use wbms.Prelude.{
  ℕ, zero, suc, ◌+◌, Bool, true, false, none, some, List, [], ◌∷◌, get_elem?, leb, ◌==◌, not,
  if◌then◌else◌, sub_u32,
}
use wbms.Types.{startup_nodata, eq_sys, Timer, ok_timeout, data_timeout}
use wbms.Kernel.{Kernel}
use wbms.Bms.{Bms, Run, done, fault, Cmd, pure, ◌>>=◌, ◌>>◌, modify, call, nodes_num}
use wbms.NetMgr.Clients.{init_state}
use wbms.NetMgr.Latency.{session_info}
use wbms.Mesh.Nodes.{send_start}
use wbms.Diag.{presence_loop}
use wbms.Radon.{TimingPkt, CntPkt, ConfigPkt, latencies_info_tx, config_info_tx, counters_info_tx}

-- The packets for the monitor, and `prevPrint`.
pub record Monitor : Type 0 where
  pub timing : TimingPkt
  pub counts : CntPkt
  pub config : ConfigPkt
  pub prev_print : ℕ

module _ {W : Type 0} where
  -- `mercury_bms_init`
  unfoldable pub bms_init : Cmd W (Unit {0})
  bms_init = init_state

  -- `mercury_netMgr_timeoutInit`, by the rounds left: the timers in the order in which they are
  -- initialised, each with the index of the entry of `NetState.client` whose address it is given.
  unfoldable pub timeout_init : ℕ → ℕ → Cmd W (List (Timer × ℕ))
  timeout_init zero i s = done [] s
  timeout_init (suc n) i s = elim (get_elem? s.client i) [
    | none ↦ fault
    | some c ↦
        (timeout_init n (i + 1) >>= λ rest. pure ((ok_timeout i, i) ∷ (data_timeout i, i) ∷ rest)) s
  ]

module _ {W : Type 0} ⦃k : Kernel W⦄ where
  -- `mercury_mesh_forming`, at one look at the number of nodes: `false` while it waits.
  unfoldable pub forming : Cmd W Bool
  forming s =
      if not (s.hm.active == nodes_num s)
      then done false s
      else (call k.uptime >>= λ t.
            modify (λ s. record s { session = record (s.session) { startup_ts = t } }) >> pure true)
          s

  -- `diag_checkNodePresence`: `false` if it is left waiting for the nodes.
  unfoldable pub check_node_presence : Cmd W Bool
  unfolding forming
  check_node_presence = call k.uptime >>= λ now s.
      if eq_sys s.hm.curr_sys startup_nodata
      then done true s
      else (presence_loop now (nodes_num s) 0 >> λ s.
            if s.hm.active == 0
            then (init_state >> forming >>= λ formed.
                  if formed then (send_start >> pure true) else pure false)
                s
            else done true s)
          s

  -- `mercury_main_bms`, as far as its loop
  unfoldable pub main_bms_start : Monitor → Cmd W Monitor
  main_bms_start m = do
    send_start
    session_info
    λ s. done (record m { config = config_info_tx s m.config }) s

  -- One round of its loop.
  unfoldable pub main_bms_round : Monitor → Cmd W Monitor
  main_bms_round m = do
    t ← call k.uptime
    timing ← latencies_info_tx m.timing
    if leb 5000 (sub_u32 t m.prev_print)
        then (do
          counts ← (λ s. counters_info_tx s m.counts)
          prev_print ← call k.uptime
          pure (record m { timing = timing; counts = counts; prev_print = prev_print }))
        else pure (record m { timing = timing })
