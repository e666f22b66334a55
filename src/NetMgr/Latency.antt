-- ===== src/NetMgr/Latency.antt =====
-- The time stamps of a node's transaction, which end in a packet for the monitor,
-- `mercury_netMgr_logWriteTime` of src/hg_netMgr.c; `initConfigSt` and `sessionInfo`.
use wbms.Prelude.{ℕ, ◌%◌, ◌^◌, none, some, get_elem?, set, sub_u32, if◌then◌else◌}
use wbms.Types.{PktS, rx_ok, tx_token, tx_ack, rx_data, Lat}
use wbms.Kernel.{Kernel}
use wbms.Bms.{done, fault, Cmd, ◌>>=◌, modify, call, call_}
use wbms.NetMgr.States.{node_idx}

-- The writes to `data_pkt[idx]`.
unfoldable pub stamp : PktS → ℕ → ℕ → Lat → Lat
stamp rx_ok addr t p = record p {
  timings = record (p.timings) {
    intervals = record (p.timings.intervals) { ok = t };
    cycle_start = t;
  };
}
stamp tx_token addr t p = record p {
  timings = record (p.timings) { intervals = record (p.timings.intervals) { tok = t } };
}
stamp rx_data addr t p = record p {
  timings = record (p.timings) { intervals = record (p.timings.intervals) { cv = t } };
}
stamp tx_ack addr t p = record p {
  nid = addr;
  timings = record (p.timings) {
    intervals = record (p.timings.intervals) { ack = t };
    cycle_time = sub_u32 t p.timings.cycle_start;
  };
}
stamp _ addr t p = p

module _ {W : Type 0} ⦃k : Kernel W⦄ where
  -- The write, and the packet as it is after the write.
  unfoldable pub write_stamp : ℕ → PktS → ℕ → Cmd W Lat
  unfolding node_idx stamp
  write_stamp addr stage t s = elim (get_elem? s.data_pkt (node_idx addr)) [
    | none ↦ fault
    | some p ↦
        let p' = stamp stage (addr % 2 ^ 8) t p in
        done p' (record s { data_pkt = set s.data_pkt (node_idx addr) p' })
  ]

  -- A copy of the packet goes to the monitor. Without memory the code hands NULL to the FIFO.
  unfoldable pub queue_latency : Lat → Cmd W (Unit {0})
  queue_latency p = do
    allocated ← call k.malloc
    if allocated then call_ (k.hil_txqueue.put p) else λ s. fault

  -- `mercury_netMgr_logWriteTime`
  unfoldable pub log_write_time : ℕ → PktS → Cmd W (Unit {0})
  unfolding write_stamp queue_latency
  log_write_time addr rx_ok = call k.uptime >>= λ t. write_stamp addr rx_ok t >>= λ _ s. done tt s
  log_write_time addr tx_token =
      call k.uptime >>= λ t. write_stamp addr tx_token t >>= λ _ s. done tt s
  log_write_time addr rx_data =
      call k.uptime >>= λ t. write_stamp addr rx_data t >>= λ _ s. done tt s
  log_write_time addr tx_ack = call k.uptime >>= λ t. write_stamp addr tx_ack t >>= queue_latency
  log_write_time addr _ = call k.uptime >>= λ _ s. done tt s

  -- `sessionInfo`
  unfoldable pub session_info : Cmd W (Unit {0})
  session_info = do
    t ← call k.uptime
    modify (λ s. record s { session = record (s.session) { startup_ts = t } })

-- `initConfigSt`: NODES_NUM, LTC_NCELLS, PAYLOAD_SIZE and the two timer values
unfoldable pub init_config_st : {W : Type 0} → ℕ → Cmd W (Unit {0})
init_config_st nodes = modify (λ s. record s {
  config = record { pkt_size = 22; ok_to = 1000; cv_to = 1000; nodes_num = nodes; cells_num = 16 };
})
