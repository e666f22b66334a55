-- ===== src/Cycle/Frames.antt =====
-- The commands that leave what the abstract machine sees.
use wbms.Prelude.{
  ℕ, zero, suc, refl, ◌-◌, Option, none, some, List, get_elem?, ltb, leb, Bool-cases, Option-cases,
  inl, inr,
}
use wbms.Types.{
  PktS, no_info, rx_ok, tx_token, tx_ack, rx_data, tx_recover, TransS, started, Timer, ok_timeout,
  data_timeout, TxTokPkt, RxCvPkt, Lat,
}
use wbms.Kernel.{Kernel}
use wbms.Bms.{need, nodes_num}
use wbms.NetMgr.States.{node_idx}
use wbms.NetMgr.Counters.{transaction_update, log_packet, packet_count_update}
use wbms.NetMgr.Latency.{write_stamp, queue_latency, log_write_time}
use wbms.NetMgr.Queues.{push, push_qtx, push_qrx}
use wbms.NetMgr.Timers.{
  start_data_timer, start_ok_timer, stop_timer, stop_data_timer, stop_ok_timer,
}
use wbms.Mesh.Info.{write_last_ok, pull_cells, take_data, take_ok}
use wbms.Total.Ready.{Views, IsReliable}
use wbms.Total.Calls.{same_then, push-Untouched}
use wbms.Total.Received.{push_rx-SameFifos}
use wbms.Cycle
use wbms.Cycle.{
  Point, IsAt, Sees, sees_done, sees_fault, sees_no_fuel, Frame, same-IsAt, fifos-IsAt, world-IsAt,
}

module _ {W : Type 0} (v : Views W) where
  transaction_update-Frame : (a : ℕ) (t : TransS) → Frame {W = W} v (transaction_update a t)
  unfolding transaction_update
  transaction_update-Frame a t x s h = elim (Option-cases (get_elem? s.trans_log (node_idx a))) [
    | inl gone ↦ rw (gone, transaction_update) sees_fault
    | inr (c, e) ↦
        rw (e, transaction_update)
          (sees_done (same-IsAt h _ refl refl refl refl (refl, refl, refl)))
  ]

  log_packet-Frame : (a : ℕ) (p : PktS) → Frame {W = W} v (log_packet a p)
  unfolding log_packet
  log_packet-Frame a p x s h = elim (Option-cases (get_elem? s.pkt_cnt_log (node_idx a))) [
    | inl gone ↦ rw (gone, log_packet) sees_fault
    | inr (c, e) ↦
        rw (e, log_packet) (sees_done (same-IsAt h _ refl refl refl refl (refl, refl, refl)))
  ]

  pub packet_count_update-Frame : (a : ℕ) (p : PktS) → Frame {W = W} v (packet_count_update a p)
  unfolding packet_count_update
  packet_count_update-Frame a no_info x s h = sees_done h
  packet_count_update-Frame a rx_ok x s h = log_packet-Frame a rx_ok x s h
  packet_count_update-Frame a tx_token x s h = log_packet-Frame a tx_token x s h
  packet_count_update-Frame a tx_ack x s h = log_packet-Frame a tx_ack x s h
  packet_count_update-Frame a rx_data x s h = log_packet-Frame a rx_data x s h
  packet_count_update-Frame a tx_recover x s h = log_packet-Frame a tx_recover x s h

  pub write_last_ok-Frame : (a t : ℕ) → Frame {W = W} v (write_last_ok a t)
  unfolding write_last_ok
  write_last_ok-Frame a t x s h = elim (Bool-cases (leb 16 a)) [
    | inr low ↦ rw (low, write_last_ok) sees_fault
    | inl high ↦ elim (Option-cases (get_elem? s.client (a - 16))) [
      | inl gone ↦ rw (high, write_last_ok) (rw gone sees_fault)
      | inr (c, e) ↦
          rw (high, write_last_ok)
            (rw e (sees_done (same-IsAt h _ refl refl refl refl (refl, refl, refl))))
    ]
  ]

module _ {W : Type 0} ⦃k : Kernel W⦄ {v : Views W} (law : IsReliable k v) where
  write_stamp-Frame : (a : ℕ) (p : PktS) (t : ℕ) → Frame {W = W} v (write_stamp a p t)
  unfolding write_stamp
  write_stamp-Frame a p t x s h = elim (Option-cases (get_elem? s.data_pkt (node_idx a))) [
    | inl gone ↦ rw (gone, write_stamp) sees_fault
    | inr (l, e) ↦
        rw (e, write_stamp) (sees_done (same-IsAt h _ refl refl refl refl (refl, refl, refl)))
  ]

  queue_latency-Frame : (l : Lat) → Frame {W = W} v (queue_latency l)
  unfolding queue_latency
  queue_latency-Frame l x s h =
      rw (law.memory s.world, queue_latency)
        (sees_done (world-IsAt h _ (same_then v (law.by_malloc s.world) (law.by_hil_put l _))))

  pub log_write_time-Frame : (a : ℕ) (p : PktS) → Frame {W = W} v (log_write_time a p)
  unfolding log_write_time
  log_write_time-Frame a rx_ok x s h =
      Cycle.bind (write_stamp-Frame a rx_ok _ x _ (world-IsAt h _ (law.by_uptime s.world)))
        λ _ s h. sees_done h
  log_write_time-Frame a tx_token x s h =
      Cycle.bind (write_stamp-Frame a tx_token _ x _ (world-IsAt h _ (law.by_uptime s.world)))
        λ _ s h. sees_done h
  log_write_time-Frame a rx_data x s h =
      Cycle.bind (write_stamp-Frame a rx_data _ x _ (world-IsAt h _ (law.by_uptime s.world)))
        λ _ s h. sees_done h
  log_write_time-Frame a tx_ack x s h =
      Cycle.bind (write_stamp-Frame a tx_ack _ x _ (world-IsAt h _ (law.by_uptime s.world)))
        λ l s h. queue_latency-Frame l x s h
  log_write_time-Frame a _ x s h = sees_done (world-IsAt h _ (law.by_uptime s.world))

  pub push_qtx-Frame : (m : TxTokPkt) → Frame {W = W} v (push_qtx m)
  unfolding push_qtx
  push_qtx-Frame m x s h =
      sees_done (world-IsAt h _ (push-Untouched k.tx_msgq 40 m s.world law.by_tx_get law.by_tx_put))

  pub push_qrx-Frame : (m : RxCvPkt) → Frame {W = W} v (push_qrx m)
  unfolding push_qrx
  push_qrx-Frame m x s h =
      sees_done (fifos-IsAt h (push k.rx_msgq 6 m s.world) (push_rx-SameFifos law m s.world))

  pub start_data_timer-Frame : (i : ℕ) → Frame {W = W} v (start_data_timer i)
  unfolding start_data_timer
  start_data_timer-Frame i x s h = elim (Bool-cases (ltb i (nodes_num s))) [
    | inl inside ↦
        rw (inside, start_data_timer) (sees_done (world-IsAt h _ (law.by_start _ 1000 s.world)))
    | inr outside ↦ rw (outside, start_data_timer) sees_fault
  ]

  pub start_ok_timer-Frame : (i : ℕ) → Frame {W = W} v (start_ok_timer i)
  unfolding start_ok_timer
  start_ok_timer-Frame i x s h = elim (Bool-cases (ltb i (nodes_num s))) [
    | inl inside ↦
        rw (inside, start_ok_timer) (sees_done (world-IsAt h _ (law.by_start _ 1000 s.world)))
    | inr outside ↦ rw (outside, start_ok_timer) sees_fault
  ]

  stop_timer-Frame : (t : Timer) → Frame {W = W} v (stop_timer t)
  unfolding stop_timer
  stop_timer-Frame t x s h = elim (Bool-cases (ltb 0 (k.timer_remaining t s.world))) [
    | inl running ↦ rw (running, stop_timer) (sees_done (world-IsAt h _ (law.by_stop t s.world)))
    | inr over ↦ rw (over, stop_timer) (sees_done h)
  ]

  pub stop_data_timer-Frame : (a : ℕ) → Frame {W = W} v (stop_data_timer a)
  unfolding stop_data_timer
  stop_data_timer-Frame a x s h = elim (Bool-cases (ltb (node_idx a) (nodes_num s))) [
    | inl inside ↦ rw (inside, stop_data_timer) (stop_timer-Frame (data_timeout (node_idx a)) x s h)
    | inr outside ↦ rw (outside, stop_data_timer) sees_fault
  ]

  pub stop_ok_timer-Frame : (a : ℕ) → Frame {W = W} v (stop_ok_timer a)
  unfolding stop_ok_timer
  stop_ok_timer-Frame a x s h = elim (Bool-cases (ltb (node_idx a) (nodes_num s))) [
    | inl inside ↦ rw (inside, stop_ok_timer) (stop_timer-Frame (ok_timeout (node_idx a)) x s h)
    | inr outside ↦ rw (outside, stop_ok_timer) sees_fault
  ]

module _ {W : Type 0} (v : Views W) where
  pub need-Frame : {A : Type 0} (o : Option A) → Frame {W = W} v (need o)
  need-Frame none x s h = sees_fault
  need-Frame (some a) x s h = sees_done h

module _ {W : Type 0} ⦃k : Kernel W⦄ {v : Views W} (law : IsReliable k v) where
  pull_cells-Frame : (i : ℕ) (buf : List ℕ) → Frame {W = W} v (pull_cells i buf)
  unfolding pull_cells
  pull_cells-Frame zero buf x s h = sees_done h
  pull_cells-Frame (suc i) buf x s h =
      Cycle.bind (need-Frame v (k.pull_u8 buf) x s h)
        λ (_, buf) s h. Cycle.bind (pull_cells-Frame i buf x s h) λ _ s h. sees_done h

  pub take_data-Frame : (buf : List ℕ) (a : ℕ) → Frame {W = W} v (take_data buf a)
  unfolding take_data
  take_data-Frame buf a x s h = Cycle.bind (log_write_time-Frame law a rx_data x s h) λ _ s h.
      Cycle.bind (pull_cells-Frame 16 buf x _ (world-IsAt h _ (law.by_uptime s.world)))
        λ (_, buf) s h. Cycle.bind (need-Frame v (k.pull_le32 buf) x s h) λ (_, buf) s h.
          Cycle.bind (need-Frame v (k.pull_le16 buf) x s h) λ _ s h.
            Cycle.bind (push_qrx-Frame law _ x s h) λ _ s h.
              packet_count_update-Frame v a rx_data x _
                (same-IsAt h _ refl refl refl refl (refl, refl, refl))

  pub take_ok-Frame : (buf : List ℕ) (a : ℕ) → Frame {W = W} v (take_ok buf a)
  unfolding take_ok
  take_ok-Frame buf a x s h = Cycle.bind (log_write_time-Frame law a rx_ok x s h) λ _ s h.
      Cycle.bind (need-Frame v (k.pull_u8 buf) x s h) λ _ s h.
        Cycle.bind
          (transaction_update-Frame v a started x _
            (same-IsAt h _ refl refl refl refl (refl, refl, refl)))
          λ _. packet_count_update-Frame v a rx_ok x
