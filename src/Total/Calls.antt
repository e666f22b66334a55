-- ===== src/Total/Calls.antt =====
-- The network manager's functions that call the kernel end.
use wbms.Prelude.{ℕ, ◌≡◌, refl, ◌∙◌, List, true, length-set, Bool-cases, ltb, leb, inl, inr, arith}
use wbms.Types.{
  PktS, rx_ok, tx_token, tx_ack, rx_data, Timer, ok_timeout, data_timeout, TxTokPkt, RxCvPkt, Lat,
}
use wbms.Kernel.{Kernel, Msgq}
use wbms.NetMgr.States.{node_idx}
use wbms.NetMgr.Latency.{write_stamp, queue_latency, log_write_time}
use wbms.NetMgr.Queues.{push, overwritten, push_qtx, push_qrx}
use wbms.NetMgr.Timers.{
  start_data_timer, start_ok_timer, stop_timer, stop_data_timer, stop_ok_timer,
}
use wbms.Bms.{nodes_num}
use wbms.Total.Ready
use wbms.Total.Received.{push_rx-SameFifos, push_rx-Heard}
use wbms.Total.Ready.{
  Ends, ends, Views, Untouched, IsReliable, InNode, IsFormed, IsReady, same_shape, in_world,
  with_received, Stays, node_idx-lt, entry_of,
}

pub same_then :
    {W : Type 0} (v : Views W) {w w' w'' : W}
    → Untouched v w' w
    → Untouched v w'' w'
    → Untouched v w'' w
same_then v (a, b, e) (c, d, f) = (c ∙ a, d ∙ b, f ∙ e)

module _ {W : Type 0} {v : Views W} where
  -- A push reads and writes the queue alone.
  pub push-Untouched :
      {A : Type 0} (msgq : Msgq W A) (size : ℕ) (m : A) (w : W)
      → ((w : W) → Untouched v (msgq.get w).1 w)
      → ((m : A) (w : W) → Untouched v (msgq.put m w).1 w)
      → Untouched v (push msgq size m w) w
  unfolding push
  push-Untouched msgq size m w get put = elim (Bool-cases (leb size (msgq.num_used w))) [
    | inl full ↦ rw full (same_then v (get w) (put (overwritten m (msgq.get w).0) (msgq.get w).1))
    | inr room ↦ rw room (put m w)
  ]

module _ {W : Type 0} ⦃k : Kernel W⦄ {v : Views W} {n : ℕ} {table : List ℕ} {p q : ℕ}
    (law : IsReliable k v) (net : IsFormed n table) where
  write_stamp-Ends :
      (a : ℕ) (x : PktS) (t : ℕ) → InNode n a → Stays {W = W} v n table p q (write_stamp a x t)
  unfolding write_stamp
  write_stamp-Ends a x t inside s h =
      let (l, e) = entry_of s.data_pkt a net.few h.latencies inside in
      rw (e, write_stamp)
        (ends (
          same_shape h _ refl refl refl refl (length-set s.data_pkt (node_idx a) _) refl
            (refl, refl, refl)))

  queue_latency-Ends : (l : Lat) → Stays {W = W} v n table p q (queue_latency l)
  unfolding queue_latency
  queue_latency-Ends l s h =
      rw (law.memory s.world, queue_latency)
        (ends (in_world h _ (same_then v (law.by_malloc s.world) (law.by_hil_put l _))))

  pub log_write_time-Ends :
      (a : ℕ) (x : PktS) → InNode n a → Stays {W = W} v n table p q (log_write_time a x)
  unfolding log_write_time
  log_write_time-Ends a rx_ok inside s h =
      Ready.bind (write_stamp-Ends a rx_ok _ inside _ (in_world h _ (law.by_uptime s.world)))
        λ _ s h. ends h
  log_write_time-Ends a tx_token inside s h =
      Ready.bind (write_stamp-Ends a tx_token _ inside _ (in_world h _ (law.by_uptime s.world)))
        λ _ s h. ends h
  log_write_time-Ends a rx_data inside s h =
      Ready.bind (write_stamp-Ends a rx_data _ inside _ (in_world h _ (law.by_uptime s.world)))
        λ _ s h. ends h
  log_write_time-Ends a tx_ack inside s h =
      Ready.bind (write_stamp-Ends a tx_ack _ inside _ (in_world h _ (law.by_uptime s.world)))
        λ l s h. queue_latency-Ends l s h
  log_write_time-Ends a _ inside s h = ends (in_world h _ (law.by_uptime s.world))

  pub push_qtx-Ends : (m : TxTokPkt) → Stays {W = W} v n table p q (push_qtx m)
  unfolding push_qtx
  push_qtx-Ends m s h =
      ends (in_world h _ (push-Untouched k.tx_msgq 40 m s.world law.by_tx_get law.by_tx_put))

  pub push_qrx-Ends : (m : RxCvPkt) → InNode n m.addr → Stays {W = W} v n table p q (push_qrx m)
  unfolding push_qrx
  push_qrx-Ends m inside s h = ends (
      with_received h (push k.rx_msgq 6 m s.world) (push_rx-SameFifos law m s.world)
        (push_rx-Heard law m s.world inside h.known_received))

  pub start_data_timer-Ends :
      (a : ℕ) → InNode n a → Stays {W = W} v n table p q (start_data_timer (node_idx a))
  unfolding start_data_timer
  start_data_timer-Ends a inside s h =
      let there : ltb (node_idx a) (nodes_num s) ≡ true =
        ground (arith, node_idx-lt n a net.few inside, h.nodes) in
      rw (there, start_data_timer) (ends (in_world h _ (law.by_start _ 1000 s.world)))

  pub start_ok_timer-Ends :
      (a : ℕ) → InNode n a → Stays {W = W} v n table p q (start_ok_timer (node_idx a))
  unfolding start_ok_timer
  start_ok_timer-Ends a inside s h =
      let there : ltb (node_idx a) (nodes_num s) ≡ true =
        ground (arith, node_idx-lt n a net.few inside, h.nodes) in
      rw (there, start_ok_timer) (ends (in_world h _ (law.by_start _ 1000 s.world)))

  stop_timer-Ends : (t : Timer) → Stays {W = W} v n table p q (stop_timer t)
  unfolding stop_timer
  stop_timer-Ends t s h = elim (Bool-cases (ltb 0 (k.timer_remaining t s.world))) [
    | inl running ↦ rw (running, stop_timer) (ends (in_world h _ (law.by_stop t s.world)))
    | inr over ↦ rw (over, stop_timer) (ends h)
  ]

  pub stop_data_timer-Ends : (a : ℕ) → InNode n a → Stays {W = W} v n table p q (stop_data_timer a)
  unfolding stop_data_timer
  stop_data_timer-Ends a inside s h =
      let there : ltb (node_idx a) (nodes_num s) ≡ true =
        ground (arith, node_idx-lt n a net.few inside, h.nodes) in
      rw (there, stop_data_timer) (stop_timer-Ends (data_timeout (node_idx a)) s h)

  pub stop_ok_timer-Ends : (a : ℕ) → InNode n a → Stays {W = W} v n table p q (stop_ok_timer a)
  unfolding stop_ok_timer
  stop_ok_timer-Ends a inside s h =
      let there : ltb (node_idx a) (nodes_num s) ≡ true =
        ground (arith, node_idx-lt n a net.few inside, h.nodes) in
      rw (there, stop_ok_timer) (stop_timer-Ends (ok_timeout (node_idx a)) s h)
