-- ===== src/Invariant/Calls.antt =====
-- The network manager's functions that call the kernel keep the invariant.
use wbms.Prelude.{ℕ, refl, get_elem?, length-set, Option-cases, Bool-cases, ltb, inl, inr}
use wbms.Types.{
  PktS, rx_ok, tx_token, tx_ack, rx_data, Timer, ok_timeout, data_timeout, TxTokPkt, RxCvPkt, Lat,
}
use wbms.Kernel.{Kernel}
use wbms.Bms.{call, nodes_num}
use wbms.Bms.Post
use wbms.Bms.Post.{Post, at_done, at_halt, at_fault, Keeps}
use wbms.NetMgr.States.{node_idx}
use wbms.NetMgr.Latency.{write_stamp, queue_latency, log_write_time}
use wbms.NetMgr.Queues.{push_qtx, push_qrx}
use wbms.NetMgr.Timers.{
  start_data_timer, start_ok_timer, stop_timer, stop_data_timer, stop_ok_timer,
}
use wbms.Invariant.Consistent.{IsConsistent, same_tables, with_world}

module _ {W : Type 0} ⦃k : Kernel W⦄ {n : ℕ} where
  -- A call of the kernel changes the kernel's state alone.
  pub call-Keeps : {A : Type 0} (f : W → A × W) → Keeps {W = W} (IsConsistent n) (call f)
  call-Keeps f s h = at_done (with_world h _)

  write_stamp-Keeps :
      (a : ℕ) (p : PktS) (t : ℕ) → Keeps {W = W} (IsConsistent n) (write_stamp a p t)
  unfolding write_stamp
  write_stamp-Keeps a p t s h = elim (Option-cases (get_elem? s.data_pkt (node_idx a))) [
    | inl gone ↦ rw (gone, write_stamp) at_fault
    | inr (x, e) ↦
        rw (e, write_stamp)
          (at_done
            (same_tables h _ refl refl refl refl (length-set s.data_pkt (node_idx a) _) refl))
  ]

  queue_latency-Keeps : (p : Lat) → Keeps {W = W} (IsConsistent n) (queue_latency p)
  unfolding queue_latency
  queue_latency-Keeps p s h = elim (Bool-cases (k.malloc s.world).0) [
    | inl given ↦ rw (given, queue_latency) (at_done (with_world h _))
    | inr refused ↦ rw (refused, queue_latency) at_fault
  ]

  pub log_write_time-Keeps :
      (a : ℕ) (p : PktS) → Keeps {W = W} (IsConsistent n) (log_write_time a p)
  unfolding log_write_time
  log_write_time-Keeps a rx_ok s h =
      Post.bind (write_stamp-Keeps a rx_ok _ _ (with_world h _)) λ _ s h. at_done h
  log_write_time-Keeps a tx_token s h =
      Post.bind (write_stamp-Keeps a tx_token _ _ (with_world h _)) λ _ s h. at_done h
  log_write_time-Keeps a rx_data s h =
      Post.bind (write_stamp-Keeps a rx_data _ _ (with_world h _)) λ _ s h. at_done h
  log_write_time-Keeps a tx_ack s h =
      Post.bind (write_stamp-Keeps a tx_ack _ _ (with_world h _)) λ p s h. queue_latency-Keeps p s h
  log_write_time-Keeps a _ s h = at_done (with_world h _)

  pub push_qtx-Keeps : (m : TxTokPkt) → Keeps {W = W} (IsConsistent n) (push_qtx m)
  unfolding push_qtx
  push_qtx-Keeps m s h = at_done (with_world h _)

  pub push_qrx-Keeps : (m : RxCvPkt) → Keeps {W = W} (IsConsistent n) (push_qrx m)
  unfolding push_qrx
  push_qrx-Keeps m s h = at_done (with_world h _)

  pub start_data_timer-Keeps : (i : ℕ) → Keeps {W = W} (IsConsistent n) (start_data_timer i)
  unfolding start_data_timer
  start_data_timer-Keeps i s h = elim (Bool-cases (ltb i (nodes_num s))) [
    | inl inside ↦ rw (inside, start_data_timer) (at_done (with_world h _))
    | inr outside ↦ rw (outside, start_data_timer) at_fault
  ]

  pub start_ok_timer-Keeps : (i : ℕ) → Keeps {W = W} (IsConsistent n) (start_ok_timer i)
  unfolding start_ok_timer
  start_ok_timer-Keeps i s h = elim (Bool-cases (ltb i (nodes_num s))) [
    | inl inside ↦ rw (inside, start_ok_timer) (at_done (with_world h _))
    | inr outside ↦ rw (outside, start_ok_timer) at_fault
  ]

  stop_timer-Keeps : (t : Timer) → Keeps {W = W} (IsConsistent n) (stop_timer t)
  unfolding stop_timer
  stop_timer-Keeps t s h = elim (Bool-cases (ltb 0 (k.timer_remaining t s.world))) [
    | inl running ↦ rw (running, stop_timer) (at_done (with_world h _))
    | inr over ↦ rw (over, stop_timer) (at_done h)
  ]

  pub stop_data_timer-Keeps : (a : ℕ) → Keeps {W = W} (IsConsistent n) (stop_data_timer a)
  unfolding stop_data_timer
  stop_data_timer-Keeps a s h = elim (Bool-cases (ltb (node_idx a) (nodes_num s))) [
    | inl inside ↦ rw (inside, stop_data_timer) (stop_timer-Keeps (data_timeout (node_idx a)) s h)
    | inr outside ↦ rw (outside, stop_data_timer) at_fault
  ]

  pub stop_ok_timer-Keeps : (a : ℕ) → Keeps {W = W} (IsConsistent n) (stop_ok_timer a)
  unfolding stop_ok_timer
  stop_ok_timer-Keeps a s h = elim (Bool-cases (ltb (node_idx a) (nodes_num s))) [
    | inl inside ↦ rw (inside, stop_ok_timer) (stop_timer-Keeps (ok_timeout (node_idx a)) s h)
    | inr outside ↦ rw (outside, stop_ok_timer) at_fault
  ]
