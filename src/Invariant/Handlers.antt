-- ===== src/Invariant/Handlers.antt =====
-- The handlers of the master, of messages, of expired timers and of received data packets, keep the
-- invariant.
use wbms.Prelude.{
  ℕ, ◌%◌, ◌^◌, ◌-◌, ◌==◌, refl, true, false, Bool, none, some, Option, List, get_elem?,
  Option-cases, Bool-cases, inl, inr, leb, if◌then◌else◌, length-set,
}
use wbms.Types.{
  NodeS, rejected, ended, timeout_err, token_mismatch, pec_failed, batt_info_lost, no_issues,
  RxCvPkt, FifoData, eq_sys,
}
use wbms.Kernel.{Kernel, Fifo}
use wbms.Bms.{pure}
use wbms.Bms.Post
use wbms.Bms.Post.{Post, at_done, at_halt, at_fault, Keeps}
use wbms.NetMgr.States.{node_idx}
use wbms.NetMgr.Counters.{count_transaction, transaction_update}
use wbms.NetMgr.Queues.{search_tx, fetch_rx}
use wbms.Mesh.Info.{update_rejected_msg_info}
use wbms.Mesh.Handlers.{
  put_copy, after_ok, accept_ok, ok_handler, accept_data, check_data, data_handler, token_code,
  addr_rq_handler,
}
use wbms.Mesh.Expiry.{data_lost, recover_lost, ok_lost}
use wbms.Diag.{write_node, write_last_updated, refuse, crc16_check, verify_rx_data, diag_round}
use wbms.Invariant.Consistent.{IsConsistent, same_tables, with_world, with_client}
use wbms.Invariant.Steps.{
  update_node_state-Keeps, update_system_state-Keeps, transaction_update-Keeps,
  error_count_update-Keeps,
}
use wbms.Invariant.Calls.{stop_data_timer-Keeps, stop_ok_timer-Keeps}
use wbms.Invariant.Joins.{new_client-Keeps}
use wbms.Invariant.Messages.{
  need-Keeps, client_addr-Keeps, update_rejected_msg_info-Keeps, update_recover_info-Keeps,
  update_data_info-Keeps, update_ok_info-Keeps, send_address-Keeps, mesh_send_token-Keeps,
  flush_fifos-Keeps, recover_nodes-Keeps, send_start-Keeps,
}

module _ {W : Type 0} ⦃k : Kernel W⦄ {n : ℕ} where
  put_copy-Keeps :
      (q : Fifo W FifoData) (d : FifoData) → Keeps {W = W} (IsConsistent n) (put_copy q d)
  unfolding put_copy
  put_copy-Keeps q d s h = elim (Bool-cases (k.malloc s.world).0) [
    | inl given ↦ rw (given, put_copy) (at_done (with_world h _))
    | inr refused ↦ rw (refused, put_copy) at_fault
  ]

  after_ok-Keeps : (fuel : ℕ) → Keeps {W = W} (IsConsistent n) (after_ok fuel)
  unfolding after_ok
  after_ok-Keeps fuel s h = elim (Bool-cases (s.addr_cnt == s.hm.active)) [
    | inl all ↦
        rw (all, after_ok)
          (Post.bind (update_system_state-Keeps no_issues s h) λ _ s h.
            Post.bind (mesh_send_token-Keeps fuel s h)
              λ _ s h. at_done (same_tables h _ refl refl refl refl refl refl))
    | inr wait ↦ rw (wait, after_ok) (at_done h)
  ]

  accept_ok-Keeps : (fuel : ℕ) (d : FifoData) → Keeps {W = W} (IsConsistent n) (accept_ok fuel d)
  unfolding accept_ok
  accept_ok-Keeps fuel d s h = Post.bind (stop_ok_timer-Keeps d.addr s h) λ _ s h.
      Post.bind (put_copy-Keeps k.addr_fifo d s h)
        λ _ s h. after_ok-Keeps fuel _ (same_tables h _ refl refl refl refl refl refl)

  pub ok_handler-Keeps :
      (fuel a : ℕ) (buf : List ℕ) → Keeps {W = W} (IsConsistent n) (ok_handler fuel a buf)
  unfolding ok_handler
  ok_handler-Keeps fuel a buf s h = Post.bind (need-Keeps (k.pull_u8 buf) s h) λ (_, buf) s h.
      Post.bind (update_ok_info-Keeps buf (a % 2 ^ 8) s h)
        λ err s h. ends (a % 2 ^ 8 == 224) err s.addr_cnt s h
    where
      ends :
          (own err : Bool) (c : ℕ)
          → Keeps {W = W} (IsConsistent n) (
              if own
              then pure tt
              else if err
              then update_rejected_msg_info (a % 2 ^ 8)
              else accept_ok fuel (record { addr = a % 2 ^ 8; cnt = c }))
      ends true err c s h = at_done h
      ends false true c s h = update_rejected_msg_info-Keeps (a % 2 ^ 8) s h
      ends false false c s h = accept_ok-Keeps fuel _ s h

  accept_data-Keeps :
      (fuel : ℕ) (d : FifoData) → Keeps {W = W} (IsConsistent n) (accept_data fuel d)
  unfolding accept_data
  accept_data-Keeps fuel d s h = Post.bind (stop_data_timer-Keeps d.addr s h) λ _ s h.
      Post.bind
        (put_copy-Keeps k.data_addr_fifo d _ (same_tables h _ refl refl refl refl refl refl))
        λ _. mesh_send_token-Keeps fuel

  check_data-Keeps :
      (fuel a : ℕ) (buf : List ℕ) → Keeps {W = W} (IsConsistent n) (check_data fuel a buf)
  unfolding check_data
  check_data-Keeps fuel a buf s h =
      Post.bind (update_data_info-Keeps buf a s h)
        (elim [ true ↦ update_rejected_msg_info-Keeps a | false ↦ accept_data-Keeps fuel _ ])

  pub data_handler-Keeps :
      (fuel a : ℕ) (buf : List ℕ) → Keeps {W = W} (IsConsistent n) (data_handler fuel a buf)
  unfolding data_handler
  data_handler-Keeps fuel a buf s h = elim (Bool-cases (eq_sys s.hm.curr_sys batt_info_lost)) [
    | inl gone ↦ rw (gone, data_handler) (update_rejected_msg_info-Keeps (a % 2 ^ 8) s h)
    | inr fine ↦ rw (fine, data_handler) (check_data-Keeps fuel (a % 2 ^ 8) buf s h)
  ]

  pub addr_rq_handler-Keeps :
      (a : ℕ) (buf : List ℕ) → Keeps {W = W} (IsConsistent n) (addr_rq_handler a buf)
  unfolding addr_rq_handler
  addr_rq_handler-Keeps a buf s h = elim (Bool-cases (a == 224)) [
    | inl own ↦ rw (own, addr_rq_handler) (at_done h)
    | inr other ↦
        rw (other, addr_rq_handler)
          (Post.bind (need-Keeps (token_code buf) s h) λ t s h.
            Post.bind (new_client-Keeps s h)
              λ i s h. Post.bind (client_addr-Keeps i s h) λ c. send_address-Keeps c t)
  ]

  pub data_lost-Keeps : (fuel a : ℕ) → Keeps {W = W} (IsConsistent n) (data_lost fuel a)
  unfolding data_lost count_transaction
  data_lost-Keeps fuel a s h = Post.bind (update_node_state-Keeps a timeout_err s h) λ _ s h.
      Post.bind (transaction_update-Keeps a rejected (λ c. refl) s h) λ _ s h.
        Post.bind (update_system_state-Keeps batt_info_lost s h) λ _ s h.
          Post.bind (update_recover_info-Keeps a s h) λ _ s h.
            Post.bind (error_count_update-Keeps a timeout_err s h)
              λ _ s h. Post.bind (flush_fifos-Keeps fuel s h) λ _. send_start-Keeps

  recover_lost-Keeps : (a : ℕ) → Keeps {W = W} (IsConsistent n) (recover_lost a)
  unfolding recover_lost
  recover_lost-Keeps a s h = elim (Bool-cases (leb 16 a)) [
    | inl high ↦ rw (high, recover_lost) (recover_nodes-Keeps (a - 16) s h)
    | inr low ↦ rw (low, recover_lost) at_fault
  ]

  pub ok_lost-Keeps : (a : ℕ) → Keeps {W = W} (IsConsistent n) (ok_lost a)
  unfolding ok_lost count_transaction
  ok_lost-Keeps a s h = Post.bind (update_node_state-Keeps a timeout_err s h) λ _ s h.
      Post.bind (transaction_update-Keeps a rejected (λ c. refl) s h) λ _ s h.
        Post.bind (recover_lost-Keeps a s h) λ _ s h.
          Post.bind (error_count_update-Keeps a timeout_err s h) λ _. update_recover_info-Keeps a

  write_node-Keeps : (a : ℕ) (x : NodeS) → Keeps {W = W} (IsConsistent n) (write_node a x)
  unfolding write_node
  write_node-Keeps a x s h = elim (Option-cases (get_elem? s.system_state_log (node_idx a))) [
    | inl gone ↦ rw (gone, write_node) at_fault
    | inr (st, e) ↦
        rw (e, write_node)
          (at_done (
            same_tables h _ refl (length-set s.system_state_log (node_idx a) _) refl refl refl
              refl))
  ]

  write_last_updated-Keeps : (a t : ℕ) → Keeps {W = W} (IsConsistent n) (write_last_updated a t)
  unfolding write_last_updated
  write_last_updated-Keeps a t s h = elim (Option-cases (get_elem? s.client (node_idx a))) [
    | inl gone ↦ rw (gone, write_last_updated) at_fault
    | inr (c, e) ↦ rw (e, write_last_updated) (at_done (with_client h (node_idx a) c _ e refl))
  ]

  refuse-Keeps : (a : ℕ) (x : NodeS) → Keeps {W = W} (IsConsistent n) (refuse a x)
  unfolding refuse count_transaction
  refuse-Keeps a x s h =
      Post.bind (transaction_update-Keeps a rejected (λ c. refl) s h)
        λ _ s h. Post.bind (write_node-Keeps a x s h) λ _. error_count_update-Keeps a x

  search_tx-Keeps : (m : RxCvPkt) → Keeps {W = W} (IsConsistent n) (search_tx m)
  unfolding search_tx
  search_tx-Keeps m s h = at_done (with_world h _)

  verify_rx_data-Keeps : (m : RxCvPkt) → Keeps {W = W} (IsConsistent n) (verify_rx_data m)
  unfolding verify_rx_data count_transaction
  verify_rx_data-Keeps m s h = Post.bind (search_tx-Keeps m s h) λ found s h.
      Post.bind (matched found s h) λ _ s h.
        Post.bind (checked (crc16_check k.crc16_ansi m) s h)
          λ _ s h. write_last_updated-Keeps m.addr _ _ (with_world h _)
    where
      matched :
          (found : Bool)
          → Keeps {W = W} (IsConsistent n) (if found then pure tt else refuse m.addr token_mismatch)
      matched true s h = at_done h
      matched false s h = refuse-Keeps m.addr token_mismatch s h

      checked :
          (good : Bool)
          → Keeps {W = W}
              (IsConsistent n)
              (if good then transaction_update m.addr ended else refuse m.addr pec_failed)
      checked true s h = transaction_update-Keeps m.addr ended (λ c. refl) s h
      checked false s h = refuse-Keeps m.addr pec_failed s h

  pub diag_round-Keeps : Keeps {W = W} (IsConsistent n) diag_round
  unfolding diag_round fetch_rx
  diag_round-Keeps s h = fetched (k.rx_msgq.get s.world).0 _ (with_world h _)
    where
      fetched :
          (o : Option RxCvPkt)
          → Keeps {W = W} (IsConsistent n) (elim o [ none ↦ pure tt | some m ↦ verify_rx_data m ])
      fetched none s h = at_done h
      fetched (some m) s h = verify_rx_data-Keeps m s h
