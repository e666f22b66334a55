-- ===== src/Total/Steps.antt =====
-- The tables' functions end.
use wbms.Prelude.{
  ℕ, ◌<◌, ◌≡◌, refl, ap, List, some, get_elem?, get_elem?-some, set, length, length-map, length-set,
  arith,
}
use wbms.Types.{
  PktS, no_info, rx_ok, tx_token, tx_ack, rx_data, tx_recover, NodeS, token_mismatch, pec_failed,
  timeout_err, pkt_st_err, SysSs, TransS, ErrCnt, HgNetClient,
}
use wbms.Bms.{Bms}
use wbms.NetMgr.States.{node_idx, states_update, update_node_state, update_system_state}
use wbms.NetMgr.Counters.{
  count_client_error, transaction_update, log_error, error_count_update, log_packet,
  packet_count_update,
}
use wbms.Invariant.Consistent.{map-set_same}
use wbms.Total.Ready.{
  ends, node_idx-lt, Views, InNode, IsFormed, IsReady, same_shape, Stays, entry_of,
}

module _ {W : Type 0} {v : Views W} {n : ℕ} {table : List ℕ} {p q : ℕ}
    (net : IsFormed n table) where
  pub states_update-Ends :
      (a : ℕ) (c : PktS) → InNode n a → Stays {W = W} v n table p q (states_update a c)
  unfolding states_update
  states_update-Ends a c inside s h =
      let (st, e) = entry_of s.system_state_log a net.few h.nodes inside in
      rw (e, states_update)
        (ends (
          same_shape h _ refl (length-set s.system_state_log (node_idx a) _) refl refl refl refl
            (refl, refl, refl)))

  pub update_node_state-Ends :
      (a : ℕ) (x : NodeS) → InNode n a → Stays {W = W} v n table p q (update_node_state a x)
  unfolding update_node_state
  update_node_state-Ends a x inside s h =
      let (st, e) = entry_of s.system_state_log a net.few h.nodes inside in
      rw (e, update_node_state)
        (ends (
          same_shape h _ refl (length-set s.system_state_log (node_idx a) _) refl refl refl refl
            (refl, refl, refl)))

  pub update_system_state-Ends : (x : SysSs) → Stays {W = W} v n table p q (update_system_state x)
  unfolding update_system_state
  update_system_state-Ends x s h =
      ends (same_shape h _ refl refl refl refl refl refl (refl, refl, refl))

  pub transaction_update-Ends :
      (a : ℕ) (x : TransS) → InNode n a → Stays {W = W} v n table p q (transaction_update a x)
  unfolding transaction_update
  transaction_update-Ends a x inside s h =
      let (c, e) = entry_of s.trans_log a net.few h.transactions inside in
      rw (e, transaction_update)
        (ends (
          same_shape h _ refl refl (length-set s.trans_log (node_idx a) _) refl refl refl
            (refl, refl, refl)))

  log_packet-Ends : (a : ℕ) (x : PktS) → InNode n a → Stays {W = W} v n table p q (log_packet a x)
  unfolding log_packet
  log_packet-Ends a x inside s h =
      let (c, e) = entry_of s.pkt_cnt_log a net.few h.packets inside in
      rw (e, log_packet)
        (ends (
          same_shape h _ refl refl refl (length-set s.pkt_cnt_log (node_idx a) _) refl refl
            (refl, refl, refl)))

  pub packet_count_update-Ends :
      (a : ℕ) (x : PktS) → InNode n a → Stays {W = W} v n table p q (packet_count_update a x)
  unfolding packet_count_update
  packet_count_update-Ends a no_info inside s h = ends h
  packet_count_update-Ends a rx_ok inside s h = log_packet-Ends a rx_ok inside s h
  packet_count_update-Ends a tx_token inside s h = log_packet-Ends a tx_token inside s h
  packet_count_update-Ends a tx_ack inside s h = log_packet-Ends a tx_ack inside s h
  packet_count_update-Ends a rx_data inside s h = log_packet-Ends a rx_data inside s h
  packet_count_update-Ends a tx_recover inside s h = log_packet-Ends a tx_recover inside s h

  -- `NetState.client` has an entry at every index below 16.
  pub client_at :
      (i : ℕ) {s : Bms W}
      → IsReady {W = W} v n table p q s
      → i < 16
      → (c : HgNetClient) × (get_elem? s.client i ≡ some c)
  client_at i {s} h below = get_elem?-some s.client i (
      omega (
        arith,
        length-map (λ (c : HgNetClient). c.addr) s.client,
        ap (λ (l : List ℕ). length l) h.clients,
        net.full,
      ))

  -- An entry of `NetState.client` changes, but not its address.
  pub client_changed :
      (i : ℕ) {s : Bms W} (c d : HgNetClient) (l : ErrCnt)
      → get_elem? s.client i ≡ some c
      → d.addr ≡ c.addr
      → IsReady {W = W} v n table p q s
      → IsReady {W = W} v n table p q
          (record s { client = set s.client i d; hm = record (s.hm) { log = l } })
  client_changed i {s} c d l e same h =
      same_shape h _ (map-set_same (λ (x : HgNetClient). x.addr) s.client i c d e same) refl refl
        refl refl refl (refl, refl, refl)

  log_error-Ends : (a : ℕ) (x : NodeS) → InNode n a → Stays {W = W} v n table p q (log_error a x)
  unfolding log_error count_client_error
  log_error-Ends a x inside s h =
      let (c, e) =
        client_at (node_idx a) h (omega (arith, node_idx-lt n a net.few inside, net.few)) in
      rw (e, log_error) (ends (client_changed (node_idx a) c _ _ e refl h))

  pub error_count_update-Ends :
      (a : ℕ) (x : NodeS) → InNode n a → Stays {W = W} v n table p q (error_count_update a x)
  unfolding error_count_update
  error_count_update-Ends a token_mismatch inside s h = log_error-Ends a token_mismatch inside s h
  error_count_update-Ends a pec_failed inside s h = log_error-Ends a pec_failed inside s h
  error_count_update-Ends a timeout_err inside s h = log_error-Ends a timeout_err inside s h
  error_count_update-Ends a pkt_st_err inside s h = log_error-Ends a pkt_st_err inside s h
  error_count_update-Ends a _ inside s h = ends h
