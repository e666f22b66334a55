-- ===== src/Invariant/Steps.antt =====
-- The network manager's functions keep the invariant.
use wbms.Prelude.{
  ℕ, ◌≡◌, refl, ap, sym, ◌∙◌, get_elem?, set, length-set, Option-cases, inl, inr, inc_u32,
  eq_of_some,
}
use mathlib.Core.Path.{ap₂}
use wbms.Types.{
  PktS, no_info, rx_ok, tx_token, tx_ack, rx_data, tx_recover, NodeS, token_mismatch, pec_failed,
  timeout_err, pkt_st_err, SysSs, TransS, started, TransCnt, PktCnt,
}
use wbms.Bms.{done, ◌>>◌, and_then}
use wbms.Bms.Post.{at_done, at_fault, Keeps}
use wbms.NetMgr.States.{
  node_idx, states_step, states_update, update_node_state, update_system_state,
}
use wbms.NetMgr.Counters.{
  count_transaction, count_packet, transaction_update, log_error, error_count_update, log_packet,
  packet_count_update,
}
use wbms.NetMgr.Counters.Laws.{log_error-IsBalanced}
use wbms.Invariant.Consistent.{IsConsistent, map-set, map-set_same, get_elem?-map, same_tables}

module _ {W : Type 0} {n : ℕ} where
  pub states_update-Keeps : (a : ℕ) (p : PktS) → Keeps {W = W} (IsConsistent n) (states_update a p)
  unfolding states_update
  states_update-Keeps a p s h = elim (Option-cases (get_elem? s.system_state_log (node_idx a))) [
    | inl gone ↦ rw (gone, states_update) at_fault
    | inr (st, e) ↦
        rw (e, states_update)
          (at_done (
            same_tables h _ refl (length-set s.system_state_log (node_idx a) (states_step p st).0)
              refl refl refl refl))
  ]

  pub update_node_state-Keeps :
      (a : ℕ) (x : NodeS) → Keeps {W = W} (IsConsistent n) (update_node_state a x)
  unfolding update_node_state
  update_node_state-Keeps a x s h =
      elim (Option-cases (get_elem? s.system_state_log (node_idx a))) [
        | inl gone ↦ rw (gone, update_node_state) at_fault
        | inr (st, e) ↦
            rw (e, update_node_state)
              (at_done (
                same_tables h _ refl (length-set s.system_state_log (node_idx a) _) refl refl refl
                  refl))
      ]

  pub update_system_state-Keeps :
      (x : SysSs) → Keeps {W = W} (IsConsistent n) (update_system_state x)
  unfolding update_system_state
  update_system_state-Keeps x s h = at_done (same_tables h _ refl refl refl refl refl refl)

  -- A transaction that is not STARTED leaves the counts of started ones.
  pub transaction_update-Keeps :
      (a : ℕ) (x : TransS)
      → ((c : TransCnt) → (count_transaction x c).t_started ≡ c.t_started)
      → Keeps {W = W} (IsConsistent n) (transaction_update a x)
  unfolding transaction_update
  transaction_update-Keeps a x same s h = elim (Option-cases (get_elem? s.trans_log (node_idx a))) [
    | inl gone ↦ rw (gone, transaction_update) at_fault
    | inr (c, e) ↦
        rw (e, transaction_update)
          (at_done (record {
            clients = h.clients;
            nodes = h.nodes;
            transactions = length-set s.trans_log (node_idx a) _ ∙ h.transactions;
            packets = h.packets;
            latencies = h.latencies;
            balanced = record {
              pec = h.balanced.pec;
              timeout = h.balanced.timeout;
              mismatch = h.balanced.mismatch;
              dropped = h.balanced.dropped;
            };
            paired_counts =
                map-set_same (λ c. c.t_started) s.trans_log (node_idx a) c (count_transaction x c) e
                  (same c)
                ∙ h.paired_counts;
          }))
  ]

  log_packet-Keeps :
      (a : ℕ) (p : PktS)
      → ((c : PktCnt) → (count_packet p c).ok_cnt ≡ c.ok_cnt)
      → Keeps {W = W} (IsConsistent n) (log_packet a p)
  unfolding log_packet
  log_packet-Keeps a p same s h = elim (Option-cases (get_elem? s.pkt_cnt_log (node_idx a))) [
    | inl gone ↦ rw (gone, log_packet) at_fault
    | inr (c, e) ↦
        rw (e, log_packet)
          (at_done (record {
            clients = h.clients;
            nodes = h.nodes;
            transactions = h.transactions;
            packets = length-set s.pkt_cnt_log (node_idx a) _ ∙ h.packets;
            latencies = h.latencies;
            balanced = record {
              pec = h.balanced.pec;
              timeout = h.balanced.timeout;
              mismatch = h.balanced.mismatch;
              dropped = h.balanced.dropped;
            };
            paired_counts =
                h.paired_counts
                ∙ sym (
                    map-set_same (λ c. c.ok_cnt) s.pkt_cnt_log (node_idx a) c (count_packet p c) e
                      (same c));
          }))
  ]

  -- A packet that is not an OK leaves the counts of OKs.
  pub packet_count_update-Keeps :
      (a : ℕ) (p : PktS)
      → ((c : PktCnt) → (count_packet p c).ok_cnt ≡ c.ok_cnt)
      → Keeps {W = W} (IsConsistent n) (packet_count_update a p)
  unfolding packet_count_update
  packet_count_update-Keeps a no_info same s h = at_done h
  packet_count_update-Keeps a rx_ok same s h = log_packet-Keeps a rx_ok same s h
  packet_count_update-Keeps a tx_token same s h = log_packet-Keeps a tx_token same s h
  packet_count_update-Keeps a tx_ack same s h = log_packet-Keeps a tx_ack same s h
  packet_count_update-Keeps a rx_data same s h = log_packet-Keeps a rx_data same s h
  packet_count_update-Keeps a tx_recover same s h = log_packet-Keeps a tx_recover same s h

  -- A started transaction and its OK are counted together.
  pub start_counts-Keeps :
      (a : ℕ)
      → Keeps {W = W} (IsConsistent n) (transaction_update a started >> packet_count_update a rx_ok)
  unfolding transaction_update packet_count_update count_transaction count_packet
  start_counts-Keeps a s h = elim (Option-cases (get_elem? s.trans_log (node_idx a))) [
    | inl gone ↦ rw (gone, transaction_update) at_fault
    | inr (c, e) ↦ elim (Option-cases (get_elem? s.pkt_cnt_log (node_idx a))) [
      | inl gone ↦
          rw (e, transaction_update) (rw (gone, and_then, packet_count_update, log_packet) at_fault)
      | inr (d, g) ↦
          let same : c.t_started ≡ d.ok_cnt = eq_of_some (
            sym (get_elem?-map (λ (x : TransCnt). x.t_started) s.trans_log (node_idx a) c e)
            ∙ ap (λ l. get_elem? l (node_idx a)) h.paired_counts
            ∙ get_elem?-map (λ (x : PktCnt). x.ok_cnt) s.pkt_cnt_log (node_idx a) d g) in
          rw (e, transaction_update)
            (rw (g, and_then, packet_count_update, log_packet)
              (at_done (record {
                clients = h.clients;
                nodes = h.nodes;
                transactions = length-set s.trans_log (node_idx a) _ ∙ h.transactions;
                packets = length-set s.pkt_cnt_log (node_idx a) _ ∙ h.packets;
                latencies = h.latencies;
                balanced = record {
                  pec = h.balanced.pec;
                  timeout = h.balanced.timeout;
                  mismatch = h.balanced.mismatch;
                  dropped = h.balanced.dropped;
                };
                paired_counts =
                    map-set (λ x. x.t_started) s.trans_log (node_idx a) _
                    ∙ ap₂ (λ l v. set l (node_idx a) (inc_u32 v)) h.paired_counts same
                    ∙ sym (map-set (λ x. x.ok_cnt) s.pkt_cnt_log (node_idx a) _);
              })))
    ]
  ]

  log_error-Keeps : (a : ℕ) (x : NodeS) → Keeps {W = W} (IsConsistent n) (log_error a x)
  unfolding log_error
  log_error-Keeps a x s h = elim (Option-cases (get_elem? s.client (node_idx a))) [
    | inl gone ↦ rw (gone, log_error) at_fault
    | inr (c, e) ↦
        let ends : log_error a x s ≡ done tt _ = rw (e, log_error) refl in
        rw (e, log_error)
          (at_done (record {
            clients = length-set s.client (node_idx a) _ ∙ h.clients;
            nodes = h.nodes;
            transactions = h.transactions;
            packets = h.packets;
            latencies = h.latencies;
            balanced = log_error-IsBalanced a x s ends h.balanced;
            paired_counts = h.paired_counts;
          }))
  ]

  pub error_count_update-Keeps :
      (a : ℕ) (x : NodeS) → Keeps {W = W} (IsConsistent n) (error_count_update a x)
  unfolding error_count_update
  error_count_update-Keeps a token_mismatch s h = log_error-Keeps a token_mismatch s h
  error_count_update-Keeps a pec_failed s h = log_error-Keeps a pec_failed s h
  error_count_update-Keeps a timeout_err s h = log_error-Keeps a timeout_err s h
  error_count_update-Keeps a pkt_st_err s h = log_error-Keeps a pkt_st_err s h
  error_count_update-Keeps a _ s h = at_done h
