-- ===== src/NetMgr/Counters.antt =====
-- The counters of src/hg_netMgr.c: transactions, packets and errors, for each node and, for
-- errors, for the system.
pub mod Laws
use wbms.Prelude.{ℕ, none, some, get_elem?, set, inc_u32}
use wbms.Types.{
  PktS, no_info, rx_ok, tx_token, tx_ack, rx_data, tx_recover, NodeS, inactive, paired, active,
  token_mismatch, pec_failed, timeout_err, trust_err, pkt_st_err, lost, TransS, started, rejected,
  ended, TransCnt, PktCnt, ErrCnt, HgNetClient,
}
use wbms.Bms.{Bms, done, fault, Cmd, update_at}
use wbms.NetMgr.States.{node_idx}

unfoldable pub count_transaction : TransS → TransCnt → TransCnt
count_transaction rejected c = record c { t_rejected = inc_u32 c.t_rejected }
count_transaction started c = record c { t_started = inc_u32 c.t_started }
count_transaction ended c = record c { t_closed = inc_u32 c.t_closed }

unfoldable pub count_packet : PktS → PktCnt → PktCnt
count_packet rx_ok c = record c { ok_cnt = inc_u32 c.ok_cnt }
count_packet tx_token c = record c { tok_cnt = inc_u32 c.tok_cnt }
count_packet rx_data c = record c { cv_cnt = inc_u32 c.cv_cnt }
count_packet tx_ack c = record c { ack_cnt = inc_u32 c.ack_cnt }
count_packet tx_recover c = record c { rcv_cnt = inc_u32 c.rcv_cnt }
count_packet no_info c = c

unfoldable pub count_error : NodeS → ErrCnt → ErrCnt
count_error token_mismatch c = record c { token_mis_cnt = inc_u32 c.token_mis_cnt }
count_error pec_failed c = record c { pec_cnt = inc_u32 c.pec_cnt }
count_error timeout_err c = record c { timeout_cnt = inc_u32 c.timeout_cnt }
count_error pkt_st_err c = record c { dropped_cnt = inc_u32 c.dropped_cnt }
count_error _ c = c

unfoldable pub count_client_error : NodeS → HgNetClient → HgNetClient
unfolding count_error
count_client_error type c = record c {
  diag = record (c.diag) { log = count_error type c.diag.log };
}

module _ {W : Type 0} where
  -- `mercury_netMgr_transactionUpdate`
  unfoldable pub transaction_update : ℕ → TransS → Cmd W (Unit {0})
  unfolding node_idx
  transaction_update addr type s =
      elim (update_at s.trans_log (node_idx addr) (count_transaction type)) [
        | none ↦ fault
        | some l ↦ done tt (record s { trans_log = l })
      ]

  -- The two increments of a case that counts.
  unfoldable pub log_error : ℕ → NodeS → Cmd W (Unit {0})
  unfolding node_idx
  log_error addr type s = elim (update_at s.client (node_idx addr) (count_client_error type)) [
    | none ↦ fault
    | some l ↦
        done tt (record s { client = l; hm = record (s.hm) { log = count_error type s.hm.log } })
  ]

  -- `mercury_netMgr_errorCountUpdate`: the other node states count nothing
  unfoldable pub error_count_update : ℕ → NodeS → Cmd W (Unit {0})
  unfolding log_error
  error_count_update addr token_mismatch s = log_error addr token_mismatch s
  error_count_update addr pec_failed s = log_error addr pec_failed s
  error_count_update addr timeout_err s = log_error addr timeout_err s
  error_count_update addr pkt_st_err s = log_error addr pkt_st_err s
  error_count_update addr _ s = done tt s

  -- The increment of a case that counts.
  unfoldable pub log_packet : ℕ → PktS → Cmd W (Unit {0})
  unfolding node_idx
  log_packet addr type s = elim (update_at s.pkt_cnt_log (node_idx addr) (count_packet type)) [
    | none ↦ fault
    | some l ↦ done tt (record s { pkt_cnt_log = l })
  ]

  -- `mercury_netMgr_packetCountUpdate`
  unfoldable pub packet_count_update : ℕ → PktS → Cmd W (Unit {0})
  unfolding log_packet
  packet_count_update addr no_info s = done tt s
  packet_count_update addr rx_ok s = log_packet addr rx_ok s
  packet_count_update addr tx_token s = log_packet addr tx_token s
  packet_count_update addr tx_ack s = log_packet addr tx_ack s
  packet_count_update addr rx_data s = log_packet addr rx_data s
  packet_count_update addr tx_recover s = log_packet addr tx_recover s
