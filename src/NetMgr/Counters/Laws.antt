-- ===== src/NetMgr/Counters/Laws.antt =====
-- The error counters of the system against those of the nodes.
use wbms.Prelude.{
  ℕ, zero, suc, ◌+◌, ◌%◌, ◌^◌, ◌≡◌, List, [], ◌∷◌, some, arith, get_elem?, set, Option-cases, inl,
  inr,
}
use wbms.Types.{NodeS, ErrCnt, HgNetClient, token_mismatch, pec_failed, timeout_err, pkt_st_err}
use wbms.Bms.{Bms, done}
use wbms.NetMgr.States.{node_idx}
use wbms.NetMgr.Counters.{count_error, count_client_error, log_error, error_count_update}

-- The sum of a counter over the nodes.
unfoldable pub total : (ErrCnt → ℕ) → List HgNetClient → ℕ
total f [] = 0
total f (c ∷ cs) = f c.diag.log + total f cs

-- Every error counter of the system is, modulo 2^32, the sum of the nodes' counters.
pub record IsBalanced {W : Type 0} (s : Bms W) : Type 0 where
  pub pec : s.hm.log.pec_cnt % 2 ^ 32 ≡ total (λ e. e.pec_cnt) s.client % 2 ^ 32
  pub timeout : s.hm.log.timeout_cnt % 2 ^ 32 ≡ total (λ e. e.timeout_cnt) s.client % 2 ^ 32
  pub mismatch : s.hm.log.token_mis_cnt % 2 ^ 32 ≡ total (λ e. e.token_mis_cnt) s.client % 2 ^ 32
  pub dropped : s.hm.log.dropped_cnt % 2 ^ 32 ≡ total (λ e. e.dropped_cnt) s.client % 2 ^ 32

total-set :
    (f : ErrCnt → ℕ) (l : List HgNetClient) (i : ℕ) (c d : HgNetClient)
    → get_elem? l i ≡ some c
    → total f (set l i d) + f c.diag.log ≡ total f l + f d.diag.log
unfolding total
total-set f [] i c d h = cc
total-set f (x ∷ xs) zero c d h = ground arith
total-set f (x ∷ xs) (suc i) c d h = omega (arith, total-set f xs i c d h)

module _ {W : Type 0} (addr : ℕ) where
  pub log_error-IsBalanced :
      (type : NodeS) (s : Bms W) {s' : Bms W}
      → log_error addr type s ≡ done tt s'
      → IsBalanced s
      → IsBalanced s'
  unfolding log_error count_client_error count_error
  log_error-IsBalanced type s h b = elim (Option-cases (get_elem? s.client (node_idx addr))) [
    | inl gone ↦ absurd (ground arith)
    | inr (c, e) ↦
        let d = count_client_error type c in
        ground (
          arith,
          total-set (λ x. x.pec_cnt) s.client (node_idx addr) c d e,
          total-set (λ x. x.timeout_cnt) s.client (node_idx addr) c d e,
          total-set (λ x. x.token_mis_cnt) s.client (node_idx addr) c d e,
          total-set (λ x. x.dropped_cnt) s.client (node_idx addr) c d e,
        )
  ]

  -- `mercury_netMgr_errorCountUpdate` keeps each error counter of the system equal, modulo 2^32, to
  -- the sum of the nodes' counters, whatever the error and the node.
  pub error_count_update-IsBalanced :
      (type : NodeS) (s : Bms W) {s' : Bms W}
      → error_count_update addr type s ≡ done tt s'
      → IsBalanced s
      → IsBalanced s'
  unfolding error_count_update
  error_count_update-IsBalanced token_mismatch s h b = log_error-IsBalanced token_mismatch s h b
  error_count_update-IsBalanced pec_failed s h b = log_error-IsBalanced pec_failed s h b
  error_count_update-IsBalanced timeout_err s h b = log_error-IsBalanced timeout_err s h b
  error_count_update-IsBalanced pkt_st_err s h b = log_error-IsBalanced pkt_st_err s h b
  error_count_update-IsBalanced _ s h b = ground arith
