-- ===== src/Total/Diagnose.antt =====
-- A round of the diagnostic thread ends.
use wbms.Prelude.{
  ℕ, zero, suc, ◌&&◌, ◌≡◌, refl, true, false, Bool, List, length-set, Bool-cases, Option-cases,
  List-cases, ◌==◌, inl, inr, if◌then◌else◌, arith,
}
use wbms.Types.{NodeS, token_mismatch, pec_failed, rejected, ended, RxCvPkt}
use wbms.Kernel.{Kernel}
use wbms.Bms.{pure}
use wbms.NetMgr.States.{node_idx}
use wbms.NetMgr.Counters.{transaction_update}
use wbms.NetMgr.Queues.{search_rounds, search_tx, fetch_rx}
use wbms.Diag.{write_node, write_last_updated, refuse, crc16_check, verify_rx_data, diag_round}
use wbms.Total.Ready
use wbms.Total.Ready.{
  Ends, ends, Views, Untouched, IsReliable, InNode, IsFormed, IsReady, same_shape, in_world,
  with_received, Stays, node_idx-lt, entry_of,
}
use wbms.Total.Steps.{transaction_update-Ends, error_count_update-Ends, client_at, client_changed}
use wbms.Total.Calls.{same_then}
use wbms.Total.Received.{get_rx-Heard}

module _ {W : Type 0} {v : Views W} {n : ℕ} {table : List ℕ} {p q : ℕ}
    (net : IsFormed n table) where
  write_node-Ends : (a : ℕ) (x : NodeS) → InNode n a → Stays {W = W} v n table p q (write_node a x)
  unfolding write_node
  write_node-Ends a x inside s h =
      let (st, e) = entry_of s.system_state_log a net.few h.nodes inside in
      rw (e, write_node)
        (ends (
          same_shape h _ refl (length-set s.system_state_log (node_idx a) _) refl refl refl refl
            (refl, refl, refl)))

  write_last_updated-Ends :
      (a t : ℕ) → InNode n a → Stays {W = W} v n table p q (write_last_updated a t)
  unfolding write_last_updated
  write_last_updated-Ends a t inside s h =
      let (c, e) =
        client_at net (node_idx a) h (omega (arith, node_idx-lt n a net.few inside, net.few)) in
      rw (e, write_last_updated) (ends (client_changed net (node_idx a) c _ s.hm.log e refl h))

  refuse-Ends : (a : ℕ) (x : NodeS) → InNode n a → Stays {W = W} v n table p q (refuse a x)
  unfolding refuse
  refuse-Ends a x inside s h =
      Ready.bind (transaction_update-Ends net a rejected inside s h) λ _ s h.
        Ready.bind (write_node-Ends a x inside s h) λ _. error_count_update-Ends net a x inside

module _ {W : Type 0} ⦃k : Kernel W⦄ {v : Views W} (law : IsReliable k v) where
  -- The search of a token reads the queue of sent tokens alone.
  search_rounds-Untouched :
      (r : ℕ) (m : RxCvPkt) (w : W) → Untouched v (search_rounds k.tx_msgq r m w).1 w
  unfolding search_rounds
  search_rounds-Untouched zero m w = (refl, refl, refl)
  search_rounds-Untouched (suc r) m w =
      let w' = (k.tx_msgq.get w).1 in
      let rest = same_then v (law.by_tx_get w) (search_rounds-Untouched r m w') in
      elim (Option-cases (k.tx_msgq.get w).0) [
        | inl gone ↦ rw (gone, search_rounds) rest
        | inr (t, e) ↦ elim (Bool-cases (t.token == m.token && t.addr == m.addr)) [
          | inl found ↦ rw (e, search_rounds) (rw found (law.by_tx_get w))
          | inr other ↦ rw (e, search_rounds) (rw other rest)
        ]
      ]

module _ {W : Type 0} ⦃k : Kernel W⦄ {v : Views W} {n : ℕ} {table : List ℕ} {p q : ℕ}
    (law : IsReliable k v) (net : IsFormed n table) where
  verify_rx_data-Ends :
      (m : RxCvPkt) → InNode n m.addr → Stays {W = W} v n table p q (verify_rx_data m)
  unfolding verify_rx_data search_tx
  verify_rx_data-Ends m inside s h =
      Ready.bind
        (searched (search_rounds k.tx_msgq (k.tx_msgq.num_used s.world) m s.world).0 _
          (in_world h _ (search_rounds-Untouched law (k.tx_msgq.num_used s.world) m s.world)))
        λ _ s h. Ready.bind (checked (crc16_check k.crc16_ansi m) s h) λ _ s h.
          write_last_updated-Ends net m.addr _ inside _ (in_world h _ (law.by_uptime s.world))
    where
      searched :
          (found : Bool)
          → Stays {W = W} v n table p q (if found then pure tt else refuse m.addr token_mismatch)
      searched true s h = ends h
      searched false s h = refuse-Ends net m.addr token_mismatch inside s h

      checked :
          (right : Bool)
          → Stays {W = W} v n table p q
              (if right then transaction_update m.addr ended else refuse m.addr pec_failed)
      checked true s h = transaction_update-Ends net m.addr ended inside s h
      checked false s h = refuse-Ends net m.addr pec_failed inside s h

  pub diag_round-Ends : Stays {W = W} v n table p q diag_round
  unfolding diag_round fetch_rx
  diag_round-Ends s h =
      let apart = law.by_rx_get s.world in
      elim (List-cases (v.received s.world)) [
        | inl e ↦
            let (gone, left) = law.rx_law.get_nil s.world e in
            let same : v.received (k.rx_msgq.get s.world).1 ≡ v.received s.world = rw e left in
            rw gone (ends (in_world h _ (apart.0, apart.1, same)))
        | inr (m, ms, e) ↦
            let (inside, rest) = get_rx-Heard law m ms s.world e h.known_received in
            rw (law.rx_law.get_cons s.world m ms e).0
              (verify_rx_data-Ends m inside _ (with_received h _ apart rest))
      ]
