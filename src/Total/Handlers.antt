-- ===== src/Total/Handlers.antt =====
-- The handlers of the messages from nodes in the tables, and of their expired timers, end.
use wbms.Prelude.{
  ℕ, ◌+◌, ◌-◌, ◌%◌, ◌^◌, ◌<◌, ◌≤◌, ◌≡◌, refl, ◌∙◌, true, false, Bool, List, [], ◌∷◌, ◌++◌, length,
  length-snoc, Bool-cases, inl, inr, leb, ◌==◌, if◌then◌else◌, arith, ap,
}
use wbms.Types.{rejected, timeout_err, batt_info_lost, no_issues, FifoData, eq_sys}
use wbms.Kernel.{Kernel}
use wbms.Bms.{Bms, pure}
use wbms.Mesh.Info.{update_rejected_msg_info}
use wbms.Mesh.Handlers.{
  put_copy, after_ok, accept_ok, ok_handler, accept_data, check_data, data_handler,
}
use wbms.Mesh.Expiry.{data_lost, data_expiry, recover_lost, ok_lost, ok_expiry}
use wbms.Total.Ready
use wbms.Total.Ready.{
  Ends, ends, Views, IsReliable, InNode, IsFormed, AllFrom-snoc, IsReady, same_shape, in_world,
  more_room, with_fifos, Stays,
}
use wbms.Total.Steps.{
  update_node_state-Ends, update_system_state-Ends, transaction_update-Ends,
  error_count_update-Ends,
}
use wbms.Total.Calls.{stop_data_timer-Ends, stop_ok_timer-Ends}
use wbms.Total.Messages.{
  update_rejected_msg_info-Ends, update_recover_info-Ends, pull_u8-Ends, update_data_info-Ends,
  update_ok_info-Ends,
}
use wbms.Total.Loops.{
  flush_fifos-Ends, mesh_send_token-Ends, client_addr-Ends, recover_nodes-Ends, send_start-Ends,
}

-- An address of a node is one byte.
byte_of : (n a : ℕ) → n ≤ 16 → InNode n a → InNode n (a % 2 ^ 8)
byte_of n a few (low, high) = (omega arith, omega arith)

module _ {W : Type 0} ⦃k : Kernel W⦄ {v : Views W} {n : ℕ} {table : List ℕ} {p q : ℕ}
    (law : IsReliable k v) where
  put_addr-Ends :
      (d : FifoData) (s : Bms W)
      → InNode n d.addr
      → IsReady v n table p q s
      → Ends (λ _ s'. IsReady v n table (p + 1) q s') (put_copy k.addr_fifo d s)
  unfolding put_copy
  put_addr-Ends d s inside h =
      let w = (k.malloc s.world).1 in
      let (same, other, apart) = law.by_malloc s.world in
      let put : v.addrs (k.addr_fifo.put d w) ≡ v.addrs s.world ++ (d ∷ []) =
        law.addr_law.put_back w d ∙ ap (λ l. l ++ (d ∷ [])) same in
      let kept : v.datas (k.addr_fifo.put d w) ≡ v.datas s.world = (law.addr_put w d).0 ∙ other in
      let rest = (law.addr_put w d).1 ∙ apart in
      rw (law.memory s.world, put_copy)
        (ends (
          with_fifos h (p + 1) q (k.addr_fifo.put d w)
            (rw put (AllFrom-snoc (λ (d : FifoData). d.addr) d h.known_addrs inside))
            (rw kept h.known_datas) rest
            (rw put (omega (arith, length-snoc (v.addrs s.world) d, h.few_addrs)))
            (rw kept h.few_datas)))

  put_data-Ends :
      (d : FifoData) (s : Bms W)
      → InNode n d.addr
      → IsReady v n table p q s
      → Ends (λ _ s'. IsReady v n table p (q + 1) s') (put_copy k.data_addr_fifo d s)
  unfolding put_copy
  put_data-Ends d s inside h =
      let w = (k.malloc s.world).1 in
      let (other, same, apart) = law.by_malloc s.world in
      let put : v.datas (k.data_addr_fifo.put d w) ≡ v.datas s.world ++ (d ∷ []) =
        law.data_law.put_back w d ∙ ap (λ l. l ++ (d ∷ [])) same in
      let kept : v.addrs (k.data_addr_fifo.put d w) ≡ v.addrs s.world =
        (law.data_put w d).0 ∙ other in
      let rest = (law.data_put w d).1 ∙ apart in
      rw (law.memory s.world, put_copy)
        (ends (
          with_fifos h p (q + 1) (k.data_addr_fifo.put d w) (rw kept h.known_addrs)
            (rw put (AllFrom-snoc (λ (d : FifoData). d.addr) d h.known_datas inside)) rest
            (rw kept h.few_addrs)
            (rw put (omega (arith, length-snoc (v.datas s.world) d, h.few_datas)))))

module _ {W : Type 0} ⦃k : Kernel W⦄ {v : Views W} {n : ℕ} {table : List ℕ} {p q : ℕ}
    (law : IsReliable k v) (net : IsFormed n table) where
  after_ok-Ends : (fuel : ℕ) → q < fuel → Stays {W = W} v n table p q (after_ok fuel)
  unfolding after_ok
  after_ok-Ends fuel more s h = elim (Bool-cases (s.addr_cnt == s.hm.active)) [
    | inl all ↦
        rw (all, after_ok)
          (Ready.bind (update_system_state-Ends net no_issues s h) λ _ s h.
            Ready.bind (mesh_send_token-Ends law net fuel p q more s h)
              λ _ s h. ends (same_shape h _ refl refl refl refl refl refl (refl, refl, refl)))
    | inr some_left ↦ rw (some_left, after_ok) (ends h)
  ]

module _ {W : Type 0} ⦃k : Kernel W⦄ {v : Views W} {n : ℕ} {table : List ℕ} {p q : ℕ}
    (law : IsReliable k v) (net : IsFormed n table) where
  accept_ok-Ends :
      (fuel : ℕ) (d : FifoData) (s : Bms W)
      → q < fuel
      → InNode n d.addr
      → IsReady v n table p q s
      → Ends (λ _ s'. IsReady v n table (p + 1) q s') (accept_ok fuel d s)
  unfolding accept_ok
  accept_ok-Ends fuel d s more inside h =
      Ready.bind (stop_ok_timer-Ends law net d.addr inside s h) λ _ s h.
        Ready.bind (put_addr-Ends law d s inside h) λ _ s h.
          after_ok-Ends law net fuel more _
            (same_shape h _ refl refl refl refl refl refl (refl, refl, refl))

  pub ok_handler-Ends :
      (fuel a : ℕ) (buf : List ℕ) (s : Bms W)
      → q < fuel
      → InNode n (a % 2 ^ 8)
      → 2 ≤ length buf
      → IsReady v n table p q s
      → Ends (λ _ s'. IsReady v n table (p + 1) q s') (ok_handler fuel a buf s)
  unfolding ok_handler
  ok_handler-Ends fuel a buf s more inside long h =
      Ready.bind (pull_u8-Ends law buf 1 s long h) λ (_, buf) s (long, h).
        Ready.bind (update_ok_info-Ends law net buf (a % 2 ^ 8) long inside s h)
          λ err s h. answer (a % 2 ^ 8 == 224) err s.addr_cnt s h
    where
      answer :
          (own err : Bool) (c : ℕ) (s : Bms W)
          → IsReady v n table p q s
          → Ends
              (λ _ s'. IsReady v n table (p + 1) q s')
              ((if own
                  then pure tt
                  else if err
                  then update_rejected_msg_info (a % 2 ^ 8)
                  else accept_ok fuel (record { addr = a % 2 ^ 8; cnt = c }))
                s)
      answer true err c s h = ends (more_room h (p + 1) q (omega arith) (omega arith))
      answer false true c s h =
          Ready.relax (update_rejected_msg_info-Ends net (a % 2 ^ 8) inside s h)
            λ _ s h. more_room h (p + 1) q (omega arith) (omega arith)
      answer false false c s h = accept_ok-Ends fuel _ s more inside h

  accept_data-Ends :
      (fuel : ℕ) (d : FifoData) (s : Bms W)
      → q + 1 < fuel
      → InNode n d.addr
      → IsReady v n table p q s
      → Ends (λ _ s'. IsReady v n table p (q + 1) s') (accept_data fuel d s)
  unfolding accept_data
  accept_data-Ends fuel d s more inside h =
      Ready.bind (stop_data_timer-Ends law net d.addr inside s h) λ _ s h.
        Ready.bind
          (put_data-Ends law d _ inside
            (same_shape h _ refl refl refl refl refl refl (refl, refl, refl)))
          λ _. mesh_send_token-Ends law net fuel p (q + 1) more

  check_data-Ends :
      (fuel a : ℕ) (buf : List ℕ) (s : Bms W)
      → q + 1 < fuel
      → InNode n a
      → 22 ≤ length buf
      → IsReady v n table p q s
      → Ends (λ _ s'. IsReady v n table p (q + 1) s') (check_data fuel a buf s)
  unfolding check_data
  check_data-Ends fuel a buf s more inside long h =
      Ready.bind (update_data_info-Ends law net buf a long inside s h) (elim [
        | true ↦ λ s h.
            Ready.relax (update_rejected_msg_info-Ends net a inside s h)
              λ _ s h. more_room h p (q + 1) (omega arith) (omega arith)
        | false ↦ λ s h. accept_data-Ends fuel _ s more inside h
      ])

  pub data_handler-Ends :
      (fuel a : ℕ) (buf : List ℕ) (s : Bms W)
      → q + 1 < fuel
      → InNode n (a % 2 ^ 8)
      → 22 ≤ length buf
      → IsReady v n table p q s
      → Ends (λ _ s'. IsReady v n table p (q + 1) s') (data_handler fuel a buf s)
  unfolding data_handler
  data_handler-Ends fuel a buf s more inside long h =
      elim (Bool-cases (eq_sys s.hm.curr_sys batt_info_lost)) [
        | inl gone ↦
            rw (gone, data_handler)
              (Ready.relax (update_rejected_msg_info-Ends net (a % 2 ^ 8) inside s h)
                λ _ s h. more_room h p (q + 1) (omega arith) (omega arith))
        | inr fine ↦
            rw (fine, data_handler) (check_data-Ends fuel (a % 2 ^ 8) buf s more inside long h)
      ]

  data_lost-Ends :
      (fuel a : ℕ)
      → p < fuel
      → q < fuel
      → InNode n a
      → Stays {W = W} v n table p q (data_lost fuel a)
  unfolding data_lost
  data_lost-Ends fuel a few_addrs few_datas inside s h =
      Ready.bind (update_node_state-Ends net a timeout_err inside s h) λ _ s h.
        Ready.bind (transaction_update-Ends net a rejected inside s h) λ _ s h.
          Ready.bind (update_system_state-Ends net batt_info_lost s h) λ _ s h.
            Ready.bind (update_recover_info-Ends net a inside s h) λ _ s h.
              Ready.bind (error_count_update-Ends net a timeout_err inside s h) λ _ s h.
                Ready.bind (flush_fifos-Ends law fuel p q few_addrs few_datas s h)
                  λ _. send_start-Ends law net

  recover_lost-Ends : (a : ℕ) → InNode n a → Stays {W = W} v n table p q (recover_lost a)
  unfolding recover_lost
  recover_lost-Ends a (low, high) s h =
      let over : leb 16 a ≡ true = ground arith in
      rw (over, recover_lost) (recover_nodes-Ends law net (a - 16) (omega arith) s h)

  ok_lost-Ends : (a : ℕ) → InNode n a → Stays {W = W} v n table p q (ok_lost a)
  unfolding ok_lost
  ok_lost-Ends a inside s h =
      Ready.bind (update_node_state-Ends net a timeout_err inside s h) λ _ s h.
        Ready.bind (transaction_update-Ends net a rejected inside s h) λ _ s h.
          Ready.bind (recover_lost-Ends a inside s h) λ _ s h.
            Ready.bind (error_count_update-Ends net a timeout_err inside s h)
              λ _. update_recover_info-Ends net a inside

  pub data_expiry-Ends :
      (fuel i : ℕ) → p < fuel → q < fuel → i < n → Stays {W = W} v n table p q (data_expiry fuel i)
  unfolding data_expiry
  data_expiry-Ends fuel i few_addrs few_datas below s h =
      Ready.bind (client_addr-Ends net i s (omega (arith, net.few)) h) λ a s (e, h).
        data_lost-Ends fuel (a % 2 ^ 8) few_addrs few_datas
          (byte_of n a net.few (net.joined i a below e)) s h

  pub ok_expiry-Ends : (i : ℕ) → i < n → Stays {W = W} v n table p q (ok_expiry i)
  unfolding ok_expiry
  ok_expiry-Ends i below s h =
      Ready.bind (client_addr-Ends net i s (omega (arith, net.few)) h)
        λ a s (e, h). ok_lost-Ends (a % 2 ^ 8) (byte_of n a net.few (net.joined i a below e)) s h
