-- ===== src/Total/Messages.antt =====
-- The functions of the mesh layer that the handlers call end, but for the loops over the FIFOs, which
-- stand in `Loops`.
use wbms.Prelude.{
  ℕ, zero, suc, ◌+◌, ◌-◌, ◌≤◌, ◌≡◌, refl, true, false, Bool, List, [], ◌∷◌, length, Bool-cases, inl,
  inr, if◌then◌else◌, leb, arith,
}
use wbms.Types.{
  rx_ok, tx_token, tx_ack, rx_data, tx_recover, pkt_st_err, no_issues, started, Message,
}
use wbms.Kernel.{Kernel}
use wbms.Bms.{Bms, Cmd, need, pure}
use wbms.Mesh.Info.{
  update_rejected_msg_info, update_recover_info, write_last_ok, update_ack_info, pull_cells,
  take_data, update_data_info, take_ok, update_ok_info, update_token_info,
}
use wbms.Mesh.Send.{transmit, cli_send_token, cli_send_ack, cli_send_recover, cli_allow_start}
use wbms.Total.Ready
use wbms.Total.Ready.{
  Ends, ends, stops, Views, Untouched, IsReliable, InNode, IsFormed, IsReady, same_shape, in_world,
  Stays,
}
use wbms.Total.Steps.{
  states_update-Ends, update_system_state-Ends, transaction_update-Ends, packet_count_update-Ends,
  client_at, client_changed, error_count_update-Ends,
}
use wbms.Total.Calls.{
  log_write_time-Ends, push_qtx-Ends, push_qrx-Ends, start_data_timer-Ends, start_ok_timer-Ends,
}

module _ {W : Type 0} {v : Views W} {n : ℕ} {table : List ℕ} {p q : ℕ}
    (net : IsFormed n table) where
  pub update_rejected_msg_info-Ends :
      (a : ℕ) → InNode n a → Stays {W = W} v n table p q (update_rejected_msg_info a)
  unfolding update_rejected_msg_info
  update_rejected_msg_info-Ends a = error_count_update-Ends net a pkt_st_err

  pub update_recover_info-Ends :
      (a : ℕ) → InNode n a → Stays {W = W} v n table p q (update_recover_info a)
  unfolding update_recover_info
  update_recover_info-Ends a inside s h =
      Ready.bind (states_update-Ends net a tx_recover inside s h)
        λ _. packet_count_update-Ends net a tx_recover inside

  write_last_ok-Ends : (a t : ℕ) → InNode n a → Stays {W = W} v n table p q (write_last_ok a t)
  unfolding write_last_ok
  write_last_ok-Ends a t (low, high) s h =
      let over : leb 16 a ≡ true = ground arith in
      let (c, e) = client_at net (a - 16) h (omega (arith, net.few)) in
      rw (over, write_last_ok) (rw e (ends (client_changed net (a - 16) c _ s.hm.log e refl h)))

module _ {W : Type 0} ⦃k : Kernel W⦄ {v : Views W} {n : ℕ} {table : List ℕ} {p q : ℕ}
    (law : IsReliable k v) where
  -- A buffer that has the bytes gives them, and has the rest.
  pub pull_u8-Ends :
      (buf : List ℕ) (r : ℕ) (s : Bms W)
      → suc r ≤ length buf
      → IsReady v n table p q s
      → Ends (λ x s'. (r ≤ length x.1) × IsReady v n table p q s') (need (k.pull_u8 buf) s)
  pull_u8-Ends [] r s long h = absurd (omega arith)
  pull_u8-Ends (x ∷ xs) r s long h = rw (law.u8 x xs) (ends (omega arith, h))

  pull_le16-Ends :
      (buf : List ℕ) (r : ℕ) (s : Bms W)
      → 2 + r ≤ length buf
      → IsReady v n table p q s
      → Ends (λ x s'. (r ≤ length x.1) × IsReady v n table p q s') (need (k.pull_le16 buf) s)
  pull_le16-Ends [] r s long h = absurd (omega arith)
  pull_le16-Ends (x ∷ []) r s long h = absurd (omega arith)
  pull_le16-Ends (x ∷ y ∷ xs) r s long h = rw (law.u16 x y xs) (ends (omega arith, h))

  pull_le32-Ends :
      (buf : List ℕ) (r : ℕ) (s : Bms W)
      → 4 + r ≤ length buf
      → IsReady v n table p q s
      → Ends (λ x s'. (r ≤ length x.1) × IsReady v n table p q s') (need (k.pull_le32 buf) s)
  pull_le32-Ends [] r s long h = absurd (omega arith)
  pull_le32-Ends (x ∷ []) r s long h = absurd (omega arith)
  pull_le32-Ends (x ∷ y ∷ []) r s long h = absurd (omega arith)
  pull_le32-Ends (x ∷ y ∷ z ∷ []) r s long h = absurd (omega arith)
  pull_le32-Ends (x ∷ y ∷ z ∷ u ∷ xs) r s long h = rw (law.u32 x y z u xs) (ends (omega arith, h))

  pull_cells-Ends :
      (i : ℕ) (buf : List ℕ) (r : ℕ) (s : Bms W)
      → i + r ≤ length buf
      → IsReady v n table p q s
      → Ends (λ x s'. (r ≤ length x.1) × IsReady v n table p q s') (pull_cells i buf s)
  unfolding pull_cells
  pull_cells-Ends zero buf r s long h = ends (omega arith, h)
  pull_cells-Ends (suc i) buf r s long h =
      Ready.bind (pull_u8-Ends buf (i + r) s (omega arith) h)
        λ (_, buf) s (long, h). Ready.bind (pull_cells-Ends i buf r s long h) λ _ s both. ends both

module _ {W : Type 0} ⦃k : Kernel W⦄ {v : Views W} {n : ℕ} {table : List ℕ} {p q : ℕ}
    (law : IsReliable k v) (net : IsFormed n table) where
  update_ack_info-Ends : (a : ℕ) → InNode n a → Stays {W = W} v n table p q (update_ack_info a)
  unfolding update_ack_info
  update_ack_info-Ends a inside s h =
      Ready.bind (states_update-Ends net a tx_ack inside s h) λ _ s h.
        Ready.bind (log_write_time-Ends law net a tx_ack inside s h) λ _ s h.
          Ready.bind (packet_count_update-Ends net a tx_ack inside s h)
            λ _. update_system_state-Ends net no_issues

  take_data-Ends :
      (buf : List ℕ) (a : ℕ)
      → 22 ≤ length buf
      → InNode n a
      → Stays {W = W} v n table p q (take_data buf a)
  unfolding take_data
  take_data-Ends buf a long inside s h =
      Ready.bind (log_write_time-Ends law net a rx_data inside s h) λ _ s h.
        Ready.bind
          (pull_cells-Ends law 16 buf 6 _ (omega arith) (in_world h _ (law.by_uptime s.world)))
          λ (_, buf) s (long, h).
            Ready.bind (pull_le32-Ends law buf 2 s (omega arith) h) λ (_, buf) s (long, h).
              Ready.bind (pull_le16-Ends law buf 0 s (omega arith) h) λ _ s (_, h).
                Ready.bind (push_qrx-Ends law net _ inside s h) λ _ s h.
                  packet_count_update-Ends net a rx_data inside _
                    (same_shape h _ refl refl refl refl refl refl (refl, refl, refl))

  pub update_data_info-Ends :
      (buf : List ℕ) (a : ℕ)
      → 22 ≤ length buf
      → InNode n a
      → Stays {W = W} v n table p q (update_data_info buf a)
  unfolding update_data_info
  update_data_info-Ends buf a long inside s h =
      Ready.bind (states_update-Ends net a rx_data inside s h) (elim [
        | true ↦ λ s h. ends h
        | false ↦ λ s h. Ready.bind (take_data-Ends buf a long inside s h) λ _ s h. ends h
      ])

  take_ok-Ends :
      (buf : List ℕ) (a : ℕ)
      → 1 ≤ length buf
      → InNode n a
      → Stays {W = W} v n table p q (take_ok buf a)
  unfolding take_ok
  take_ok-Ends buf a long inside s h =
      Ready.bind (log_write_time-Ends law net a rx_ok inside s h) λ _ s h.
        Ready.bind (pull_u8-Ends law buf 0 s long h) λ _ s (_, h).
          Ready.bind
            (transaction_update-Ends net a started inside _
              (same_shape h _ refl refl refl refl refl refl (refl, refl, refl)))
            λ _. packet_count_update-Ends net a rx_ok inside

  pub update_ok_info-Ends :
      (buf : List ℕ) (a : ℕ)
      → 1 ≤ length buf
      → InNode n a
      → Stays {W = W} v n table p q (update_ok_info buf a)
  unfolding update_ok_info
  update_ok_info-Ends buf a long inside s h =
      Ready.bind (states_update-Ends net a rx_ok inside s h) λ err s h.
        Ready.bind (write_last_ok-Ends net a _ inside _ (in_world h _ (law.by_uptime s.world)))
          λ _ s h. Ready.bind (answer err s h) λ _ s h. ends h
    where
      answer : (err : Bool) → Stays {W = W} v n table p q (if err then pure tt else take_ok buf a)
      answer true s h = ends h
      answer false s h = take_ok-Ends buf a long inside s h

  update_token_info-Ends :
      (t a : ℕ) → InNode n a → Stays {W = W} v n table p q (update_token_info t a)
  unfolding update_token_info
  update_token_info-Ends t a inside s h =
      Ready.bind
        (log_write_time-Ends law net a tx_token inside _ (in_world h _ (law.by_uptime s.world)))
        λ _ s h. Ready.bind (states_update-Ends net a tx_token inside s h) λ _ s h.
          Ready.bind (push_qtx-Ends law net _ s h)
            λ _. packet_count_update-Ends net a tx_token inside

  transmit-Ends :
      (m : Message) (sent : Cmd W (Unit {0}))
      → Stays {W = W} v n table p q sent
      → Stays {W = W} v n table p q (transmit m sent)
  unfolding transmit
  transmit-Ends m sent next s h = elim (Bool-cases (k.mesh_send m s.world).0) [
    | inl failed ↦ rw (failed, transmit) stops
    | inr taken ↦ rw (taken, transmit) (next _ (in_world h _ (law.by_send m s.world)))
  ]

  pub cli_send_token-Ends : (a : ℕ) → InNode n a → Stays {W = W} v n table p q (cli_send_token a)
  unfolding cli_send_token
  cli_send_token-Ends a inside s h =
      transmit-Ends _ _
        (λ s h.
          Ready.bind (update_token_info-Ends _ a inside s h)
            λ _. start_data_timer-Ends law net a inside)
        _ (in_world h _ (law.by_uptime s.world))

  pub cli_send_ack-Ends : (a : ℕ) → InNode n a → Stays {W = W} v n table p q (cli_send_ack a)
  unfolding cli_send_ack
  cli_send_ack-Ends a inside = transmit-Ends _ _ λ s h.
      Ready.bind (update_ack_info-Ends a inside s h) λ _. start_ok_timer-Ends law net a inside

  pub cli_send_recover-Ends :
      (a : ℕ) → InNode n a → Stays {W = W} v n table p q (cli_send_recover a)
  unfolding cli_send_recover
  cli_send_recover-Ends a inside = transmit-Ends _ _ (update_recover_info-Ends net a inside)

  pub cli_allow_start-Ends : (a : ℕ) → Stays {W = W} v n table p q (cli_allow_start a)
  unfolding cli_allow_start
  cli_allow_start-Ends a s h =
      transmit-Ends _ _ (λ s h. ends h) _
        (same_shape h _ refl refl refl refl refl refl (refl, refl, refl))
