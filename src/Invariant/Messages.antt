-- ===== src/Invariant/Messages.antt =====
-- The mesh layer of the master keeps the invariant: every message sent or received, and every timer
-- that expires.
use wbms.Prelude.{
  ℕ, zero, suc, ◌+◌, ◌-◌, ◌||◌, refl, true, false, Bool, none, some, Option, List, get_elem?,
  Option-cases, Bool-cases, inl, inr, leb, if◌then◌else◌,
}
use wbms.Types.{
  rx_ok, tx_token, tx_ack, rx_data, tx_recover, pkt_st_err, no_issues, batt_info_lost, paired,
  Message, FifoData, eq_node, eq_sys,
}
use wbms.Kernel.{Kernel, Fifo}
use wbms.Bms.{Cmd, need, pure}
use wbms.Bms.Post
use wbms.Bms.Post.{Post, at_done, at_halt, at_fault, at_no_fuel, Keeps}
use wbms.NetMgr.States.{node_idx}
use wbms.NetMgr.Counters.{count_packet}
use wbms.Mesh.Info.{
  update_rejected_msg_info, update_recover_info, write_last_ok, update_ack_info, pull_cells,
  take_data, update_data_info, take_ok, update_ok_info, update_token_info,
}
use wbms.Mesh.Send.{
  transmit, send_address, cli_send_token, cli_send_ack, cli_send_recover, cli_allow_start, drain,
  acknowledge, mesh_send_token, flush_fifos,
}
use wbms.Mesh.Nodes.{client_addr, recover_nodes, start_entry, start_rounds, send_start}
use wbms.Invariant.Consistent.{IsConsistent, same_tables, with_world, with_client}
use wbms.Invariant.Steps.{
  states_update-Keeps, update_system_state-Keeps, packet_count_update-Keeps, start_counts-Keeps,
  error_count_update-Keeps,
}
use wbms.Invariant.Calls.{
  log_write_time-Keeps, push_qtx-Keeps, push_qrx-Keeps, start_data_timer-Keeps,
  start_ok_timer-Keeps,
}

module _ {W : Type 0} {n : ℕ} where
  pub update_rejected_msg_info-Keeps :
      (a : ℕ) → Keeps {W = W} (IsConsistent n) (update_rejected_msg_info a)
  unfolding update_rejected_msg_info
  update_rejected_msg_info-Keeps a = error_count_update-Keeps a pkt_st_err

  pub update_recover_info-Keeps : (a : ℕ) → Keeps {W = W} (IsConsistent n) (update_recover_info a)
  unfolding update_recover_info count_packet
  update_recover_info-Keeps a s h =
      Post.bind (states_update-Keeps a tx_recover s h)
        λ _. packet_count_update-Keeps a tx_recover (λ c. refl)

  write_last_ok-Keeps : (a t : ℕ) → Keeps {W = W} (IsConsistent n) (write_last_ok a t)
  unfolding write_last_ok
  write_last_ok-Keeps a t s h = elim (Bool-cases (leb 16 a)) [
    | inr low ↦ rw (low, write_last_ok) at_fault
    | inl high ↦ elim (Option-cases (get_elem? s.client (a - 16))) [
      | inl gone ↦ rw (high, write_last_ok) (rw gone at_fault)
      | inr (c, e) ↦ rw (high, write_last_ok) (rw e (at_done (with_client h (a - 16) c _ e refl)))
    ]
  ]

  pub need-Keeps : {A : Type 0} (o : Option A) → Keeps {W = W} (IsConsistent n) (need o)
  need-Keeps none s h = at_fault
  need-Keeps (some a) s h = at_done h

module _ {W : Type 0} ⦃k : Kernel W⦄ {n : ℕ} where
  update_ack_info-Keeps : (a : ℕ) → Keeps {W = W} (IsConsistent n) (update_ack_info a)
  unfolding update_ack_info count_packet
  update_ack_info-Keeps a s h = Post.bind (states_update-Keeps a tx_ack s h) λ _ s h.
      Post.bind (log_write_time-Keeps a tx_ack s h) λ _ s h.
        Post.bind (packet_count_update-Keeps a tx_ack (λ c. refl) s h)
          λ _. update_system_state-Keeps no_issues

  pull_cells-Keeps : (i : ℕ) (buf : List ℕ) → Keeps {W = W} (IsConsistent n) (pull_cells i buf)
  unfolding pull_cells
  pull_cells-Keeps zero buf s h = at_done h
  pull_cells-Keeps (suc i) buf s h =
      Post.bind (need-Keeps (k.pull_u8 buf) s h)
        λ (_, buf) s h. Post.bind (pull_cells-Keeps i buf s h) λ _ s h. at_done h

  take_data-Keeps : (buf : List ℕ) (a : ℕ) → Keeps {W = W} (IsConsistent n) (take_data buf a)
  unfolding take_data count_packet
  take_data-Keeps buf a s h = Post.bind (log_write_time-Keeps a rx_data s h) λ _ s h.
      Post.bind (pull_cells-Keeps 16 buf _ (with_world h _)) λ (_, buf) s h.
        Post.bind (need-Keeps (k.pull_le32 buf) s h) λ (_, buf) s h.
          Post.bind (need-Keeps (k.pull_le16 buf) s h) λ (_, buf) s h.
            Post.bind (push_qrx-Keeps _ s h) λ _ s h.
              packet_count_update-Keeps a rx_data (λ c. refl) _
                (same_tables h _ refl refl refl refl refl refl)

  pub update_data_info-Keeps :
      (buf : List ℕ) (a : ℕ) → Keeps {W = W} (IsConsistent n) (update_data_info buf a)
  unfolding update_data_info
  update_data_info-Keeps buf a s h = Post.bind (states_update-Keeps a rx_data s h) (elim [
    | true ↦ λ s h. at_done h
    | false ↦ λ s h. Post.bind (take_data-Keeps buf a s h) λ _ s h. at_done h
  ])

  take_ok-Keeps : (buf : List ℕ) (a : ℕ) → Keeps {W = W} (IsConsistent n) (take_ok buf a)
  unfolding take_ok
  take_ok-Keeps buf a s h = Post.bind (log_write_time-Keeps a rx_ok s h) λ _ s h.
      Post.bind (need-Keeps (k.pull_u8 buf) s h)
        λ _ s h. start_counts-Keeps a _ (same_tables h _ refl refl refl refl refl refl)

  pub update_ok_info-Keeps :
      (buf : List ℕ) (a : ℕ) → Keeps {W = W} (IsConsistent n) (update_ok_info buf a)
  unfolding update_ok_info
  update_ok_info-Keeps buf a s h = Post.bind (states_update-Keeps a rx_ok s h) λ err s h.
      Post.bind (write_last_ok-Keeps a _ _ (with_world h _))
        λ _ s h. Post.bind (answer err s h) λ _ s h. at_done h
    where
      answer :
          (err : Bool) → Keeps {W = W} (IsConsistent n) (if err then pure tt else take_ok buf a)
      answer true s h = at_done h
      answer false s h = take_ok-Keeps buf a s h

  update_token_info-Keeps : (t a : ℕ) → Keeps {W = W} (IsConsistent n) (update_token_info t a)
  unfolding update_token_info count_packet
  update_token_info-Keeps t a s h =
      Post.bind (log_write_time-Keeps a tx_token _ (with_world h _)) λ _ s h.
        Post.bind (states_update-Keeps a tx_token s h) λ _ s h.
          Post.bind (push_qtx-Keeps _ s h) λ _. packet_count_update-Keeps a tx_token (λ c. refl)

  transmit-Keeps :
      (m : Message) (sent : Cmd W (Unit {0}))
      → Keeps {W = W} (IsConsistent n) sent
      → Keeps {W = W} (IsConsistent n) (transmit m sent)
  unfolding transmit
  transmit-Keeps m sent next s h = elim (Bool-cases (k.mesh_send m s.world).0) [
    | inl failed ↦ rw (failed, transmit) (at_halt (with_world h _))
    | inr taken ↦ rw (taken, transmit) (next _ (with_world h _))
  ]

  pub send_address-Keeps : (a t : ℕ) → Keeps {W = W} (IsConsistent n) (send_address a t)
  unfolding send_address
  send_address-Keeps a t = transmit-Keeps _ _ λ s h. at_done h

  pub cli_send_token-Keeps : (a : ℕ) → Keeps {W = W} (IsConsistent n) (cli_send_token a)
  unfolding cli_send_token
  cli_send_token-Keeps a s h =
      transmit-Keeps _ _
        (λ s h.
          Post.bind (update_token_info-Keeps _ a s h) λ _. start_data_timer-Keeps (node_idx a))
        _ (with_world h _)

  pub cli_send_ack-Keeps : (a : ℕ) → Keeps {W = W} (IsConsistent n) (cli_send_ack a)
  unfolding cli_send_ack
  cli_send_ack-Keeps a =
      transmit-Keeps _ _
        λ s h. Post.bind (update_ack_info-Keeps a s h) λ _. start_ok_timer-Keeps (node_idx a)

  pub cli_send_recover-Keeps : (a : ℕ) → Keeps {W = W} (IsConsistent n) (cli_send_recover a)
  unfolding cli_send_recover
  cli_send_recover-Keeps a = transmit-Keeps _ _ (update_recover_info-Keeps a)

  cli_allow_start-Keeps : (a : ℕ) → Keeps {W = W} (IsConsistent n) (cli_allow_start a)
  unfolding cli_allow_start
  cli_allow_start-Keeps a s h =
      transmit-Keeps _ _ (λ s h. at_done h) _ (same_tables h _ refl refl refl refl refl refl)

  drain-Keeps :
      (q : Fifo W FifoData) (use_of : Option FifoData → Cmd W (Unit {0})) (fuel : ℕ)
      → ((o : Option FifoData) → Keeps {W = W} (IsConsistent n) (use_of o))
      → Keeps {W = W} (IsConsistent n) (drain q use_of fuel)
  unfolding drain
  drain-Keeps q use_of zero keep s h = at_no_fuel
  drain-Keeps q use_of (suc f) keep s h = elim (Bool-cases (q.is_empty s.world)) [
    | inl over ↦ rw (over, drain) (at_done h)
    | inr more ↦
        rw (more, drain)
          (Post.bind
            (Post.bind (keep (q.get s.world).0 _ (with_world h _))
              λ _ s h. at_done (with_world h _))
            λ _. drain-Keeps q use_of f keep)
  ]

  acknowledge-Keeps : (o : Option FifoData) → Keeps {W = W} (IsConsistent n) (acknowledge o)
  unfolding acknowledge
  acknowledge-Keeps o s h = Post.bind (need-Keeps o s h) λ d. cli_send_ack-Keeps d.addr

  pub mesh_send_token-Keeps : (fuel : ℕ) → Keeps {W = W} (IsConsistent n) (mesh_send_token fuel)
  unfolding mesh_send_token
  mesh_send_token-Keeps fuel s h = elim (Bool-cases (k.addr_fifo.is_empty s.world)) [
    | inl over ↦
        rw (over, mesh_send_token)
          (drain-Keeps k.data_addr_fifo acknowledge fuel acknowledge-Keeps s h)
    | inr more ↦
        rw (more, mesh_send_token)
          (Post.bind (need-Keeps (k.addr_fifo.get s.world).0 _ (with_world h _))
            λ d s h. Post.bind (cli_send_token-Keeps d.addr s h) λ _ s h. at_done (with_world h _))
  ]

  pub flush_fifos-Keeps : (fuel : ℕ) → Keeps {W = W} (IsConsistent n) (flush_fifos fuel)
  unfolding flush_fifos
  flush_fifos-Keeps fuel s h =
      Post.bind (drain-Keeps k.addr_fifo (λ _. pure tt) fuel (λ _ s h. at_done h) s h)
        λ _. drain-Keeps k.data_addr_fifo (λ _. pure tt) fuel (λ _ s h. at_done h)

  pub client_addr-Keeps : (i : ℕ) → Keeps {W = W} (IsConsistent n) (client_addr i)
  unfolding client_addr
  client_addr-Keeps i s h = elim (Option-cases (get_elem? s.client i)) [
    | inl gone ↦ rw (gone, client_addr) at_fault
    | inr (c, e) ↦ rw (e, client_addr) (at_done h)
  ]

  pub recover_nodes-Keeps : (i : ℕ) → Keeps {W = W} (IsConsistent n) (recover_nodes i)
  unfolding recover_nodes
  recover_nodes-Keeps i s h = Post.bind (client_addr-Keeps i s h) cli_send_recover-Keeps

  start_entry-Keeps : (i : ℕ) → Keeps {W = W} (IsConsistent n) (start_entry i)
  unfolding start_entry
  start_entry-Keeps i s h = elim (Option-cases (get_elem? s.system_state_log i)) [
    | inl gone ↦ rw (gone, start_entry) at_fault
    | inr (st, e) ↦
        rw (e, start_entry)
          (elim (Bool-cases (eq_node st.curr_node paired || eq_sys s.hm.curr_sys batt_info_lost)) [
            | inl go ↦ rw go (Post.bind (client_addr-Keeps i s h) cli_allow_start-Keeps)
            | inr wrong ↦ rw wrong (at_done h)
          ])
  ]

  pub send_start-Keeps : Keeps {W = W} (IsConsistent n) send_start
  unfolding send_start
  send_start-Keeps s = rounds s.hm.active 0 s
    where
      rounds : (r i : ℕ) → Keeps {W = W} (IsConsistent n) (start_rounds r i)
      rounds zero i s h = at_done h
      rounds (suc r) i s h = Post.bind (start_entry-Keeps i s h) λ _. rounds r (i + 1)
