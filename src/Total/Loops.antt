-- ===== src/Total/Loops.antt =====
-- The loops over the FIFOs and over the nodes end.
use wbms.Prelude.{
  ℕ, zero, suc, ◌+◌, ◌-◌, ◌||◌, ◌<◌, ◌≤◌, ◌≡◌, sym, ap, ◌∙◌, Option, some, List, ◌∷◌, length,
  get_elem?, get_elem?-some, Bool-cases, inl, inr, List-cases, arith, subst,
}
use wbms.Types.{FifoData, HgNetClient, paired, batt_info_lost, eq_node, eq_sys}
use wbms.Kernel.{Kernel}
use wbms.Bms.{Bms, Cmd, pure}
use wbms.Mesh.Send.{drain, acknowledge, mesh_send_token, flush_fifos}
use wbms.Mesh.Nodes.{client_addr, recover_nodes, start_entry, start_rounds, send_start}
use wbms.Invariant.Consistent.{get_elem?-map}
use wbms.Total.Ready
use wbms.Total.Ready.{
  Ends, ends, Views, IsReliable, InNode, IsFormed, Known, head_tail, IsReady, in_world, more_room,
  with_fifos, Stays,
}
use wbms.Total.Steps.{client_at}
use wbms.Total.Messages.{
  cli_send_token-Ends, cli_send_ack-Ends, cli_send_recover-Ends, cli_allow_start-Ends,
}

module _ {W : Type 0} ⦃k : Kernel W⦄ {v : Views W} {n : ℕ} {table : List ℕ}
    (law : IsReliable k v) where
  -- The first entry of a FIFO is taken off.
  data_taken :
      {p q : ℕ} (d : FifoData) (ds : List FifoData) (s : Bms W)
      → v.datas s.world ≡ d ∷ ds
      → IsReady v n table p q s
      → InNode n d.addr
        × (1 ≤ q)
        × IsReady v n table p (q - 1) (record s { world = (k.data_addr_fifo.get s.world).1 })
  data_taken {p} {q} d ds s e h =
      let (inside, rest) =
        head_tail (λ (d : FifoData). d.addr) (subst (λ l. Known n l) e h.known_datas) in
      let left = (law.data_law.get_cons s.world d ds e).1 in
      let size : suc (length ds) ≤ q = rw e at h.few_datas in
      let (same, apart) = law.data_get s.world in
      (
        inside,
        omega (arith, size),
        with_fifos h p (q - 1) (k.data_addr_fifo.get s.world).1 (rw same h.known_addrs)
            (rw left rest) apart (rw same h.few_addrs) (rw left (omega (arith, size))),
      )

  addr_taken :
      {p q : ℕ} (d : FifoData) (ds : List FifoData) (s : Bms W)
      → v.addrs s.world ≡ d ∷ ds
      → IsReady v n table p q s
      → InNode n d.addr
        × (1 ≤ p)
        × IsReady v n table (p - 1) q (record s { world = (k.addr_fifo.get s.world).1 })
  addr_taken {p} {q} d ds s e h =
      let (inside, rest) =
        head_tail (λ (d : FifoData). d.addr) (subst (λ l. Known n l) e h.known_addrs) in
      let left = (law.addr_law.get_cons s.world d ds e).1 in
      let size : suc (length ds) ≤ p = rw e at h.few_addrs in
      let (same, apart) = law.addr_get s.world in
      (
        inside,
        omega (arith, size),
        with_fifos h (p - 1) q (k.addr_fifo.get s.world).1 (rw left rest) (rw same h.known_datas)
            apart (rw left (omega (arith, size))) (rw same h.few_datas),
      )

  -- With more fuel than entries a loop over a FIFO ends, if its use of each entry does.
  drain_datas-Ends :
      (use_of : Option FifoData → Cmd W (Unit {0})) (fuel p q : ℕ)
      → ((r : ℕ) (d : FifoData) → InNode n d.addr → Stays {W = W} v n table p r (use_of (some d)))
      → q < fuel
      → Stays {W = W} v n table p q (drain k.data_addr_fifo use_of fuel)
  unfolding drain
  drain_datas-Ends use_of zero p q each more s h = absurd (omega arith)
  drain_datas-Ends use_of (suc fuel) p q each more s h = elim (List-cases (v.datas s.world)) [
    | inl e ↦ rw (law.data_law.empty_nil s.world e, drain) (ends h)
    | inr (d, ds, e) ↦
        let (inside, some_left, taken) = data_taken d ds s e h in
        rw (law.data_law.empty_cons s.world d ds e, drain)
          (rw (law.data_law.get_cons s.world d ds e).0 (
            Ready.relax
              (Ready.bind
                (Ready.bind (each (q - 1) d inside _ taken)
                  λ _ s h. ends (in_world h _ (law.by_release s.world)))
                λ _. drain_datas-Ends use_of fuel p (q - 1) each (omega arith))
              λ _ s h. more_room h p q (omega arith) (omega arith)))
  ]

  drain_addrs-Ends :
      (use_of : Option FifoData → Cmd W (Unit {0})) (fuel p q : ℕ)
      → ((r : ℕ) (d : FifoData) → InNode n d.addr → Stays {W = W} v n table r q (use_of (some d)))
      → p < fuel
      → Stays {W = W} v n table p q (drain k.addr_fifo use_of fuel)
  unfolding drain
  drain_addrs-Ends use_of zero p q each more s h = absurd (omega arith)
  drain_addrs-Ends use_of (suc fuel) p q each more s h = elim (List-cases (v.addrs s.world)) [
    | inl e ↦ rw (law.addr_law.empty_nil s.world e, drain) (ends h)
    | inr (d, ds, e) ↦
        let (inside, some_left, taken) = addr_taken d ds s e h in
        rw (law.addr_law.empty_cons s.world d ds e, drain)
          (rw (law.addr_law.get_cons s.world d ds e).0 (
            Ready.relax
              (Ready.bind
                (Ready.bind (each (p - 1) d inside _ taken)
                  λ _ s h. ends (in_world h _ (law.by_release s.world)))
                λ _. drain_addrs-Ends use_of fuel (p - 1) q each (omega arith))
              λ _ s h. more_room h p q (omega arith) (omega arith)))
  ]

  pub flush_fifos-Ends :
      (fuel p q : ℕ) → p < fuel → q < fuel → Stays {W = W} v n table p q (flush_fifos fuel)
  unfolding flush_fifos
  flush_fifos-Ends fuel p q a b s h =
      Ready.bind (drain_addrs-Ends (λ _. pure tt) fuel p q (λ r d inside s h. ends h) a s h)
        λ _. drain_datas-Ends (λ _. pure tt) fuel p q (λ r d inside s h. ends h) b

  module _ (net : IsFormed n table) where
    pub mesh_send_token-Ends :
        (fuel p q : ℕ) → q < fuel → Stays {W = W} v n table p q (mesh_send_token fuel)
    unfolding mesh_send_token acknowledge
    mesh_send_token-Ends fuel p q more s h = elim (List-cases (v.addrs s.world)) [
      | inl e ↦
          rw (law.addr_law.empty_nil s.world e, mesh_send_token)
            (drain_datas-Ends acknowledge fuel p q
              (λ r d inside. cli_send_ack-Ends law net d.addr inside) more s h)
      | inr (d, ds, e) ↦
          let (inside, some_left, taken) = addr_taken d ds s e h in
          rw (law.addr_law.empty_cons s.world d ds e, mesh_send_token)
            (rw (law.addr_law.get_cons s.world d ds e).0 (
              Ready.bind
                (cli_send_token-Ends law net d.addr inside _
                  (more_room taken p q (omega arith) (omega arith)))
                λ _ s h. ends (in_world h _ (law.by_release s.world))))
    ]

module _ {W : Type 0} {v : Views W} {n : ℕ} {table : List ℕ} {p q : ℕ}
    (net : IsFormed n table) where
  pub client_addr-Ends :
      (i : ℕ) (s : Bms W)
      → i < 16
      → IsReady v n table p q s
      → Ends (λ a s'. (get_elem? table i ≡ some a) × IsReady v n table p q s') (client_addr i s)
  unfolding client_addr
  client_addr-Ends i s below h =
      let (c, e) = client_at net i h below in
      rw (e, client_addr)
        (ends (
          ap (λ (l : List ℕ). get_elem? l i) (sym h.clients)
              ∙ get_elem?-map (λ (x : HgNetClient). x.addr) s.client i c e,
          h,
        ))

module _ {W : Type 0} ⦃k : Kernel W⦄ {v : Views W} {n : ℕ} {table : List ℕ} {p q : ℕ}
    (law : IsReliable k v) (net : IsFormed n table) where
  pub recover_nodes-Ends : (i : ℕ) → i < n → Stays {W = W} v n table p q (recover_nodes i)
  unfolding recover_nodes
  recover_nodes-Ends i below s h =
      Ready.bind (client_addr-Ends net i s (omega (arith, net.few)) h)
        λ a s (e, h). cli_send_recover-Ends law net a (net.joined i a below e) s h

  start_entry-Ends : (i : ℕ) → i < n → Stays {W = W} v n table p q (start_entry i)
  unfolding start_entry
  start_entry-Ends i below s h =
      let (st, e) = get_elem?-some s.system_state_log i (omega (arith, h.nodes)) in
      rw (e, start_entry)
        (elim (Bool-cases (eq_node st.curr_node paired || eq_sys s.hm.curr_sys batt_info_lost)) [
          | inl go ↦ rw go (
              Ready.bind (client_addr-Ends net i s (omega (arith, net.few)) h)
                λ a s (e, h). cli_allow_start-Ends law net a s h)
          | inr wrong ↦ rw wrong (ends h)
        ])

  pub send_start-Ends : Stays {W = W} v n table p q send_start
  unfolding send_start
  send_start-Ends s h = rounds s.hm.active 0 (omega (arith, h.active)) s h
    where
      rounds : (r i : ℕ) → i + r ≤ n → Stays {W = W} v n table p q (start_rounds r i)
      rounds zero i below s h = ends h
      rounds (suc r) i below s h =
          Ready.bind (start_entry-Ends i (omega arith) s h) λ _. rounds r (i + 1) (omega arith)
