-- ===== src/Cycle/Tokens.antt =====
-- The commands that move the abstract machine: an accepted packet, and `mercury_mesh_sendToken`.
use wbms.Prelude.{
  ℕ, zero, suc, ◌≡◌, refl, sym, ap, ◌∙◌, some, false, List, [], ◌∷◌, map, get_elem?, set,
  Option-cases, inl, inr, arith,
}
use wbms.Types.{PktS, rx_ok, tx_token, tx_ack, rx_data, no_issues, BmsSt, FifoData, Message}
use wbms.Kernel.{Kernel}
use wbms.Bms.{Bms, Cmd}
use wbms.NetMgr.States.{node_idx, states_step, states_update, update_system_state}
use wbms.NetMgr.States.Protocol.{
  Follows, token, acknowledge, states_step-Follows, states_step_outcome,
}
use wbms.Invariant.Consistent.{get_elem?-map}
use wbms.Mesh.Info.{update_ack_info, update_token_info}
use wbms.Mesh.Send.{transmit, cli_send_token, cli_send_ack, drain, mesh_send_token}
use wbms.Mesh.Send as Send
use wbms.Total.Ready.{Views, IsReliable}
use wbms.Cycle
use wbms.Cycle.{
  Point, packet_of, addr_of, Last, put, after, Acks, acks_nil, acks_cons, Sends, sends_token,
  sends_acks, IsAt, Sees, sees_done, sees_fault, sees_no_fuel, Frame, Moves, same-IsAt, fifos-IsAt,
  world-IsAt,
}
use wbms.Cycle.Frames.{
  packet_count_update-Frame, log_write_time-Frame, push_qtx-Frame, start_data_timer-Frame,
  start_ok_timer-Frame,
}

map-set :
    {A B : Type 0} (f : A → B) (l : List A) (i : ℕ) (a : A)
    → map f (set l i a) ≡ set (map f l) i (f a)
map-set f [] i a = refl
map-set f (x ∷ xs) zero a = refl
map-set f (x ∷ xs) (suc i) a = ap (λ l. f x ∷ l) (map-set f xs i a)

module _ {W : Type 0} (v : Views W) where
  accepted :
      (p c : PktS) (st : BmsSt)
      → st.curr_pkt ≡ p
      → Follows p c
      → ((states_step c st).1 ≡ false) × ((states_step c st).0.curr_pkt ≡ c)
  accepted p c st e f =
      let right : (states_step c st).1 ≡ false = (states_step-Follows c st).1 (rw e f) in
      (right, ap (λ (st : BmsSt). st.curr_pkt) (states_step_outcome c st) ∙ rw right refl)

  -- A packet that follows the node's last one is accepted, and is its last one.
  pub states_update-Sees :
      (a : ℕ) (c p : PktS) (x : Point) (s : Bms W)
      → Last x.packets a p
      → Follows p c
      → IsAt v x s
      → Sees (λ err s'. (err ≡ false) × IsAt v (after x a c) s') (states_update a c s)
  unfolding states_update
  states_update-Sees a c p x s last f h =
      elim (Option-cases (get_elem? s.system_state_log (node_idx a))) [
        | inl gone ↦ rw (gone, states_update) sees_fault
        | inr (st, e) ↦
            let here : some st.curr_pkt ≡ some p =
              sym (get_elem?-map packet_of s.system_state_log (node_idx a) st e)
              ∙ ap (λ (l : List PktS). get_elem? l (node_idx a)) h.at_packets
              ∙ last in
            let same : st.curr_pkt ≡ p = ground (arith, here) in
            let (right, now) = accepted p c st same f in
            let moved : map packet_of (set s.system_state_log (node_idx a) (states_step c st).0)
                ≡ put x.packets a c =
              map-set packet_of s.system_state_log (node_idx a) (states_step c st).0
              ∙ ap (λ q. set (map packet_of s.system_state_log) (node_idx a) q) now
              ∙ ap (λ l. put l a c) h.at_packets in
            rw (e, states_update)
              (sees_done (
                right,
                record {
                  at_packets = moved;
                  at_waiting = h.at_waiting;
                  at_given = h.at_given;
                  at_counted = h.at_counted;
                  at_active = h.at_active;
                  at_sys = h.at_sys;
                },
              ))
      ]

  pub no_issues-Frame : Frame {W = W} v (update_system_state no_issues)
  unfolding update_system_state
  no_issues-Frame x s h = sees_done (record {
    at_packets = h.at_packets;
    at_waiting = h.at_waiting;
    at_given = h.at_given;
    at_counted = h.at_counted;
    at_active = h.at_active;
    at_sys = refl;
  })

module _ {W : Type 0} ⦃k : Kernel W⦄ {v : Views W} (law : IsReliable k v)
    (heard : (m : Message) (w : W) → (k.mesh_send m w).0 ≡ false) where
  transmit-Moves :
      (m : Message) (sent : Cmd W (Unit {0})) (x y : Point)
      → Moves {W = W} v x y sent
      → Moves {W = W} v x y (transmit m sent)
  unfolding transmit
  transmit-Moves m sent x y next s h =
      rw (heard m s.world, transmit) (next _ (world-IsAt h _ (law.by_send m s.world)))

  cli_send_token-Moves :
      (a : ℕ) (x : Point)
      → Last x.packets a rx_ok
      → Moves {W = W} v x (after x a tx_token) (cli_send_token a)
  unfolding cli_send_token update_token_info
  cli_send_token-Moves a x last s h =
      transmit-Moves _ _ x (after x a tx_token)
        (λ s h.
          Cycle.bind
            (Cycle.bind
              (log_write_time-Frame law a tx_token x _ (world-IsAt h _ (law.by_uptime s.world)))
              λ _ s h.
                Cycle.bind (states_update-Sees v a tx_token rx_ok x s last token h) λ _ s (_, h).
                  Cycle.bind (push_qtx-Frame law _ (after x a tx_token) s h)
                    λ _ s h. packet_count_update-Frame v a tx_token (after x a tx_token) s h)
            λ _ s h. start_data_timer-Frame law (node_idx a) (after x a tx_token) s h)
        _ (world-IsAt h _ (law.by_uptime s.world))

  cli_send_ack-Moves :
      (a : ℕ) (x : Point)
      → Last x.packets a rx_data
      → Moves {W = W} v x (after x a tx_ack) (cli_send_ack a)
  unfolding cli_send_ack update_ack_info
  cli_send_ack-Moves a x last = transmit-Moves _ _ x (after x a tx_ack) λ s h.
      Cycle.bind
        (Cycle.bind (states_update-Sees v a tx_ack rx_data x s last acknowledge h) λ _ s (_, h).
          Cycle.bind (log_write_time-Frame law a tx_ack (after x a tx_ack) s h) λ _ s h.
            Cycle.bind (packet_count_update-Frame v a tx_ack (after x a tx_ack) s h)
              λ _ s h. no_issues-Frame v (after x a tx_ack) s h)
        λ _ s h. start_ok_timer-Frame law (node_idx a) (after x a tx_ack) s h

  cons-cases :
      (l : List FifoData) (a : ℕ) (xs : List ℕ)
      → map addr_of l ≡ a ∷ xs
      → (d : FifoData) × (ds : List FifoData) × (l ≡ d ∷ ds) × (d.addr ≡ a) × (map addr_of ds ≡ xs)
  cons-cases [] a xs e = cc
  cons-cases (d ∷ ds) a xs e = (d, ds, refl, cc, cc)

  nil-cases : (l : List FifoData) → map addr_of l ≡ [] → l ≡ []
  nil-cases [] e = refl
  nil-cases (d ∷ ds) e = cc

  -- All that have given their data get acknowledgements.
  drain-Moves :
      (fuel : ℕ) (ps qs : List PktS) (ws ds : List ℕ) (c m : ℕ)
      → Acks ps ds qs
      → Moves {W = W} v
          (record { packets = ps; waiting = ws; given = ds; counted = c; active = m })
          (record { packets = qs; waiting = ws; given = []; counted = c; active = m })
          (drain k.data_addr_fifo Send.acknowledge fuel)
  unfolding drain Send.acknowledge
  drain-Moves zero ps qs ws ds c m acks s h = sees_no_fuel
  drain-Moves (suc fuel) ps qs ws [] c m acks_nil s h =
      let none_left = nil-cases (v.datas s.world) h.at_given in
      rw (law.data_law.empty_nil s.world none_left, drain) (sees_done h)
  drain-Moves (suc fuel) ps qs ws (a ∷ xs) c m (acks_cons last acks) s h =
      let (d, ds, e, same, rest) = cons-cases (v.datas s.world) a xs h.at_given in
      let (got, left) = law.data_law.get_cons s.world d ds e in
      let x : Point = record { packets = ps; waiting = ws; given = xs; counted = c; active = m } in
      let taken : IsAt v x (record s { world = (k.data_addr_fifo.get s.world).1 }) = record {
        at_packets = h.at_packets;
        at_waiting = rw (law.data_get s.world).0 h.at_waiting;
        at_given = rw left rest;
        at_counted = h.at_counted;
        at_active = h.at_active;
        at_sys = h.at_sys;
      } in
      let w = (k.data_addr_fifo.get s.world).1 in
      let acked : Sees (λ _ s'. IsAt v (after x a tx_ack) s')
          (cli_send_ack d.addr (record s { world = w })) =
        rw same (cli_send_ack-Moves a x last (record s { world = w }) taken) in
      rw (law.data_law.empty_cons s.world d ds e, drain)
        (rw got (
          Cycle.bind (Cycle.bind acked λ _ s h. sees_done (world-IsAt h _ (law.by_release s.world)))
            λ _ s h. drain-Moves fuel (put ps a tx_ack) qs ws xs c m acks s h))

  -- `mercury_mesh_sendToken` does what the machine does.
  pub mesh_send_token-Moves :
      (fuel : ℕ) (x y : Point) → Sends x y → Moves {W = W} v x y (mesh_send_token fuel)
  unfolding mesh_send_token
  mesh_send_token-Moves fuel x y (sends_token {ps} {a} {xs} {ds} {c} {m} last) s h =
      let (d, rest, e, same, left) = cons-cases (v.addrs s.world) a xs h.at_waiting in
      let (got, behind) = law.addr_law.get_cons s.world d rest e in
      let z : Point = record { packets = ps; waiting = xs; given = ds; counted = c; active = m } in
      let taken : IsAt v z (record s { world = (k.addr_fifo.get s.world).1 }) = record {
        at_packets = h.at_packets;
        at_waiting = rw behind left;
        at_given = rw (law.addr_get s.world).0 h.at_given;
        at_counted = h.at_counted;
        at_active = h.at_active;
        at_sys = h.at_sys;
      } in
      let w = (k.addr_fifo.get s.world).1 in
      let sent : Sees (λ _ s'. IsAt v (after z a tx_token) s')
          (cli_send_token d.addr (record s { world = w })) =
        rw same (cli_send_token-Moves a z last (record s { world = w }) taken) in
      rw (law.addr_law.empty_cons s.world d rest e, mesh_send_token)
        (rw got (Cycle.bind sent λ _ s h. sees_done (world-IsAt h _ (law.by_release s.world))))
  mesh_send_token-Moves fuel x y (sends_acks {ps} {qs} {ds} {c} {m} acks) s h =
      let none_left = nil-cases (v.addrs s.world) h.at_waiting in
      rw (law.addr_law.empty_nil s.world none_left, mesh_send_token)
        (drain-Moves fuel ps qs [] ds c m acks s h)
