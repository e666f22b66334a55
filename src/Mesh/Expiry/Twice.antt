-- ===== src/Mesh/Expiry/Twice.antt =====
-- What a node that sends no OK in time costs, `ok_expiry_function` of src/hg_netMgr.c.
use wbms.Prelude.{
  ap, sym, ◌∙◌, ℕ, ◌-◌, ◌^◌, ◌<◌, ◌≡◌, ◌≤◌, refl, false, some, [], get_elem?, set, arith,
  get_elem?-set_self, lt_of_get_elem?, inc_u32,
}
use wbms.Types.{rcv_msg, tx_recover, timeout_err, rejected, PktCnt, BmsSt, TransCnt, HgNetClient}
use wbms.Kernel.{Kernel}
use wbms.Bms.{Bms, done}
use wbms.NetMgr.States.{node_idx, states_step, states_update, update_node_state}
use wbms.NetMgr.Counters.{
  count_packet, count_transaction, count_error, count_client_error, log_packet, packet_count_update,
  transaction_update, log_error, error_count_update,
}
use wbms.Mesh.Info.{update_recover_info}
use wbms.Mesh.Send.{message, transmit, cli_send_recover}
use wbms.Mesh.Nodes.{client_addr, recover_nodes}
use wbms.Mesh.Expiry.{recover_lost, ok_lost}

-- What the tables hold of a node.
record Known {W : Type 0} (i : ℕ) (s : Bms W) (n : PktCnt) : Type 0 where
  state : BmsSt
  of_states : get_elem? s.system_state_log i ≡ some state
  of_packets : get_elem? s.pkt_cnt_log i ≡ some n

abbrev recovered : PktCnt → PktCnt
recovered n = record n { rcv_cnt = inc_u32 n.rcv_cnt }

module _ {W : Type 0} (a : ℕ) where
  recover-Known :
      (s : Bms W) (n : PktCnt)
      → Known (node_idx a) s n
      → (s' : Bms W) × (update_recover_info a s ≡ done tt s')
        × (s'.client ≡ s.client)
        × (s'.world ≡ s.world)
        × Known (node_idx a) s' (recovered n)
  unfolding update_recover_info states_update packet_count_update log_packet count_packet
  recover-Known s n kn =
      let i = node_idx a in
      let st' = (states_step tx_recover kn.state).0 in
      (
        record s {
          system_state_log = set s.system_state_log i st';
          pkt_cnt_log = set s.pkt_cnt_log i (recovered n);
        },
        ground (arith, kn.of_states, kn.of_packets),
        refl,
        refl,
        record {
          state = st';
          of_states =
              get_elem?-set_self s.system_state_log i st'
                (lt_of_get_elem? s.system_state_log i kn.of_states);
          of_packets =
              get_elem?-set_self s.pkt_cnt_log i (recovered n)
                (lt_of_get_elem? s.pkt_cnt_log i kn.of_packets);
        },
      )

index_of : (a : ℕ) → 16 ≤ a → a < 2 ^ 8 → node_idx a ≡ a - 16
unfolding node_idx
index_of a low high = omega arith

module _ {W : Type 0} (a : ℕ) where
  timed_out :
      (s : Bms W) (st : BmsSt)
      → get_elem? s.system_state_log (node_idx a) ≡ some st
      → update_node_state a timeout_err s
        ≡ done tt (record s {
          system_state_log =
              set s.system_state_log
                (node_idx a)
                (record st { prev_node = st.curr_node; curr_node = timeout_err });
        })
  unfolding update_node_state
  timed_out s st e = ground (arith, e)

  given_up :
      (s : Bms W) (t : TransCnt)
      → get_elem? s.trans_log (node_idx a) ≡ some t
      → transaction_update a rejected s
        ≡ done tt
            (record s { trans_log = set s.trans_log (node_idx a) (count_transaction rejected t) })
  unfolding transaction_update
  given_up s t e = ground (arith, e)

  counted_timeout :
      (s : Bms W) (c : HgNetClient)
      → get_elem? s.client (node_idx a) ≡ some c
      → (s' : Bms W) × (error_count_update a timeout_err s ≡ done tt s')
        × (s'.system_state_log ≡ s.system_state_log)
        × (s'.pkt_cnt_log ≡ s.pkt_cnt_log)
        × (s'.world ≡ s.world)
  unfolding error_count_update log_error
  counted_timeout s c e = (
    record s {
      client = set s.client (node_idx a) (count_client_error timeout_err c);
      hm = record (s.hm) { log = count_error timeout_err s.hm.log };
    },
    ground (arith, e),
    refl,
    refl,
    refl,
  )

module _ {W : Type 0} ⦃k : Kernel W⦄ where
  sent_recovery :
      (a : ℕ) (s : Bms W) (c : HgNetClient) {s' : Bms W}
      → 16 ≤ a
      → get_elem? s.client (a - 16) ≡ some c
      → c.addr ≡ a
      → (k.mesh_send (message rcv_msg a []) s.world).0 ≡ false
      → update_recover_info a (record s { world = (k.mesh_send (message rcv_msg a []) s.world).1 })
        ≡ done tt s'
      → recover_lost a s ≡ done tt s'
  unfolding recover_lost recover_nodes client_addr cli_send_recover transmit
  sent_recovery a s c low there same sent counts = ground (arith, there, same, sent, counts)

  -- Wherever the tables hold the lost node, under the address of its entry, and the mesh takes the
  -- message, `ok_expiry_function` ends, and counts two recoveries of the node; the one recovery message
  -- that it sends the node is all that it does to the state of the kernel.
  pub ok_lost-recovered :
      (a : ℕ) (s : Bms W) (c : HgNetClient) (t : TransCnt) (st : BmsSt) (n : PktCnt)
      → 16 ≤ a
      → a < 2 ^ 8
      → get_elem? s.client (node_idx a) ≡ some c
      → c.addr ≡ a
      → get_elem? s.trans_log (node_idx a) ≡ some t
      → get_elem? s.system_state_log (node_idx a) ≡ some st
      → get_elem? s.pkt_cnt_log (node_idx a) ≡ some n
      → (k.mesh_send (message rcv_msg a []) s.world).0 ≡ false
      → (s' : Bms W) × (ok_lost a s ≡ done tt s')
        × (get_elem? s'.pkt_cnt_log (node_idx a)
            ≡ some (record n { rcv_cnt = inc_u32 (inc_u32 n.rcv_cnt) }))
        × (s'.world ≡ (k.mesh_send (message rcv_msg a []) s.world).1)
  unfolding ok_lost
  ok_lost-recovered a s c t st n low high ec ea et es en sent =
      let i = node_idx a in
      let same : i ≡ a - 16 = index_of a low high in
      let there : get_elem? s.client (a - 16) ≡ some c =
        ap (λ j. get_elem? s.client j) (sym same) ∙ ec in
      let st1 = record st { prev_node = st.curr_node; curr_node = timeout_err } in
      let s1 = record s { system_state_log = set s.system_state_log i st1 } in
      let s2 = record s1 { trans_log = set s.trans_log i (count_transaction rejected t) } in
      let w = (k.mesh_send (message rcv_msg a []) s.world).1 in
      let k2 : Known i (record s2 { world = w }) n = record {
        state = st1;
        of_states =
            get_elem?-set_self s.system_state_log i st1 (lt_of_get_elem? s.system_state_log i es);
        of_packets = en;
      } in
      let (s3, counts, client3, world3, k3) = recover-Known a (record s2 { world = w }) n k2 in
      let (s4, errors, states4, packets4, world4) =
        counted_timeout a s3 c (ap (λ l. get_elem? l i) client3 ∙ ec) in
      let k4 : Known i s4 (recovered n) = record {
        state = k3.state;
        of_states = ap (λ l. get_elem? l i) states4 ∙ k3.of_states;
        of_packets = ap (λ l. get_elem? l i) packets4 ∙ k3.of_packets;
      } in
      let (s5, again, client5, world5, k5) = recover-Known a s4 (recovered n) k4 in
      let sends = sent_recovery a s2 c low there ea sent counts in
      (
        s5,
        rw (timed_out a s st es) (rw (given_up a s1 t et) (rw sends (rw errors again))),
        k5.of_packets,
        world5 ∙ world4 ∙ world3,
      )
