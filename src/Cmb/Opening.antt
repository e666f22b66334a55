-- ===== src/Cmb/Opening.antt =====
-- A node's OK, which opens a transaction, as the master takes it in.
use wbms.Prelude.{
  ℕ, ◌+◌, ◌-◌, ◌%◌, ◌^◌, ◌≤◌, ◌≡◌, refl, ◌∙◌, ap, none, some, leb, true, false, List, [], ◌∷◌,
  get_elem?, arith,
}
use wbms.Types.{rx_ok, Item, u8, ok_msg, Message, HgNetClient, BmsSt, Lat}
use wbms.Kernel.{Kernel}
use wbms.Bms.{Bms, fault, and_then, pure}
use wbms.NetMgr.States.{node_idx, states_step, states_update}
use wbms.NetMgr.States.Protocol.{Follows, states_step-Follows}
use wbms.NetMgr.Latency.{write_stamp, log_write_time}
use wbms.Mesh.Info.{write_last_ok, take_ok, update_ok_info}
use wbms.Mesh.Handlers.{ok_handler}
use wbms.Cmb.Node.{Cmb, done, transmit, send_ok}

module _ {V : Type 0} where
  -- The OK of a node.
  abbrev pub opening : Cmb V → Message
  opening c = record { op = ok_msg; addr = 224; items = u8 (c.packet_count % 2 ^ 8) ∷ [] }

module _ {V : Type 0} ⦃k : Kernel V⦄ where
  -- That is the message that `mercury_mesh_sendOK` hands to the mesh.
  send_ok-opening :
      (c : Cmb V)
      → (k.mesh_send (opening c) c.world).0 ≡ false
      → let w = (k.mesh_send (opening c) c.world).1 in
        send_ok c
        ≡ done (record c {
          packet_count = (c.packet_count + 1) % 2 ^ 32;
          last_tx_ok = (k.uptime w).0;
          world = (k.uptime w).1;
        })
  unfolding send_ok transmit
  send_ok-opening c taken = rw taken refl

module _ {W : Type 0} ⦃k : Kernel W⦄ where
  take_ok-empty :
      (a : ℕ) (s : Bms W) (l : Lat)
      → k.pull_u8 [] ≡ none
      → get_elem? s.data_pkt (node_idx a) ≡ some l
      → take_ok [] a s ≡ fault
  unfolding take_ok log_write_time write_stamp
  take_ok-empty a s l pull_none f = rw (f, write_stamp) (rw pull_none refl)

  -- `updateOKInfo` of an OK that the state machine accepts needs a byte.
  update_ok_info-empty :
      (a : ℕ) (s : Bms W) (client : HgNetClient) (st : BmsSt) (l : Lat)
      → k.pull_u8 [] ≡ none
      → leb 16 a ≡ true
      → get_elem? s.client (a - 16) ≡ some client
      → get_elem? s.system_state_log (node_idx a) ≡ some st
      → get_elem? s.data_pkt (node_idx a) ≡ some l
      → (states_step rx_ok st).1 ≡ false
      → update_ok_info [] a s ≡ fault
  unfolding update_ok_info states_update write_last_ok
  update_ok_info-empty a s client st l pull_none low e d f right =
      rw (d, states_update)
        (rw (low, e, right)
          (ap (λ r. and_then r (λ _. pure false)) (take_ok-empty a _ l pull_none f)))

module _ {V W : Type 0} ⦃kv : Kernel V⦄ ⦃k : Kernel W⦄ (wire : List Item → List ℕ) where
  -- Buffers give the bytes that were put in, and none when they are empty. A node whose OK the mesh takes
  -- goes on to its next one, with the counter one higher modulo 2^32; but of the one byte of that OK, in a master
  -- whose tables have an entry for the sender and that could accept it, `mercury_mesh_OKHandler` pulls a
  -- second one, from an empty buffer.
  pub send_ok-ok_handler :
      (u8_byte : (x : ℕ) (items : List Item) → wire (u8 x ∷ items) ≡ x % 256 ∷ wire items)
      (no_bytes : wire [] ≡ [])
      (pull_first : (x : ℕ) (xs : List ℕ) → k.pull_u8 (x ∷ xs) ≡ some (x, xs))
      (pull_none : k.pull_u8 [] ≡ none) (fuel sender : ℕ) (c : Cmb V) (s : Bms W)
      (client : HgNetClient) (st : BmsSt) (l : Lat)
      → (kv.mesh_send (opening c) c.world).0 ≡ false
      → 16 ≤ sender % 2 ^ 8
      → get_elem? s.client (sender % 2 ^ 8 - 16) ≡ some client
      → get_elem? s.system_state_log (node_idx (sender % 2 ^ 8)) ≡ some st
      → get_elem? s.data_pkt (node_idx (sender % 2 ^ 8)) ≡ some l
      → Follows st.curr_pkt rx_ok
      → ((c' : Cmb V) × (send_ok c ≡ done c') × (c'.packet_count ≡ (c.packet_count + 1) % 2 ^ 32))
        × (ok_handler fuel sender (wire (opening c).items) s ≡ fault)
  unfolding ok_handler
  send_ok-ok_handler u8_byte no_bytes pull_first pull_none fuel sender c s client st l taken low e d
        f follows =
      let b = c.packet_count % 2 ^ 8 % 256 in
      let bytes : wire (opening c).items ≡ b ∷ [] =
        u8_byte (c.packet_count % 2 ^ 8) [] ∙ ap (λ l. b ∷ l) no_bytes in
      let right : (states_step rx_ok st).1 ≡ false = (states_step-Follows rx_ok st).1 follows in
      let a = sender % 2 ^ 8 in
      let high : leb 16 a ≡ true = ground (arith, low) in
      (
        (_, send_ok-opening c taken, refl),
        rw (bytes, pull_first b [])
            (rw (update_ok_info-empty a s client st l pull_none high e d f right) refl),
      )
