-- ===== src/Cmb/Delivery.antt =====
-- A node's answer to a token, as the master takes it in and the diagnostic thread checks it.
use wbms.Prelude.{
  ℕ, ◌+◌, ◌*◌, ◌/◌, ◌%◌, ◌^◌, ◌<◌, ◌≡◌, ◌≢◌, false, refl, sym, ap, ◌∙◌, true, some, List, [], ◌∷◌,
  ◌++◌, length, get_elem?, set, arith,
}
use wbms.Types.{
  Item, Message, data_msg, le16, le32, mem, rx_data, ended, TxTokPkt, RxCvPkt, TransCnt, PktCnt,
  BmsSt, Lat,
}
use wbms.Kernel.{Kernel}
use wbms.Kernel.Laws.{IsMsgq}
use wbms.Bms.{Bms, done, and_then, ◌>>◌}
use wbms.NetMgr.States.{node_idx}
use wbms.NetMgr.Counters.{count_transaction, count_packet, packet_count_update, log_packet}
use wbms.NetMgr.Latency.{stamp, write_stamp, log_write_time}
use wbms.NetMgr.Queues.{push, push_qrx, search_rounds, fetch_rx}
use wbms.NetMgr.Queues.Find.{any_answers, search_rounds_lem}
use wbms.Mesh.Info.{pull_cells, take_data}
use wbms.Diag.{crc16_check, diag_round}
use wbms.Diag.Verify.{Entries, verify_rx_data-Entries}
use wbms.Cmb.Node as Node
use wbms.Cmb.Node.{Cmb, token_handler}
use wbms.Cmb.Node.Token.{answer, token_handler-answers}
use wbms.Cmb.Wire.{IsWire}

-- What the data packet of a node is, apart from the time of its arrival.
abbrev pub received : {V : Type 0} → ℕ → ℕ → Cmb V → ℕ → RxCvPkt
received a token c t = record {
  addr = a;
  token = token;
  cells = c.cell_volts;
  pec = c.curr_crc;
  ts = t;
}

-- Buffers give the bytes that they have, and `rx` and `tx` are what the two message queues hold, of
-- which no call but their own touches either.
pub record IsQueued {W : Type 0} (k : Kernel W) (rx : W → List RxCvPkt) (tx : W → List TxTokPkt)
    : Type 0 where
  pub u8 : (a : ℕ) (xs : List ℕ) → k.pull_u8 (a ∷ xs) ≡ some (a, xs)
  pub u16 : (a b : ℕ) (xs : List ℕ) → k.pull_le16 (a ∷ b ∷ xs) ≡ some (a + 256 * b, xs)
  pub u32 :
      (a b c d : ℕ) (xs : List ℕ)
      → k.pull_le32 (a ∷ b ∷ c ∷ d ∷ xs) ≡ some (a + 256 * b + 65536 * c + 16777216 * d, xs)
  pub rx_law : IsMsgq k.rx_msgq rx 6
  pub tx_law : IsMsgq k.tx_msgq tx 40
  pub rx_uptime : (w : W) → rx (k.uptime w).1 ≡ rx w
  pub tx_uptime : (w : W) → tx (k.uptime w).1 ≡ tx w
  pub tx_put : (m : RxCvPkt) (w : W) → tx (k.rx_msgq.put m w).1 ≡ tx w
  pub tx_get : (w : W) → tx (k.rx_msgq.get w).1 ≡ tx w

module _ {W : Type 0} ⦃k : Kernel W⦄ {rx : W → List RxCvPkt} {tx : W → List TxTokPkt}
    (law : IsQueued k rx tx) where
  pull_cells-all :
      (xs rest : List ℕ) (s : Bms W) → pull_cells (length xs) (xs ++ rest) s ≡ done (xs, rest) s
  unfolding pull_cells
  pull_cells-all [] rest s = refl
  pull_cells-all (x ∷ xs) rest s =
      let later = pull_cells-all xs rest s in rw (law.u8 x (xs ++ rest)) (rw later refl)

  -- The master after the packet.
  abbrev data_taken : ℕ → Lat → PktCnt → W → Bms W → Bms W
  data_taken a l c w s = record s {
    data_pkt = set s.data_pkt (node_idx a) l;
    msg_cnt = (s.msg_cnt + 1) % 2 ^ 16;
    pkt_cnt_log = set s.pkt_cnt_log (node_idx a) c;
    world = w;
  }

  log_write_time-data :
      (a : ℕ) (s : Bms W) (l : Lat)
      → get_elem? s.data_pkt (node_idx a) ≡ some l
      → let (t1, w1) = k.uptime s.world in
        log_write_time a rx_data s
        ≡ done tt (record s {
          data_pkt = set s.data_pkt (node_idx a) (stamp rx_data (a % 2 ^ 8) t1 l);
          world = w1;
        })
  unfolding log_write_time write_stamp
  log_write_time-data a s l e = ground (arith, e)

  module _ (wire : List Item → List ℕ) (wired : IsWire wire)
      (mem_bytes : (xs : List ℕ) (items : List Item) → wire (mem xs ∷ items) ≡ xs ++ wire items)
      (nothing : wire [] ≡ []) where
    take_data-answer :
        {V : Type 0} (a token : ℕ) (c : Cmb V) (s : Bms W) (l : Lat) (n : PktCnt)
        → get_elem? s.data_pkt (node_idx a) ≡ some l
        → get_elem? s.pkt_cnt_log (node_idx a) ≡ some n
        → length c.cell_volts ≡ 16
        → token < 2 ^ 32
        → c.curr_crc < 2 ^ 16
        → let (t1, w1) = k.uptime s.world in
          let (t2, w2) = k.uptime w1 in
          let m = received a token c t2 in
          take_data (wire (answer token c).items) a s
          ≡ done tt (
              data_taken a
                (stamp rx_data (a % 2 ^ 8) t1 l)
                (count_packet rx_data n)
                (push k.rx_msgq 6 m w2)
                s)
    unfolding take_data push_qrx packet_count_update log_packet
    take_data-answer a token c s l n e d cells small low =
        let b0 = token % 256 in
        let b1 = token / 256 % 256 in
        let b2 = token / 65536 % 256 in
        let b3 = token / 16777216 % 256 in
        let p0 = c.curr_crc % 256 in
        let p1 = c.curr_crc / 256 % 256 in
        let rest = b0 ∷ b1 ∷ b2 ∷ b3 ∷ p0 ∷ p1 ∷ [] in
        let bytes : wire (answer token c).items ≡ c.cell_volts ++ rest =
          mem_bytes c.cell_volts (le32 token ∷ le16 c.curr_crc ∷ [])
          ∙ ap (λ l. c.cell_volts ++ l)
              (wired.le32_bytes token (le16 c.curr_crc ∷ [])
                ∙ ap (λ l. b0 ∷ b1 ∷ b2 ∷ b3 ∷ l)
                    (wired.le16_bytes c.curr_crc [] ∙ ap (λ l. p0 ∷ p1 ∷ l) nothing)) in
        let word : b0 + 256 * b1 + 65536 * b2 + 16777216 * b3 ≡ token = omega arith in
        let code : p0 + 256 * p1 ≡ c.curr_crc = omega arith in
        let pulled : (s : Bms W)
            → pull_cells 16 (c.cell_volts ++ rest) s ≡ done (c.cell_volts, rest) s =
          λ s.
            ap (λ i. pull_cells i (c.cell_volts ++ rest) s) (sym cells)
            ∙ pull_cells-all c.cell_volts rest s in
        let (t1, w1) = k.uptime s.world in
        let s1 = record s {
          data_pkt = set s.data_pkt (node_idx a) (stamp rx_data (a % 2 ^ 8) t1 l);
          world = w1;
        } in
        let s2 = record s1 { world = (k.uptime w1).1 } in
        rw
          (
            bytes,
            log_write_time-data a s l e,
            pulled s2,
            law.u32 b0 b1 b2 b3 (p0 ∷ p1 ∷ []),
            law.u16 p0 p1 [],
            word,
            code,
          )
          (rw (d, log_packet) refl)

    -- The answer of a node that was polled, as the master takes it in and checks it.
    take_data-diag_round :
        {V : Type 0} (a token : ℕ) (c : Cmb V) (s : Bms W) (l : Lat) (n : PktCnt) (t : TransCnt)
        (st : BmsSt)
        → get_elem? s.data_pkt (node_idx a) ≡ some l
        → get_elem? s.pkt_cnt_log (node_idx a) ≡ some n
        → Entries (node_idx a) s t st
        → length c.cell_volts ≡ 16
        → token < 2 ^ 32
        → c.curr_crc < 2 ^ 16
        → c.curr_crc ≡ k.crc16_ansi c.cell_volts
        → rx s.world ≡ []
        → ((ts : ℕ) → any_answers (received a token c ts) (tx s.world) ≡ true)
        → (s' : Bms W) × ((take_data (wire (answer token c).items) a >> diag_round) s ≡ done tt s')
          × Entries (node_idx a) s' (count_transaction ended t) st
    unfolding diag_round fetch_rx push crc16_check
    take_data-diag_round a token c s l n t st e d es cells small low polled none_in sent =
        let w1 = (k.uptime s.world).1 in
        let (t2, w2) = k.uptime w1 in
        let m = received a token c t2 in
        let w3 = (k.rx_msgq.put m w2).1 in
        let w4 = (k.rx_msgq.get w3).1 in
        let l' = stamp rx_data (a % 2 ^ 8) (k.uptime s.world).0 l in
        let n' = count_packet rx_data n in
        let s4 = data_taken a l' n' w4 s in
        let empty : rx w2 ≡ [] = law.rx_uptime w1 ∙ law.rx_uptime s.world ∙ none_in in
        let used : k.rx_msgq.num_used w2 ≡ 0 =
          law.rx_law.used w2 ∙ ap (λ (q : List RxCvPkt). length q) empty in
        let one : rx w3 ≡ m ∷ [] =
          (law.rx_law.put_room w2 m (omega (arith, ap (λ (q : List RxCvPkt). length q) empty))).1
          ∙ ap (λ q. q ++ (m ∷ [])) empty in
        let got = (law.rx_law.get_cons w3 m [] one).0 in
        let tokens : tx w4 ≡ tx s.world =
          law.tx_get w3 ∙ law.tx_put m w2 ∙ law.tx_uptime w1 ∙ law.tx_uptime s.world in
        let found : (search_rounds k.tx_msgq (k.tx_msgq.num_used w4) m w4).0 ≡ true =
          ap (λ i. (search_rounds k.tx_msgq i m w4).0) (law.tx_law.used w4)
          ∙ (search_rounds_lem k.tx_msgq tx 40 law.tx_law m (tx w4) w4 refl).0
          ∙ ap (any_answers m) tokens
          ∙ sent t2 in
        let right : crc16_check k.crc16_ansi m ≡ true = ground (arith, polled) in
        let (s', checked, es') = verify_rx_data-Entries m s4 t st (record {
          client = es.client;
          of_client = es.of_client;
          of_transactions = es.of_transactions;
          of_states = es.of_states;
        }) in
        let pushed : push k.rx_msgq 6 m w2 ≡ w3 = ground (arith, used) in
        let round : diag_round (data_taken a l' n' w3 s) ≡ done tt s' = rw got checked in
        (
          s',
          ap (λ r. and_then r (λ _. diag_round))
                (take_data-answer a token c s l n e d cells small low)
              ∙ ap (λ w. diag_round (data_taken a l' n' w s)) pushed
              ∙ round,
          rw (found, right) at es',
        )

    -- The bytes of a token from another address, in a node that was polled, with 16 cells, a 16-bit
    -- checksum that is the one of its cells, and a mesh that takes every message: the token handler of the
    -- node ends and hands one message to the mesh, a data packet for NODE_BMS_ADDR. When in the master no
    -- other packet waits and the token, of 32 bits, is among those sent to the node, taking in the data
    -- out of the bytes of that message ends, and so does the next round of the diagnostic thread, which
    -- closes the node's transaction without a mark on its state.
    pub token_handler-diag_round :
        {V : Type 0} ⦃kv : Kernel V⦄ (sent : V → List Message)
        (taken : (m : Message) (w : V)
          → ((kv.mesh_send m w).0 ≡ false) × (sent (kv.mesh_send m w).1 ≡ sent w ++ (m ∷ [])))
        (kept : (w : V) → sent (kv.uptime w).1 ≡ sent w)
        (word : (x y z t : ℕ) (xs : List ℕ)
          → kv.pull_le32 (x ∷ y ∷ z ∷ t ∷ xs) ≡ some (x + 256 * y + 65536 * z + 16777216 * t, xs))
        (a sender token : ℕ) (c : Cmb V) (s : Bms W) (l : Lat) (n : PktCnt) (t : TransCnt)
        (st : BmsSt)
        → get_elem? s.data_pkt (node_idx a) ≡ some l
        → get_elem? s.pkt_cnt_log (node_idx a) ≡ some n
        → Entries (node_idx a) s t st
        → sender ≢ c.mesh_addr
        → length c.cell_volts ≡ 16
        → token < 2 ^ 32
        → c.curr_crc < 2 ^ 16
        → c.curr_crc ≡ k.crc16_ansi c.cell_volts
        → rx s.world ≡ []
        → ((ts : ℕ) → any_answers (received a token c ts) (tx s.world) ≡ true)
        → (c' : Cmb V) × (m : Message) × (s' : Bms W) × (token_handler sender
              (wire (le32 token ∷ []))
              c
            ≡ Node.done c')
          × (sent c'.world ≡ sent c.world ++ (m ∷ []))
          × (m.op ≡ data_msg)
          × (m.addr ≡ 224)
          × ((take_data (wire m.items) a >> diag_round) s ≡ done tt s')
          × Entries (node_idx a) s' (count_transaction ended t) st
    token_handler-diag_round ⦃kv⦄ sent taken kept word a sender token c s l n t st e d es other
          cells small low polled none_in known =
        let bytes : wire (le32 token ∷ [])
            ≡ token % 256
              ∷ token / 256 % 256
              ∷ token / 65536 % 256
              ∷ token / 16777216 % 256
              ∷ wire [] =
          wired.le32_bytes token [] in
        let value : token % 256
              + 256 * (token / 256 % 256)
              + 65536 * (token / 65536 % 256)
              + 16777216 * (token / 16777216 % 256)
            ≡ token =
          omega arith in
        let pulled : kv.pull_le32 (wire (le32 token ∷ [])) ≡ some (token, wire []) =
          ap (λ b. kv.pull_le32 b) bytes
          ∙ word (token % 256) (token / 256 % 256) (token / 65536 % 256) (token / 16777216 % 256)
              (wire [])
          ∙ ap (λ v. some (v, wire [])) value in
        let w = (kv.uptime c.world).1 in
        let (accepted, grown) = taken (answer token c) w in
        let z = (kv.mesh_send (answer token c) w).1 in
        let (s', ran, es') =
          take_data-diag_round a token c s l n t st e d es cells small low polled none_in known in
        (
          record c { last_rx_tok = (kv.uptime z).0; world = (kv.uptime z).1 },
          answer token c,
          s',
          (token_handler-answers sender token (wire (le32 token ∷ [])) (wire []) c other pulled).0
              accepted,
          kept z ∙ grown ∙ ap (λ l. l ++ (answer token c ∷ [])) (kept c.world),
          refl,
          refl,
          ran,
          es',
        )
