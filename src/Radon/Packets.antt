-- ===== src/Radon/Packets.antt =====
-- What the monitor's packets hold, against the tables that they are filled from.
use wbms.Prelude.{
  ℕ, zero, suc, ◌+◌, ◌-◌, ◌%◌, ◌^◌, ◌≤◌, ◌<◌, ◌≡◌, refl, true, some, List, [], ◌∷◌, get_elem?,
  get_elem?-some, lt_of_get_elem?, ap, ◌∙◌, ◌++◌, length, arith,
}
use wbms.Types.{TransCnt, HgNetClient, Lat}
use wbms.Kernel.{Kernel}
use wbms.Kernel.Laws.{IsFifo}
use wbms.Bms.{Bms, done, nodes_num, ◌>>◌}
use wbms.NetMgr.Latency.{queue_latency, init_config_st}
use wbms.Radon.{
  TimingPkt, CntPkt, ConfigPkt, timing_of, latencies_info_tx, config_info_tx, counters_entry,
  counters_loop, counters_info_tx,
}

-- The packet of node `n`: its index, its transactions modulo 2^16, its errors modulo 2^6; the number
-- of its timeouts and of its losses is what it was.
abbrev pub packet_of : ℕ → TransCnt → HgNetClient → CntPkt → CntPkt
packet_of n t c p = record {
  nid = n % 2 ^ 4;
  timestamp = c.diag.last_updated % 2 ^ 32;
  started = t.t_started % 2 ^ 16;
  closed = t.t_closed % 2 ^ 16;
  rejected = t.t_rejected % 2 ^ 16;
  pec = c.diag.log.pec_cnt % 2 ^ 6;
  timeout = p.timeout;
  mismatch = c.diag.log.token_mis_cnt % 2 ^ 6;
  lost = p.lost;
}

module _ {W : Type 0} where
  counters_entry-packet :
      (i : ℕ) (s : Bms W) (p : CntPkt) (t : TransCnt) (c : HgNetClient)
      → get_elem? s.trans_log i ≡ some t
      → get_elem? s.client i ≡ some c
      → counters_entry i s p ≡ done (packet_of i t c p) s
  unfolding counters_entry
  counters_entry-packet i s p t c e d = ground arith

  counters_loop-last :
      (r i n : ℕ) (s : Bms W) (p : CntPkt) (t : TransCnt) (c : HgNetClient)
      → i + r ≡ n
      → n < length s.trans_log
      → n < length s.client
      → get_elem? s.trans_log n ≡ some t
      → get_elem? s.client n ≡ some c
      → counters_loop (suc r) i s p ≡ done (packet_of n t c p) s
  unfolding counters_loop
  counters_loop-last zero i n s p t c sum h g e d =
      let here : i ≡ n = omega arith in
      let one = counters_entry-packet n s p t c e d in rw here (ground (arith, one))
  counters_loop-last (suc r) i n s p t c sum h g e d =
      let (u, e') = get_elem?-some s.trans_log i (omega arith) in
      let (b, d') = get_elem?-some s.client i (omega arith) in
      let rest = counters_loop-last r (i + 1) n s (packet_of i u b p) t c (omega arith) h g e d in
      ground (arith, counters_entry-packet i s p u b e' d', rest)

  -- `radon_countersInfoTX` goes through all the nodes and leaves the packet of the last one alone:
  -- with as many transaction entries as nodes, at most as many nodes as clients, and at least one,
  -- the packet of every other node is overwritten before anything can send it.
  pub counters_info_tx-last :
      (n : ℕ) (s : Bms W) (p : CntPkt) (t : TransCnt) (c : HgNetClient)
      → nodes_num s ≡ suc n
      → length s.trans_log ≡ suc n
      → get_elem? s.trans_log n ≡ some t
      → get_elem? s.client n ≡ some c
      → counters_info_tx s p ≡ done (packet_of n t c p) s
  unfolding counters_info_tx
  counters_info_tx-last n s p t c nodes trans e d = rw nodes (
      counters_loop-last n 0 n s p t c (omega arith) (omega arith) (lt_of_get_elem? s.client n d) e
        d)

  -- The configuration that `initConfigSt` writes does not fit into the packet: the payload of 22 bytes
  -- is sent as 6, and the 16 cells as 0. Up to seven nodes are sent as they are.
  pub config_info_tx-cut :
      (n : ℕ) (s : Bms W) (p : ConfigPkt)
      → n < 8
      → s.session.startup_ts < 2 ^ 32
      → (s' : Bms W) × (init_config_st n s ≡ done tt s')
        × (s'.config.pkt_size ≡ 22)
        × (s'.config.cells_num ≡ 16)
        × (config_info_tx s' p
            ≡ record p { pkt = 6; cells = 0; nodes = n; startup = s.session.startup_ts })
  unfolding init_config_st config_info_tx
  config_info_tx-cut n s p h g = (
    record s {
      config = record { pkt_size = 22; ok_to = 1000; cv_to = 1000; nodes_num = n; cells_num = 16 };
    },
    refl,
    refl,
    refl,
    ground arith,
  )

timing_of-fits :
    (l : Lat)
    → 16 ≤ l.nid
    → l.nid < 32
    → l.timings.intervals.ok < 2 ^ 32
    → l.timings.intervals.tok < 2 ^ 32
    → l.timings.intervals.cv < 2 ^ 32
    → l.timings.intervals.ack < 2 ^ 32
    → timing_of l ≡ record {
      nid = l.nid - 16;
      start_ok = l.timings.intervals.ok;
      tok = l.timings.intervals.tok;
      cv = l.timings.intervals.cv;
      ack = l.timings.intervals.ack;
    }
unfolding timing_of
timing_of-fits l low high a b c d = ground arith

module _ {W : Type 0} ⦃k : Kernel W⦄ (lats : W → List Lat) (law : IsFifo k.hil_txqueue lats) where
  -- A latency packet of a node with an address from BASE_ADDR to 31 and 32-bit time stamps: when the
  -- queue was empty and there is memory, the next `radon_latenciesInfoTX` fills its packet with the
  -- node's index and the four absolute time stamps, and the queue is empty again.
  pub queue_latency-latencies_info_tx :
      (l : Lat) (p : TimingPkt) (s : Bms W)
      → lats s.world ≡ []
      → (k.malloc s.world).0 ≡ true
      → ((w : W) → lats (k.malloc w).1 ≡ lats w)
      → ((w : W) → lats (k.release w) ≡ lats w)
      → 16 ≤ l.nid
      → l.nid < 32
      → l.timings.intervals.ok < 2 ^ 32
      → l.timings.intervals.tok < 2 ^ 32
      → l.timings.intervals.cv < 2 ^ 32
      → l.timings.intervals.ack < 2 ^ 32
      → (s' : Bms W) × ((queue_latency l >> latencies_info_tx p) s
          ≡ done
              (record {
                nid = l.nid - 16;
                start_ok = l.timings.intervals.ok;
                tok = l.timings.intervals.tok;
                cv = l.timings.intervals.cv;
                ack = l.timings.intervals.ack;
              })
              s')
        × (lats s'.world ≡ [])
  unfolding queue_latency latencies_info_tx
  queue_latency-latencies_info_tx l p s none_in got keeps frees low high a b c d =
      let w1 = (k.malloc s.world).1 in
      let w2 = k.hil_txqueue.put l w1 in
      let w3 = (k.hil_txqueue.get w2).1 in
      let before : lats w1 ≡ [] = keeps s.world ∙ none_in in
      let one : lats w2 ≡ l ∷ [] = law.put_back w1 l ∙ ap (λ ls. ls ++ (l ∷ [])) before in
      let (taken, left) = law.get_cons w2 l [] one in
      let fields = timing_of-fits l low high a b c d in
      (
        record s { world = k.release w3 },
        ground (arith, got, law.empty_cons w2 l [] one, taken, fields),
        frees w3 ∙ left,
      )
