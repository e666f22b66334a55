-- ===== src/Radon.antt =====
-- The packets for the external monitor, Radon, src/hg_test.c. A packet is a global with bit fields:
-- a value that is written is cut to the field's width. The sending itself is not in the code.
pub mod Packets
use wbms.Prelude.{ℕ, zero, suc, ◌+◌, ◌%◌, ◌^◌, true, false, none, some, get_elem?, if◌then◌else◌}
use wbms.Types.{Lat}
use wbms.Kernel.{Fifo, Kernel}
use wbms.Bms.{Bms, Run, done, fault, nodes_num}

-- `timingPkt`, less its padding
pub record TimingPkt : Type 0 where
  pub nid : ℕ
  pub start_ok : ℕ
  pub tok : ℕ
  pub cv : ℕ
  pub ack : ℕ

-- `cntPkt`, less its padding
pub record CntPkt : Type 0 where
  pub nid : ℕ
  pub timestamp : ℕ
  pub started : ℕ
  pub closed : ℕ
  pub rejected : ℕ
  pub pec : ℕ
  pub timeout : ℕ
  pub mismatch : ℕ
  pub lost : ℕ

-- `configPkt`, less its padding
pub record ConfigPkt : Type 0 where
  pub pkt : ℕ
  pub nodes : ℕ
  pub cells : ℕ
  pub timeout : ℕ
  pub startup : ℕ

-- The writes of `radon_latenciesInfoTX`: 4 bits of the node, and four words.
unfoldable pub timing_of : Lat → TimingPkt
timing_of l = record {
  nid = l.nid % 2 ^ 4;
  start_ok = l.timings.intervals.ok % 2 ^ 32;
  tok = l.timings.intervals.tok % 2 ^ 32;
  cv = l.timings.intervals.cv % 2 ^ 32;
  ack = l.timings.intervals.ack % 2 ^ 32;
}

module _ {W : Type 0} where
  -- `radon_latenciesInfoTX`, from the packet as it was
  unfoldable pub latencies_info_tx : ⦃k : Kernel W⦄ → TimingPkt → Bms W → Run W TimingPkt
  unfolding timing_of
  latencies_info_tx ⦃k⦄ p s =
      if k.hil_txqueue.is_empty s.world
      then done p s
      else (let (got, w) = k.hil_txqueue.get s.world in
          elim got [
            | none ↦ fault
            | some l ↦ done (timing_of l) (record s { world = k.release w })
          ])

  -- `radon_configInfoTX`
  unfoldable pub config_info_tx : Bms W → ConfigPkt → ConfigPkt
  config_info_tx s p = record p {
    cells = s.config.cells_num % 2 ^ 4;
    nodes = s.config.nodes_num % 2 ^ 3;
    startup = s.session.startup_ts % 2 ^ 32;
    pkt = s.config.pkt_size % 2 ^ 4;
  }

  -- One round of the loop of `radon_countersInfoTX`.
  unfoldable pub counters_entry : ℕ → Bms W → CntPkt → Run W CntPkt
  counters_entry i s p = elim (get_elem? s.trans_log i) [
    | none ↦ fault
    | some t ↦ elim (get_elem? s.client i) [
      | none ↦ fault
      | some c ↦
          done
            (record p {
              nid = (i + 16) % 2 ^ 4;
              closed = t.t_closed % 2 ^ 16;
              rejected = t.t_rejected % 2 ^ 16;
              started = t.t_started % 2 ^ 16;
              mismatch = c.diag.log.token_mis_cnt % 2 ^ 6;
              pec = c.diag.log.pec_cnt % 2 ^ 6;
              timestamp = c.diag.last_updated % 2 ^ 32;
            })
            s
    ]
  ]

  -- The loop, by the rounds left. Nothing reads the packet between two rounds.
  unfoldable pub counters_loop : ℕ → ℕ → Bms W → CntPkt → Run W CntPkt
  unfolding counters_entry
  counters_loop zero i s p = done p s
  counters_loop (suc n) i s p = elim (counters_entry i s p) [
    | done p' s' ↦ counters_loop n (i + 1) s' p'
    | _ ↦ fault
  ]

  -- `radon_countersInfoTX`
  unfoldable pub counters_info_tx : Bms W → CntPkt → Run W CntPkt
  unfolding counters_loop
  counters_info_tx s p = counters_loop (nodes_num s) 0 s p
