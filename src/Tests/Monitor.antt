-- ===== src/Tests/Monitor.antt =====
-- The theorems on the packets for the monitor.
use wbms.Prelude.{◌≡◌, refl, arith, []}
use wbms.Types.{Lat}
use wbms.Kernel.Simulated.{World, simulated, list_fifo-IsFifo}
use wbms.Bms.{Bms, done, ◌>>◌}
use wbms.Samples.{master}
use wbms.NetMgr.Latency.{queue_latency}
use wbms.Radon.{TimingPkt, CntPkt, latencies_info_tx}
use wbms.Radon.Packets.{queue_latency-latencies_info_tx}

abbrev no_counts : CntPkt
no_counts = record {
  nid = 0;
  timestamp = 0;
  started = 0;
  closed = 0;
  rejected = 0;
  pec = 0;
  timeout = 0;
  mismatch = 0;
  lost = 0;
}

abbrev measured : Lat
measured = record {
  nid = 17;
  timings = record {
    cycle_time = 40;
    cycle_start = 10;
    intervals = record { ok = 10; tok = 20; cv = 30; ack = 50 };
  };
}

abbrev no_timing : TimingPkt
no_timing = record { nid = 0; start_ok = 0; tok = 0; cv = 0; ack = 0 }

queue_latency-latencies_info_tx_example :
    (s' : Bms World) × ((queue_latency ⦃k = simulated⦄ measured
          >> latencies_info_tx ⦃k = simulated⦄ no_timing)
        (master 3)
      ≡ done (record { nid = 1; start_ok = 10; tok = 20; cv = 30; ack = 50 }) s')
    × (s'.world.lats ≡ [])
queue_latency-latencies_info_tx_example =
    queue_latency-latencies_info_tx ⦃k = simulated⦄ (λ w. w.lats)
      (list_fifo-IsFifo (λ w. w.lats) (λ w l. record w { lats = l }) (λ w l. refl)) measured
      no_timing (master 3) refl refl (λ w. refl) (λ w. refl) (omega arith) (omega arith)
      (omega arith) (omega arith) (omega arith) (omega arith)
