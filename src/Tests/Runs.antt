-- ===== src/Tests/Runs.antt =====
-- The theorem that the handlers end, at a master with two nodes that have joined.
use wbms.Prelude.{
  ℕ, zero, suc, ◌<◌, ◌≤◌, ◌≡◌, refl, arith, List, [], ◌∷◌, replicate, some, get_elem?,
}
use wbms.Types.{startup_nodata}
use wbms.Kernel.Simulated.{
  World, simulated, addr_fifo-IsFifo, data_addr_fifo-IsFifo, other-get, other-put, rx_msgq-IsMsgq,
}
use wbms.Bms.{Bms}
use wbms.Samples.{master, free_client, no_errors}
use wbms.NetMgr.Counters.Laws.{total}
use wbms.Invariant.Consistent.{IsConsistent}
use wbms.Invariant.Events.{
  Event, ok_received, data_received, ok_timer, data_timer, start, diagnose, handle_all,
}
use wbms.Total.Ready.{Ends, Views, IsReliable, IsFormed, IsReady, known_nil}
use wbms.Total.Events.{
  AllFit, fit_nil, fit_cons, fits_ok, fits_data, fits_ok_timer, fits_data_timer, fits_start,
  fits_diagnose, handle_all-Ends,
}

abbrev pub queues : Views World
queues = record { addrs = λ w. w.addrs; datas = λ w. w.data_addrs; received = λ w. w.rx }

pub simulated-IsReliable : IsReliable simulated queues
simulated-IsReliable = record {
  memory = λ w. refl;
  u8 = λ a xs. refl;
  u16 = λ a b xs. refl;
  u32 = λ a b c d xs. refl;
  addr_law = addr_fifo-IsFifo;
  data_law = data_addr_fifo-IsFifo;
  rx_law = rx_msgq-IsMsgq;
  addr_get = λ w. (
    other-get (λ w. w.addrs) (λ w l. record w { addrs = l }) (λ w. w.data_addrs) (λ w l. refl) w
        w.addrs,
    other-get (λ w. w.addrs) (λ w l. record w { addrs = l }) (λ w. w.rx) (λ w l. refl) w w.addrs,
  );
  addr_put = λ w d. (refl, refl);
  data_get = λ w. (
    other-get (λ w. w.data_addrs) (λ w l. record w { data_addrs = l }) (λ w. w.addrs) (λ w l. refl)
        w w.data_addrs,
    other-get (λ w. w.data_addrs) (λ w l. record w { data_addrs = l }) (λ w. w.rx) (λ w l. refl) w
        w.data_addrs,
  );
  data_put = λ w d. (refl, refl);
  by_uptime = λ w. (refl, refl, refl);
  by_send = λ m w. (refl, refl, refl);
  by_malloc = λ w. (refl, refl, refl);
  by_release = λ w. (refl, refl, refl);
  by_start = λ t i w. (refl, refl, refl);
  by_stop = λ t w. (refl, refl, refl);
  by_rx_get = λ w. (
    other-get (λ w. w.rx) (λ w l. record w { rx = l }) (λ w. w.addrs) (λ w l. refl) w w.rx,
    other-get (λ w. w.rx) (λ w l. record w { rx = l }) (λ w. w.data_addrs) (λ w l. refl) w w.rx,
  );
  by_rx_put = λ m w. (
    other-put (λ w. w.rx) (λ w l. record w { rx = l }) (λ w. w.addrs) (λ w l. refl) 6 m w,
    other-put (λ w. w.rx) (λ w l. record w { rx = l }) (λ w. w.data_addrs) (λ w l. refl) 6 m w,
  );
  by_tx_get = λ w. (
    other-get (λ w. w.tx) (λ w l. record w { tx = l }) (λ w. w.addrs) (λ w l. refl) w w.tx,
    other-get (λ w. w.tx) (λ w l. record w { tx = l }) (λ w. w.data_addrs) (λ w l. refl) w w.tx,
    other-get (λ w. w.tx) (λ w l. record w { tx = l }) (λ w. w.rx) (λ w l. refl) w w.tx,
  );
  by_tx_put = λ m w. (
    other-put (λ w. w.tx) (λ w l. record w { tx = l }) (λ w. w.addrs) (λ w l. refl) 40 m w,
    other-put (λ w. w.tx) (λ w l. record w { tx = l }) (λ w. w.data_addrs) (λ w l. refl) 40 m w,
    other-put (λ w. w.tx) (λ w l. record w { tx = l }) (λ w. w.rx) (λ w l. refl) 40 m w,
  );
  by_hil_put = λ l w. (refl, refl, refl);
}

-- Two nodes, at 16 and 17.
abbrev pub table : List ℕ
table = 16 ∷ 17 ∷ replicate 14 0

pub net : IsFormed 2 table
net = record { few = omega arith; full = refl; joined = at_index }
  where
    at_index : (i a : ℕ) → i < 2 → get_elem? table i ≡ some a → (16 ≤ a) × (a < 18)
    at_index zero a h e = ground arith
    at_index (suc zero) a h e = ground arith
    at_index (suc (suc i)) a h e = absurd (omega arith)

abbrev pub pair : Bms World
pair = record (master 2) {
  client =
      record (free_client) { addr = 16 }
      ∷ record (free_client) { addr = 17 }
      ∷ replicate 14 free_client;
  hm = record { active = 2; curr_sys = startup_nodata; prev_sys = startup_nodata; log = no_errors };
}

pub pair-IsReady : IsReady queues 2 table 0 0 pair
pair-IsReady = record {
  clients = refl;
  nodes = refl;
  transactions = refl;
  packets = refl;
  latencies = refl;
  active = omega arith;
  known_addrs = known_nil;
  known_datas = known_nil;
  known_received = known_nil;
  few_addrs = omega arith;
  few_datas = omega arith;
}

pub pair-IsConsistent : IsConsistent 2 pair
unfolding total
pair-IsConsistent = record {
  clients = refl;
  nodes = refl;
  transactions = refl;
  packets = refl;
  latencies = refl;
  balanced = record { pec = refl; timeout = refl; mismatch = refl; dropped = refl };
  paired_counts = refl;
}

-- The nodes are started, send their OKs, one its data, which is checked, and the timer of the other
-- expires.
abbrev history : List Event
history =
    start
    ∷ ok_received 16 (1 ∷ 5 ∷ [])
    ∷ ok_received 17 (1 ∷ 6 ∷ [])
    ∷ data_received 16 (replicate 22 200)
    ∷ diagnose
    ∷ data_timer 1
    ∷ ok_timer 0
    ∷ []

history-AllFit : AllFit 2 history
history-AllFit = fit_cons fits_start (
    fit_cons (fits_ok (omega arith, omega arith) (omega arith)) (
      fit_cons (fits_ok (omega arith, omega arith) (omega arith)) (
        fit_cons (fits_data (omega arith, omega arith) (omega arith)) (
          fit_cons fits_diagnose (
            fit_cons (fits_data_timer (omega arith))
              (fit_cons (fits_ok_timer (omega arith)) fit_nil))))))

handle_all-Ends_example :
    Ends
      (λ _ s'. IsConsistent 2 s' × IsReady queues 2 table 7 7 s')
      (handle_all ⦃k = simulated⦄ 8 history pair)
handle_all-Ends_example =
    handle_all-Ends ⦃k = simulated⦄ simulated-IsReliable net 8 0 0 history pair (omega arith)
      (omega arith) history-AllFit pair-IsReady pair-IsConsistent
