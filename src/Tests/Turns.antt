-- ===== src/Tests/Turns.antt =====
-- The theorems on whole cycles and on a node's OK, at a master with two nodes.
use wbms.Prelude.{
  ℕ, ◌+◌, ◌-◌, ◌≡◌, refl, arith, [], ◌∷◌, replicate, map, ◌==◌, ◌%◌, ◌^◌, Bool-cases, inl, inr,
}
use wbms.Types.{Lat, PktS, no_info, rx_ok, tx_ack}
use wbms.Kernel.Simulated.{World, simulated}
use wbms.Bms.{Bms, done, fault}
use wbms.NetMgr.States.Protocol.{Follows, first_ok}
use wbms.NetMgr.States.{node_idx}
use wbms.Invariant.Events.{handle_all}
use wbms.Total.Ready.{InNode}
use wbms.Cmb.Node as Node
use wbms.Cmb.Node.{Cmb, send_ok}
use wbms.Cmb.Opening.{opening, send_ok-ok_handler}
use wbms.Mesh.Handlers.{ok_handler}
use wbms.Samples.{free_client, free_entry}
use wbms.Tests.Node.{node, wire}
use wbms.Cycle.{packet_of, Last}
use wbms.Cycle.Turns.{Turn, all_events}
use wbms.Cycle.Complete.{AtRest, handle_all-AtRest}
use wbms.Tests.Runs.{
  queues, simulated-IsReliable, table, net, pair, pair-IsReady, pair-IsConsistent,
}

abbrev rising : Turn 2
rising = record {
  adr = λ i. 16 + i;
  order = record {
    few = omega arith;
    low = λ i below. omega arith;
    high = λ i below. omega arith;
    once = λ i j a b e. omega arith;
    all = λ a low high. (a - 16, omega arith, omega arith);
  };
  ok_bytes = λ i. 1 ∷ 5 ∷ [];
  data_bytes = λ i. replicate 22 200;
  ok_size = λ i. omega arith;
  data_size = λ i. omega arith;
}

abbrev falling : Turn 2
falling = record {
  adr = λ i. 17 - i;
  order = record {
    few = omega arith;
    low = λ i below. omega arith;
    high = λ i below. omega arith;
    once = λ i j a b e. omega arith;
    all = λ a low high. (17 - a, omega arith, omega arith);
  };
  ok_bytes = λ i. 1 ∷ i ∷ [];
  data_bytes = λ i. replicate 22 (100 + i);
  ok_size = λ i. omega arith;
  data_size = λ i. omega arith;
}

pair-AtRest : AtRest queues 2 table pair
unfolding node_idx
pair-AtRest = record {
  ready = pair-IsReady;
  consistent = pair-IsConsistent;
  no_addrs = refl;
  no_datas = refl;
  counted = refl;
  active = refl;
  well = refl;
  willing = at_index;
}
  where
    at_index :
        (a : ℕ)
        → InNode 2 a
        → (p : PktS) × Last (map packet_of pair.system_state_log) a p × Follows p rx_ok
    at_index a (low, high) = elim (Bool-cases (a == 16)) [
      | inl e ↦ let same : a ≡ 16 = ground (arith, e) in rw same (no_info, refl, first_ok)
      | inr e ↦
          let same : a ≡ 17 = ground (arith, e, low, high) in rw same (no_info, refl, first_ok)
    ]

handle_all-AtRest_example :
    (s' : Bms World) × (handle_all ⦃k = simulated⦄ 8
        (all_events (rising ∷ falling ∷ rising ∷ []))
        pair
      ≡ done tt s')
    × AtRest queues 2 table s'
    × ((a : ℕ) → InNode 2 a → Last (map packet_of s'.system_state_log) a tx_ack)
handle_all-AtRest_example =
    handle_all-AtRest ⦃k = simulated⦄ simulated-IsReliable net (λ m w. refl) 8 rising
      (falling ∷ rising ∷ []) pair (omega arith) pair-AtRest

abbrev no_stamps : Lat
no_stamps = record {
  nid = 0;
  timings = record {
    cycle_time = 0;
    cycle_start = 0;
    intervals = record { ok = 0; tok = 0; cv = 0; ack = 0 };
  };
}

send_ok-ok_handler_example :
    ((c' : Cmb World) × (send_ok ⦃k = simulated⦄ node ≡ Node.done c')
      × (c'.packet_count ≡ (node.packet_count + 1) % 2 ^ 32))
    × (ok_handler ⦃k = simulated⦄ 8 17 (wire (opening node).items) pair ≡ fault)
unfolding node_idx
send_ok-ok_handler_example =
    send_ok-ok_handler ⦃kv = simulated⦄ ⦃k = simulated⦄ wire (λ x items. refl) refl (λ x xs. refl)
      refl 8 17 node pair (record (free_client) { addr = 17 }) free_entry no_stamps refl
      (omega arith) refl refl refl first_ok
