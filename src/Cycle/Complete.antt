-- ===== src/Cycle/Complete.antt =====
-- Whole cycles of transactions: every node sends its OK, is given a token, sends its data and gets an
-- acknowledgement, and the master is ready for the next cycle.
use wbms.Prelude.{ℕ, suc, ◌*◌, ◌<◌, ◌≡◌, refl, ap, ◌∙◌, false, List, [], ◌∷◌, ◌++◌, map, arith}
use wbms.Types.{PktS, rx_ok, tx_ack, batt_info_lost, eq_sys, Message}
use wbms.Kernel.{Kernel}
use wbms.Bms.{Bms, Run, done, halted, fault, no_fuel, Cmd, and_then}
use wbms.NetMgr.States.Protocol.{Follows, next_ok}
use wbms.Invariant.Consistent.{IsConsistent}
use wbms.Invariant.Events.{Event, handle, handle_all}
use wbms.Total.Ready.{Ends, ends, stops, Views, IsReliable, InNode, IsFormed, IsReady}
use wbms.Total.Events.{handle_all-Ends}
use wbms.Cycle.{packet_of, addr_of, Last, IsAt, Sees, sees_done}
use wbms.Cycle.Order.{span}
use wbms.Cycle.Rounds.{oks_at}
use wbms.Cycle.Handlers.{handle_all-Steps}
use wbms.Cycle.Turns.{Turn, turn_events, all_events, length-turn_events, turn-AllFit, turn-Steps}

-- The master between two cycles: the FIFOs are empty, no OK is counted, all nodes are active, and an OK
-- of any of them would be accepted.
pub record AtRest {W : Type 0} (v : Views W) (n : ℕ) (table : List ℕ) (s : Bms W) : Type 0 where
  pub ready : IsReady v n table 0 0 s
  pub consistent : IsConsistent n s
  pub no_addrs : v.addrs s.world ≡ []
  pub no_datas : v.datas s.world ≡ []
  pub counted : s.addr_cnt ≡ 0
  pub active : s.hm.active ≡ n
  pub well : eq_sys s.hm.curr_sys batt_info_lost ≡ false
  pub willing :
      (a : ℕ)
      → InNode n a
      → (p : PktS) × Last (map packet_of s.system_state_log) a p × Follows p rx_ok

module _ {W A : Type 0} {Q : Bms W → Type 0} {R : A → Bms W → Type 0} where
  -- A run that ends, and that does not stop in `mercury_led_fatal`, is done.
  ended :
      {r : Run W A}
      → Ends (λ _ s. Q s) r
      → Sees R r
      → (a : A) × (s : Bms W) × (r ≡ done a s) × Q s × R a s
  ended (ends {a} {s} q) (sees_done r) = (a, s, refl, q, r)
  ended stops seen = elim seen [ ]

and_then_assoc :
    {W : Type 0} (r : Run W (Unit {0})) (f g h : Cmd W (Unit {0}))
    → ((s : Bms W) → h s ≡ and_then (f s) (λ _. g))
    → and_then r (λ _. h) ≡ and_then (and_then r (λ _. f)) (λ _. g)
and_then_assoc (done tt s) f g h same = same s
and_then_assoc (halted i s) f g h same = refl
and_then_assoc fault f g h same = refl
and_then_assoc no_fuel f g h same = refl

module _ {W : Type 0} ⦃k : Kernel W⦄ where
  handle_all-append :
      (fuel : ℕ) (es fs : List Event) (s : Bms W)
      → handle_all fuel (es ++ fs) s ≡ and_then (handle_all fuel es s) (λ _. handle_all fuel fs)
  unfolding handle_all
  handle_all-append fuel [] fs s = refl
  handle_all-append fuel (e ∷ es) fs s =
      and_then_assoc (handle fuel e s) (handle_all fuel es) (handle_all fuel fs)
        (handle_all fuel (es ++ fs)) (handle_all-append fuel es fs)

map-nil : {A B : Type 0} (f : A → B) (l : List A) → map f l ≡ [] → l ≡ []
map-nil f [] e = refl
map-nil f (x ∷ xs) e = cc

module _ {W : Type 0} {v : Views W} {n p q : ℕ} {table : List ℕ} {s : Bms W} where
  -- With empty FIFOs there is room for none.
  emptied :
      v.addrs s.world ≡ []
      → v.datas s.world ≡ []
      → IsReady v n table p q s
      → IsReady v n table 0 0 s
  emptied a d h = record {
    clients = h.clients;
    nodes = h.nodes;
    transactions = h.transactions;
    packets = h.packets;
    latencies = h.latencies;
    active = h.active;
    known_addrs = h.known_addrs;
    known_datas = h.known_datas;
    known_received = h.known_received;
    few_addrs = rw a (omega arith);
    few_datas = rw d (omega arith);
  }

module _ {W : Type 0} ⦃k : Kernel W⦄ {v : Views W} {m : ℕ} {table : List ℕ} (law : IsReliable k v)
    (net : IsFormed (suc m) table)
    (heard : (msg : Message) (w : W) → (k.mesh_send msg w).0 ≡ false) where
  -- One cycle.
  turn-AtRest :
      (fuel : ℕ) (t : Turn (suc m)) (s : Bms W)
      → 2 * suc m < fuel
      → AtRest v (suc m) table s
      → (s' : Bms W) × (handle_all fuel (turn_events t) s ≡ done tt s')
        × AtRest v (suc m) table s'
        × ((a : ℕ) → InNode (suc m) a → Last (map packet_of s'.system_state_log) a tx_ack)
  unfolding span
  turn-AtRest fuel t s enough h =
      let ps = map packet_of s.system_state_log in
      let (qs, steps, closed) = turn-Steps t ps h.willing in
      let here : IsAt v (oks_at (suc m) t.adr ps 0) s = record {
        at_packets = refl;
        at_waiting = ap (λ l. map addr_of l) h.no_addrs;
        at_given = ap (λ l. map addr_of l) h.no_datas;
        at_counted = h.counted;
        at_active = h.active;
        at_sys = h.well;
      } in
      let many = length-turn_events t in
      let (a, s', ran, (fine, ready), at) =
        ended
          (handle_all-Ends law net fuel 0 0 (turn_events t) s (omega (arith, many, enough))
            (omega (arith, many, enough)) (turn-AllFit t) h.ready h.consistent)
          (handle_all-Steps law heard fuel (turn_events t) _ _ steps s here) in
      let no_addrs = map-nil addr_of (v.addrs s'.world) at.at_waiting in
      let no_datas = map-nil addr_of (v.datas s'.world) at.at_given in
      let acked : (b : ℕ) → InNode (suc m) b → Last (map packet_of s'.system_state_log) b tx_ack =
        λ b inside. rw at.at_packets (closed b inside) in
      (
        s',
        ran,
        record {
          ready = emptied no_addrs no_datas ready;
          consistent = fine;
          no_addrs = no_addrs;
          no_datas = no_datas;
          counted = at.at_counted;
          active = at.at_active;
          well = at.at_sys;
          willing = λ b inside. (tx_ack, acked b inside, next_ok);
        },
        acked,
      )

  -- With at most 16 nodes that have all joined and are all active, a kernel that has memory and keeps its
  -- queues apart, a mesh that takes every message, and more fuel than there are packets in a cycle: from
  -- a master at rest, in which an OK of every node would be accepted, one or more cycles, in each of
  -- which all nodes send their OKs, of at least two bytes, in an order of its own and then their data, of
  -- at least 22, in that order, are handled to their end without a stop in `mercury_led_fatal`. The
  -- master is at rest again, with empty FIFOs, and the last packet of every node is an acknowledgement.
  pub handle_all-AtRest :
      (fuel : ℕ) (t : Turn (suc m)) (ts : List (Turn (suc m))) (s : Bms W)
      → 2 * suc m < fuel
      → AtRest v (suc m) table s
      → (s' : Bms W) × (handle_all fuel (all_events (t ∷ ts)) s ≡ done tt s')
        × AtRest v (suc m) table s'
        × ((a : ℕ) → InNode (suc m) a → Last (map packet_of s'.system_state_log) a tx_ack)
  unfolding all_events handle_all
  handle_all-AtRest fuel t [] s enough h =
      let (s', ran, rest, acked) = turn-AtRest fuel t s enough h in
      let after = ap (λ r. and_then r (λ _. handle_all fuel [])) ran in
      (s', handle_all-append fuel (turn_events t) [] s ∙ after, rest, acked)
  handle_all-AtRest fuel t (u ∷ us) s enough h =
      let (s', ran, rest, acked) = turn-AtRest fuel t s enough h in
      let (z, then, at_end, all_acked) = handle_all-AtRest fuel u us s' enough rest in
      let next = all_events (u ∷ us) in
      let after = ap (λ r. and_then r (λ _. handle_all fuel next)) ran in
      (z, handle_all-append fuel (turn_events t) next s ∙ after ∙ then, at_end, all_acked)
