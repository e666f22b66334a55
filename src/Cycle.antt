-- ===== src/Cycle.antt =====
-- A cycle of transactions at the master, src/mesh_cli.c: an abstract machine of the nodes' packet states
-- and of the two FIFOs, and what a command does to what the machine sees of the master's state.
pub mod Frames
pub mod Tokens
pub mod Accepted
pub mod Handlers
pub mod Order
pub mod Stages
pub mod Rounds
pub mod Turns
pub mod Complete
use wbms.Prelude.{
  ℕ, ◌+◌, ◌%◌, ◌^◌, ◌==◌, ◌<◌, ◌≡◌, ◌∙◌, List, [], ◌∷◌, ◌++◌, map, get_elem?, set, some, false,
}
use wbms.Types.{PktS, rx_ok, tx_token, tx_ack, rx_data, batt_info_lost, eq_sys, BmsSt, FifoData}
use wbms.Bms.{Bms, Run, done, fault, no_fuel, Cmd, and_then}
use wbms.NetMgr.States.{node_idx}
use wbms.NetMgr.States.Protocol.{Follows}
use wbms.Total.Ready.{Views, Untouched, SameFifos}
use wbms.Invariant.Events.{Event, ok_received, data_received}

-- The last packet of each node, the nodes whose OKs and whose data are in the FIFOs, the OKs counted
-- since the tokens were last sent, and the number of nodes.
pub record Point : Type 0 where
  pub packets : List PktS
  pub waiting : List ℕ
  pub given : List ℕ
  pub counted : ℕ
  pub active : ℕ

abbrev pub packet_of : BmsSt → PktS
packet_of st = st.curr_pkt

abbrev pub addr_of : FifoData → ℕ
addr_of d = d.addr

-- The node's last packet is `p`.
abbrev pub Last : List PktS → ℕ → PktS → Type 0
Last packets a p = get_elem? packets (node_idx a) ≡ some p

abbrev pub put : List PktS → ℕ → PktS → List PktS
put packets a p = set packets (node_idx a) p

-- Acknowledgements to the nodes of a list, one after the other.
pub data Acks : List PktS → List ℕ → List PktS → Type 0 where
  acks_nil : {ps : List PktS} → Acks ps [] ps
  acks_cons :
      {ps qs : List PktS} {a : ℕ} {xs : List ℕ}
      → Last ps a rx_data
      → Acks (put ps a tx_ack) xs qs
      → Acks ps (a ∷ xs) qs

-- What `mercury_mesh_sendToken` does: a token to the first node that waits, or acknowledgements to all
-- that have given their data.
pub data Sends : Point → Point → Type 0 where
  sends_token :
      {ps : List PktS} {a : ℕ} {xs ds : List ℕ} {c m : ℕ}
      → Last ps a rx_ok
      → Sends
          (record { packets = ps; waiting = a ∷ xs; given = ds; counted = c; active = m })
          (record {
            packets = put ps a tx_token;
            waiting = xs;
            given = ds;
            counted = c;
            active = m;
          })
  sends_acks :
      {ps qs : List PktS} {ds : List ℕ} {c m : ℕ}
      → Acks ps ds qs
      → Sends
          (record { packets = ps; waiting = []; given = ds; counted = c; active = m })
          (record { packets = qs; waiting = []; given = []; counted = c; active = m })

-- The point behind a packet of a node.
abbrev pub after : Point → ℕ → PktS → Point
after x a p = record x { packets = put x.packets a p }

abbrev pub ok_in : Point → ℕ → Point
ok_in x a = record x {
  packets = put x.packets a rx_ok;
  waiting = x.waiting ++ (a ∷ []);
  counted = x.counted + 1;
}

abbrev pub data_in : Point → ℕ → Point
data_in x a = record x { packets = put x.packets a rx_data; given = x.given ++ (a ∷ []) }

-- A step of the machine, for an event: an OK that is not the last one, the last OK, and a data packet. The
-- node is the low byte of the sender, and not the master itself.
pub data Step : Point → Event → Point → Type 0 where
  ok_more :
      {x : Point} {sender : ℕ} {p : PktS} {buf : List ℕ}
      → (sender % 2 ^ 8 == 224) ≡ false
      → Last x.packets (sender % 2 ^ 8) p
      → Follows p rx_ok
      → x.counted + 1 < x.active
      → x.active < 256
      → Step x (ok_received sender buf) (ok_in x (sender % 2 ^ 8))
  ok_last :
      {x y : Point} {sender : ℕ} {p : PktS} {buf : List ℕ}
      → (sender % 2 ^ 8 == 224) ≡ false
      → Last x.packets (sender % 2 ^ 8) p
      → Follows p rx_ok
      → x.counted + 1 ≡ x.active
      → x.active < 256
      → Sends (ok_in x (sender % 2 ^ 8)) y
      → Step x (ok_received sender buf) (record y { counted = 0 })
  data_taken :
      {x y : Point} {sender : ℕ} {buf : List ℕ}
      → Last x.packets (sender % 2 ^ 8) tx_token
      → Sends (data_in x (sender % 2 ^ 8)) y
      → Step x (data_received sender buf) y

pub data Steps : Point → List Event → Point → Type 0 where
  steps_nil : {x : Point} → Steps x [] x
  steps_cons :
      {x y z : Point} {e : Event} {es : List Event} → Step x e y → Steps y es z → Steps x (e ∷ es) z

-- What the machine sees of the master's state.
pub record IsAt {W : Type 0} (v : Views W) (x : Point) (s : Bms W) : Type 0 where
  pub at_packets : map packet_of s.system_state_log ≡ x.packets
  pub at_waiting : map addr_of (v.addrs s.world) ≡ x.waiting
  pub at_given : map addr_of (v.datas s.world) ≡ x.given
  pub at_counted : s.addr_cnt ≡ x.counted
  pub at_active : s.hm.active ≡ x.active
  pub at_sys : eq_sys s.hm.curr_sys batt_info_lost ≡ false

-- A run that does not stop in `mercury_led_fatal`, and of which `Q` holds if it ends.
pub data Sees {W A : Type 0} (Q : A → Bms W → Type 0) : Run W A → Type 0 where
  sees_done : {a : A} {s : Bms W} → Q a s → Sees Q (done a s)
  sees_fault : Sees Q fault
  sees_no_fuel : Sees Q no_fuel

module _ {W A B : Type 0} {Q : A → Bms W → Type 0} {R : B → Bms W → Type 0} where
  pub bind :
      {r : Run W A} {k : A → Cmd W B}
      → Sees Q r
      → ((a : A) (s : Bms W) → Q a s → Sees R (k a s))
      → Sees R (and_then r k)
  bind (sees_done q) next = next _ _ q
  bind sees_fault next = sees_fault
  bind sees_no_fuel next = sees_no_fuel

-- A command that leaves what the machine sees.
abbrev pub Frame : {W A : Type 0} → Views W → Cmd W A → Type 0
Frame {W} v m = (x : Point) (s : Bms W) → IsAt v x s → Sees (λ _ s'. IsAt v x s') (m s)

-- A command that moves it from one point to another.
abbrev pub Moves : {W A : Type 0} → Views W → Point → Point → Cmd W A → Type 0
Moves {W} v x y m = (s : Bms W) → IsAt v x s → Sees (λ _ s'. IsAt v y s') (m s)

module _ {W : Type 0} {v : Views W} {x : Point} {s : Bms W} (h : IsAt v x s) where
  pub same-IsAt :
      (s' : Bms W)
      → map packet_of s'.system_state_log ≡ map packet_of s.system_state_log
      → s'.addr_cnt ≡ s.addr_cnt
      → s'.hm.active ≡ s.hm.active
      → s'.hm.curr_sys ≡ s.hm.curr_sys
      → Untouched v s'.world s.world
      → IsAt v x s'
  same-IsAt s' p c a y (f, g, r) = record {
    at_packets = p ∙ h.at_packets;
    at_waiting = rw f h.at_waiting;
    at_given = rw g h.at_given;
    at_counted = c ∙ h.at_counted;
    at_active = a ∙ h.at_active;
    at_sys = rw y h.at_sys;
  }

  pub fifos-IsAt : (w : W) → SameFifos v w s.world → IsAt v x (record s { world = w })
  fifos-IsAt w (f, g) = record {
    at_packets = h.at_packets;
    at_waiting = rw f h.at_waiting;
    at_given = rw g h.at_given;
    at_counted = h.at_counted;
    at_active = h.at_active;
    at_sys = h.at_sys;
  }

  pub world-IsAt : (w : W) → Untouched v w s.world → IsAt v x (record s { world = w })
  world-IsAt w (f, g, r) = fifos-IsAt w (f, g)
