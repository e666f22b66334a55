-- ===== src/NetMgr/States/Trace.antt =====
-- A node's state machine over a whole history of events, in the order in which they reach
-- `mercury_netMgr_statesUpdate`.
use wbms.Prelude.{ℕ, ◌+◌, ◌≤◌, List, [], ◌∷◌, arith, if◌then◌else◌}
use wbms.Types.{
  PktS, no_info, rx_ok, tx_token, tx_ack, rx_data, tx_recover, BmsSt, inactive, eq_pkt,
}
use wbms.NetMgr.States.{states_step}

-- The events that are accepted, in order, and the entry at the end.
unfoldable pub run : BmsSt → List PktS → List PktS × BmsSt
run st [] = ([], st)
run st (e ∷ es) =
    let (st', err) = states_step e st in
    let (seen, last) = run st' es in (if err then seen else e ∷ seen, last)

pub count : PktS → List PktS → ℕ
count p [] = 0
count p (e ∷ es) = (if eq_pkt p e then 1 else 0) + count p es

-- The entry that `mercury_netMgr_InitState` leaves.
abbrev pub initial : BmsSt
initial = record {
  prev_pkt = no_info;
  curr_pkt = no_info;
  prev_node = inactive;
  curr_node = inactive;
}

-- 1 if the last accepted event has opened a stage that is not yet closed by the next one
abbrev ok_open : PktS → ℕ
ok_open rx_ok = 1
ok_open _ = 0

abbrev token_open : PktS → ℕ
token_open tx_token = 1
token_open _ = 0

abbrev data_open : PktS → ℕ
data_open rx_data = 1
data_open _ = 0

-- 1 if the machine waits for an OK
abbrev idle : PktS → ℕ
idle no_info = 1
idle tx_ack = 1
idle tx_recover = 1
idle _ = 0

-- Every token, every data packet and every acknowledgement that the machine lets through answers
-- one of the stage before, taken from the entry it starts with; and an OK needs an acknowledgement, a
-- recovery or a reset before it.
pub stages_from :
    (st : BmsSt) (es : List PktS)
    → let seen = (run st es).0 in
      (count tx_token seen ≤ count rx_ok seen + ok_open st.curr_pkt)
      × (count rx_data seen ≤ count tx_token seen + token_open st.curr_pkt)
      × (count tx_ack seen ≤ count rx_data seen + data_open st.curr_pkt)
      × (count rx_ok seen
          ≤ count tx_ack seen + count tx_recover seen + count no_info seen + idle st.curr_pkt)
unfolding run count states_step
stages_from st [] = ground arith
stages_from st (e ∷ es) = ground (arith, stages_from (states_step e st).0 es)

-- In any history of a node that starts as `mercury_netMgr_InitState` leaves it, the master accepts
-- at most one token for each OK, one data packet for each token, and one acknowledgement for each
-- data packet; and at most one OK more than the acknowledgements, recoveries and resets together.
pub stages_ordered :
    (es : List PktS)
    → let seen = (run initial es).0 in
      (count tx_token seen ≤ count rx_ok seen)
      × (count rx_data seen ≤ count tx_token seen)
      × (count tx_ack seen ≤ count rx_data seen)
      × (count rx_ok seen ≤ count tx_ack seen + count tx_recover seen + count no_info seen + 1)
stages_ordered es = omega (arith, stages_from initial es)
