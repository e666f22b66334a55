-- ===== src/Tests/Machine.antt =====
-- The theorems on a node's state machine, at inputs of the transaction.
use wbms.Prelude.{◌+◌, ◌≤◌, ◌≡◌, ◌↔◌, refl, false, List, [], ◌∷◌}
use wbms.Types.{PktS, no_info, rx_ok, tx_token, tx_ack, rx_data, tx_recover, active, BmsSt}
use wbms.NetMgr.States.{states_step}
use wbms.NetMgr.States.Protocol.{Follows, states_step-Follows}
use wbms.NetMgr.States.Trace.{run, count, initial, stages_from, stages_ordered}

abbrev waiting : BmsSt
waiting = record { prev_pkt = tx_ack; curr_pkt = rx_ok; prev_node = active; curr_node = active }

states_step-Follows_example : ((states_step tx_token waiting).1 ≡ false) ↔ Follows rx_ok tx_token
states_step-Follows_example = states_step-Follows tx_token waiting

-- Two full transactions, with data that comes twice and a lost node in between.
abbrev history : List PktS
history =
    rx_ok ∷ tx_token ∷ rx_data ∷ rx_data ∷ tx_ack ∷ rx_ok ∷ tx_recover ∷ rx_data ∷ rx_ok ∷ tx_token
    ∷ []

stages_from_example :
    let seen = (run waiting history).0 in
    (count tx_token seen ≤ count rx_ok seen + 1)
    × (count rx_data seen ≤ count tx_token seen + 0)
    × (count tx_ack seen ≤ count rx_data seen + 0)
    × (count rx_ok seen ≤ count tx_ack seen + count tx_recover seen + count no_info seen + 0)
stages_from_example = stages_from waiting history

stages_ordered_example :
    let seen = (run initial history).0 in
    (count tx_token seen ≤ count rx_ok seen)
    × (count rx_data seen ≤ count tx_token seen)
    × (count tx_ack seen ≤ count rx_data seen)
    × (count rx_ok seen ≤ count tx_ack seen + count tx_recover seen + count no_info seen + 1)
stages_ordered_example = stages_ordered history

-- What the machine lets through of it.
history_accepted :
    (run initial history).0
    ≡ rx_ok ∷ tx_token ∷ rx_data ∷ tx_ack ∷ rx_ok ∷ tx_recover ∷ rx_ok ∷ tx_token ∷ []
unfolding run states_step
history_accepted = refl
