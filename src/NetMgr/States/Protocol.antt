-- ===== src/NetMgr/States/Protocol.antt =====
-- What `mercury_netMgr_statesUpdate` accepts, against the transaction that the master and a node
-- go through, described on its own.
use wbms.Prelude.{◌≡◌, ◌↔◌, refl, true, false, arith, Bool-cases, inl, inr, if◌then◌else◌}
use wbms.Types.{
  PktS, no_info, rx_ok, tx_token, tx_ack, rx_data, tx_recover, NodeS, active, timeout_err, BmsSt,
}
use wbms.NetMgr.States.{states_step}

-- The transaction: OK, token, data, acknowledgement, and OK again; a recovery may come at any
-- time and lets the node begin with an OK, and so does a reset.
pub data Follows : PktS → PktS → Type 0 where
  first_ok : Follows no_info rx_ok
  next_ok : Follows tx_ack rx_ok
  recovered_ok : Follows tx_recover rx_ok
  token : Follows rx_ok tx_token
  reply : Follows tx_token rx_data
  acknowledge : Follows rx_data tx_ack
  recover : (p : PktS) → Follows p tx_recover
  reset : (p : PktS) → Follows p no_info

-- The event that the code writes as the previous one when it rejects an event.
abbrev pub expected : PktS → PktS
expected rx_ok = tx_ack
expected tx_token = rx_ok
expected rx_data = tx_token
expected tx_ack = rx_data
expected tx_recover = no_info
expected no_info = no_info

-- The node state that an accepted event leads to.
abbrev pub node_after : PktS → NodeS → NodeS
node_after rx_ok n = active
node_after tx_recover n = timeout_err
node_after _ n = n

follows_of_accepted :
    (curr prev : PktS) (st : BmsSt)
    → st.curr_pkt ≡ prev
    → (states_step curr st).1 ≡ false
    → Follows prev curr
unfolding states_step
follows_of_accepted no_info prev st e h = reset prev
follows_of_accepted tx_recover prev st e h = recover prev
follows_of_accepted rx_ok no_info st e h = first_ok
follows_of_accepted rx_ok tx_ack st e h = next_ok
follows_of_accepted rx_ok tx_recover st e h = recovered_ok
follows_of_accepted tx_token rx_ok st e h = token
follows_of_accepted rx_data tx_token st e h = reply
follows_of_accepted tx_ack rx_data st e h = acknowledge
follows_of_accepted _ _ st e h = absurd (ground arith)

accepted_of_follows :
    {prev curr : PktS} (st : BmsSt)
    → Follows prev curr
    → st.curr_pkt ≡ prev
    → (states_step curr st).1 ≡ false
unfolding states_step
accepted_of_follows st first_ok e = ground arith
accepted_of_follows st next_ok e = ground arith
accepted_of_follows st recovered_ok e = ground arith
accepted_of_follows st token e = ground arith
accepted_of_follows st reply e = ground arith
accepted_of_follows st acknowledge e = ground arith
accepted_of_follows st (recover p) e = ground arith
accepted_of_follows st (reset p) e = ground arith

-- An event is accepted exactly when it follows the node's last accepted event in the transaction.
pub states_step-Follows :
    (curr : PktS) (st : BmsSt) → ((states_step curr st).1 ≡ false) ↔ Follows st.curr_pkt curr
states_step-Follows curr st =
    (follows_of_accepted curr st.curr_pkt st refl, λ f. accepted_of_follows st f refl)

-- An accepted event becomes the last one, what was the last one becomes the previous one, and the
-- node's state moves on: to ACTIVE by an OK, to TIMEOUT_ERR by a recovery, else it stays.
states_step_accepted :
    (curr : PktS) (st : BmsSt)
    → (states_step curr st).1 ≡ false
    → (states_step curr st).0 ≡ record {
      prev_pkt = st.curr_pkt;
      curr_pkt = curr;
      prev_node = st.curr_node;
      curr_node = node_after curr st.curr_node;
    }
unfolding states_step
states_step_accepted curr st h = ground arith

-- A rejected event changes the recorded previous event, to the one that was expected, and nothing
-- else: in particular the node's state does not become PKT_ST_ERR.
pub states_step_rejected :
    (curr : PktS) (st : BmsSt)
    → (states_step curr st).1 ≡ true
    → (states_step curr st).0 ≡ record st { prev_pkt = expected curr }
unfolding states_step
states_step_rejected curr st h = ground arith

-- After an accepted event it is the last one, the last one is the previous one, and the node's state has
-- become ACTIVE by an OK, TIMEOUT_ERR by a recovery, and stays otherwise; a rejected event changes only
-- the recorded previous event, to the one that was expected: the node's state does not become PKT_ST_ERR.
pub states_step_outcome :
    (curr : PktS) (st : BmsSt)
    → (states_step curr st).0 ≡ (
        if (states_step curr st).1 then record st { prev_pkt = expected curr } else record {
          prev_pkt = st.curr_pkt;
          curr_pkt = curr;
          prev_node = st.curr_node;
          curr_node = node_after curr st.curr_node;
        })
states_step_outcome curr st = elim (Bool-cases (states_step curr st).1) [
  | inl wrong ↦ rw wrong (states_step_rejected curr st wrong)
  | inr right ↦ rw right (states_step_accepted curr st right)
]
