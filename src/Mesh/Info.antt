-- ===== src/Mesh/Info.antt =====
-- What the master records when a message has come or gone: the `update...Info` functions of
-- src/hg_mesh.c.
use wbms.Prelude.{ℕ, zero, suc, ◌-◌, Bool, none, some, List, [], ◌∷◌, leb, if◌then◌else◌, inc_u16}
use wbms.Types.{rx_ok, tx_token, tx_ack, rx_data, tx_recover, pkt_st_err, no_issues, started}
use wbms.Kernel.{Kernel}
use wbms.Bms.{done, fault, Cmd, pure, ◌>>=◌, ◌>>◌, modify, call, need, update_at}
use wbms.NetMgr.States.{states_update, update_system_state}
use wbms.NetMgr.Counters.{transaction_update, packet_count_update, error_count_update}
use wbms.NetMgr.Latency.{log_write_time}
use wbms.NetMgr.Queues.{push_qtx, push_qrx}

module _ {W : Type 0} where
  -- `updateRejectedMsgInfo`
  unfoldable pub update_rejected_msg_info : ℕ → Cmd W (Unit {0})
  update_rejected_msg_info dst = error_count_update dst pkt_st_err

  -- `updateRecoverInfo`
  unfoldable pub update_recover_info : ℕ → Cmd W (Unit {0})
  update_recover_info dst = do _ ← states_update dst tx_recover; packet_count_update dst tx_recover

  -- `NetState.client[senderAddr - BASE_ADDR].diag.lastReceivedOk = t`; here the index is an `int`
  unfoldable pub write_last_ok : ℕ → ℕ → Cmd W (Unit {0})
  write_last_ok sender t s =
      if leb 16 sender
      then (elim (update_at s.client (sender - 16)
          (λ c. record c { diag = record (c.diag) { last_received_ok = t } })) [
            | none ↦ fault
            | some l ↦ done tt (record s { client = l })
          ])
      else fault

module _ {W : Type 0} ⦃k : Kernel W⦄ where
  -- `updateACKInfo`
  unfoldable pub update_ack_info : ℕ → Cmd W (Unit {0})
  update_ack_info dst = do
    _ ← states_update dst tx_ack
    log_write_time dst tx_ack
    packet_count_update dst tx_ack
    update_system_state no_issues

  -- The loop that pulls the cell values, by the values left.
  unfoldable pub pull_cells : ℕ → List ℕ → Cmd W (List ℕ × List ℕ)
  pull_cells zero buf = pure ([], buf)
  pull_cells (suc n) buf = do
    (v, buf) ← need (k.pull_u8 buf)
    (vs, buf) ← pull_cells n buf
    pure (v ∷ vs, buf)

  -- The part of `updateDataInfo` for a packet that the state machine accepts.
  unfoldable pub take_data : List ℕ → ℕ → Cmd W (Unit {0})
  take_data buf sender = do
    log_write_time sender rx_data
    t ← call k.uptime
    (vs, buf) ← pull_cells 16 buf
    (token, buf) ← need (k.pull_le32 buf)
    (pec, _) ← need (k.pull_le16 buf)
    push_qrx (record { addr = sender; token = token; cells = vs; pec = pec; ts = t })
    modify (λ s. record s { msg_cnt = inc_u16 s.msg_cnt })
    packet_count_update sender rx_data

  -- `updateDataInfo`: the flag of the state machine
  unfoldable pub update_data_info : List ℕ → ℕ → Cmd W Bool
  update_data_info buf sender = do
    err ← states_update sender rx_data
    (if err then pure tt else take_data buf sender)
    pure err

  -- The part of `updateOKInfo` for an OK that the state machine accepts.
  unfoldable pub take_ok : List ℕ → ℕ → Cmd W (Unit {0})
  take_ok buf sender = do
    log_write_time sender rx_ok
    (n, _) ← need (k.pull_u8 buf)
    modify (λ s. record s { rx_counter = n })
    transaction_update sender started
    packet_count_update sender rx_ok

  -- `updateOKInfo`
  unfoldable pub update_ok_info : List ℕ → ℕ → Cmd W Bool
  update_ok_info buf sender = do
    err ← states_update sender rx_ok
    t ← call k.uptime
    write_last_ok sender t
    (if err then pure tt else take_ok buf sender)
    pure err

  -- `updateTokenInfo`: the flag of the state machine is not looked at
  unfoldable pub update_token_info : ℕ → ℕ → Cmd W (Unit {0})
  update_token_info token dst = do
    t ← call k.uptime
    n ← (λ s. done s.rx_counter s)
    log_write_time dst tx_token
    _ ← states_update dst tx_token
    push_qtx (record { addr = dst; ts = t; token = token; rx_cnt = n })
    packet_count_update dst tx_token
