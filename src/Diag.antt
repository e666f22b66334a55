-- ===== src/Diag.antt =====
-- The diagnostic thread of the master, src/app_master.c: each received data packet is checked
-- against the tokens that were sent and against its CRC.
pub mod Verify
use wbms.Prelude.{
  ℕ, zero, suc, ◌+◌, ◌&&◌, Bool, true, false, none, some, Option, List, get_elem?, ltb, ◌==◌,
  if◌then◌else◌, dec_u8, sub_u32,
}
use wbms.Types.{
  NodeS, inactive, token_mismatch, pec_failed, TransS, rejected, ended, RxCvPkt, BmsSt, HgNetClient,
}
use wbms.Kernel.{Kernel}
use wbms.Bms.{Bms, Run, done, fault, Cmd, pure, ◌>>=◌, ◌>>◌, modify, call, update_at}
use wbms.NetMgr.States.{node_idx, update_node_state}
use wbms.NetMgr.Counters.{transaction_update, error_count_update}
use wbms.NetMgr.Queues.{search_tx, fetch_rx}

module _ {W : Type 0} where
  -- `systemStateLog[nodeIdx].currNode = x`
  unfoldable pub write_node : ℕ → NodeS → Cmd W (Unit {0})
  unfolding node_idx
  write_node addr x s =
      elim (update_at s.system_state_log (node_idx addr) (λ st. record st { curr_node = x })) [
        | none ↦ fault
        | some l ↦ done tt (record s { system_state_log = l })
      ]

  -- `NetState.client[nodeIdx].diag.lastUpdated = t`
  unfoldable pub write_last_updated : ℕ → ℕ → Cmd W (Unit {0})
  unfolding node_idx
  write_last_updated addr t s =
      elim (update_at s.client (node_idx addr)
        (λ c. record c { diag = record (c.diag) { last_updated = t } })) [
          | none ↦ fault
          | some l ↦ done tt (record s { client = l })
        ]

  -- The three steps for a packet that fails a check.
  unfoldable pub refuse : ℕ → NodeS → Cmd W (Unit {0})
  unfolding write_node
  refuse addr x = do transaction_update addr rejected; write_node addr x; error_count_update addr x

-- `crc16Check`, with `crc16_ansi` over the LTC_NCELLS cells as a function of them
unfoldable pub crc16_check : (List ℕ → ℕ) → RxCvPkt → Bool
crc16_check crc16_ansi m = crc16_ansi m.cells == m.pec

module _ {W : Type 0} ⦃k : Kernel W⦄ where
  -- `diag_verifyRxData`
  unfoldable pub verify_rx_data : RxCvPkt → Cmd W (Unit {0})
  unfolding crc16_check refuse
  verify_rx_data m = do
    found ← search_tx m
    (if found then pure tt else refuse m.addr token_mismatch)
    (if crc16_check k.crc16_ansi m
        then transaction_update m.addr ended
        else refuse m.addr pec_failed)
    t ← call k.uptime
    write_last_updated m.addr t

  -- One round of the loop of `diag_fn`.
  unfoldable pub diag_round : Cmd W (Unit {0})
  unfolding verify_rx_data
  diag_round = fetch_rx >>= elim [ none ↦ pure tt | some m ↦ verify_rx_data m ]

-- Of `diag_checkNodePresence`, the writes for an active node whose last OK is older than
-- CMB_MSG_TIMEOUT ms.
unfoldable pub drop_node : {W : Type 0} → ℕ → Cmd W (Unit {0})
drop_node i = do
  update_node_state (i + 16) inactive
  λ s. elim (update_at s.client i (λ c. record c { diag = record (c.diag) { is_active = 0 } })) [
    | none ↦ fault
    | some l ↦ done tt (record s { client = l; hm = record (s.hm) { active = dec_u8 s.hm.active } })
  ]

-- One round of its loop, at the time `now`.
unfoldable pub presence_entry : {W : Type 0} → ℕ → ℕ → Cmd W (Unit {0})
unfolding drop_node
presence_entry now i s = elim (get_elem? s.client i) [
  | none ↦ fault
  | some c ↦
      if ltb 5000 (sub_u32 now c.diag.last_received_ok) && c.diag.is_active == 1
      then drop_node i s
      else done tt s
]

-- The loop, by the rounds left.
unfoldable pub presence_loop : {W : Type 0} → ℕ → ℕ → ℕ → Cmd W (Unit {0})
unfolding presence_entry
presence_loop now zero i = pure tt
presence_loop now (suc r) i = presence_entry now i >> presence_loop now r (i + 1)
