-- ===== src/NetMgr/Queues.antt =====
-- The master's two message queues, src/hg_netMgr.c: received data packets (`rx_msgq`), which the
-- diagnostic thread drains, and the tokens sent (`tx_msgq`), against which they are checked.
pub mod Push
pub mod Find
use wbms.Prelude.{
  ℕ, zero, suc, Bool, true, false, ◌&&◌, Option, none, some, ltb, leb, ◌==◌, if◌then◌else◌,
}
use wbms.Types.{TxTokPkt, RxCvPkt}
use wbms.Kernel.{Msgq, Kernel}
use wbms.Bms.{Bms, done, Cmd, ◌>>=◌, ◌>>◌, call}

-- `k_msgq_get` into `*m`: what `*m` holds afterwards.
abbrev pub overwritten : {A : Type 0} → A → Option A → A
overwritten m none = m
overwritten m (some x) = x

-- The body that `message_dev_pushQTX` and `message_dev_pushQRX` share. When the queue is full the
-- oldest packet is read into `*m`, and `*m` is what is put.
unfoldable pub push : {W A : Type 0} → Msgq W A → ℕ → A → W → W
push q size m w =
    if leb size (q.num_used w)
    then (let (oldest, w') = q.get w in (q.put (overwritten m oldest) w').1)
    else (q.put m w).1

-- The rounds of the loop in `message_dev_searchTX`: one packet is taken off the queue in each,
-- until one matches.
unfoldable pub search_rounds : {W : Type 0} → Msgq W TxTokPkt → ℕ → RxCvPkt → W → Bool × W
search_rounds q zero rxmsg w = (false, w)
search_rounds q (suc n) rxmsg w =
    let (txmsg, w') = q.get w in
    elim txmsg [
      | none ↦ search_rounds q n rxmsg w'
      | some t ↦ elim (t.token == rxmsg.token && t.addr == rxmsg.addr) [
        | true ↦ (true, w')
        | false ↦ search_rounds q n rxmsg w'
      ]
    ]

module _ {W : Type 0} ⦃k : Kernel W⦄ where
  -- `message_dev_pushQTX`, with SIZE_OF_TXQUEUE = 40
  unfoldable pub push_qtx : TxTokPkt → Cmd W (Unit {0})
  unfolding push
  push_qtx m s = done tt (record s { world = push k.tx_msgq 40 m s.world })

  -- `message_dev_pushQRX`, with SIZE_OF_RXQUEUE = 6
  unfoldable pub push_qrx : RxCvPkt → Cmd W (Unit {0})
  unfolding push
  push_qrx m s = done tt (record s { world = push k.rx_msgq 6 m s.world })

  -- `message_dev_fetchTX` and `message_dev_fetchRX`: `none` for the return value 0
  unfoldable pub fetch_tx : Cmd W (Option TxTokPkt)
  fetch_tx = call k.tx_msgq.get

  unfoldable pub fetch_rx : Cmd W (Option RxCvPkt)
  fetch_rx = call k.rx_msgq.get

  -- `message_dev_searchTX`: whether a token that was sent to this node matches. The parameter
  -- `matched` is assigned only locally, so no packet comes back.
  unfoldable pub search_tx : RxCvPkt → Cmd W Bool
  unfolding search_rounds
  search_tx rxmsg = call (λ w. search_rounds k.tx_msgq (k.tx_msgq.num_used w) rxmsg w)
