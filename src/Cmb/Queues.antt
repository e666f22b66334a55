-- ===== src/Cmb/Queues.antt =====
-- The two message queues of a node, the CMB part of src/hg_netMgr.c. A fetch waits as long as its queue
-- is empty, and a push makes room as that of the master does.
use wbms.Prelude.{ℕ, Option, List}
use wbms.Kernel.{Msgq}
use wbms.NetMgr.Queues.{push}

-- `t_rx` and `t_tx`
pub record RxMsg : Type 0 where
  pub token : ℕ
  pub ts : ℕ

pub record TxMsg : Type 0 where
  pub cv : List ℕ
  pub token : ℕ
  pub crc : ℕ
  pub ts : ℕ

module _ {W : Type 0} where
  -- `message_dev_fetchTX` and `message_dev_fetchRX`: `none` while they wait, with K_FOREVER
  unfoldable pub wait_tx : Msgq W TxMsg → W → Option TxMsg × W
  wait_tx tx_msgq w = tx_msgq.get w

  unfoldable pub wait_rx : Msgq W RxMsg → W → Option RxMsg × W
  wait_rx rx_msgq w = rx_msgq.get w

  -- `message_dev_pushQTX` and `message_dev_pushQRX`
  unfoldable pub push_tx : Msgq W TxMsg → TxMsg → W → W
  push_tx tx_msgq m w = push tx_msgq 40 m w

  unfoldable pub push_rx : Msgq W RxMsg → RxMsg → W → W
  push_rx rx_msgq m w = push rx_msgq 6 m w
