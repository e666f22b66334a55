-- ===== src/Kernel.antt =====
-- What the program uses of Zephyr, of its C library's CRC, and of the FNV code that stands in
-- src/fnv.c: an interface, over an abstract state `W` of the kernel (queues, timers, heap, radio,
-- clock). A received buffer is the list of its bytes. `mod Laws` states the documented behaviour of the
-- queues that theorems rely on.
pub mod Laws
pub mod Simulated
use wbms.Prelude.{ℕ, Bool, Option, List}
use wbms.Types.{TxTokPkt, RxCvPkt, Lat, FifoData, Message, Timer}

-- `k_msgq_num_used_get`, `k_msgq_get` and `k_msgq_put` with K_NO_WAIT: `get` is `none` when it
-- returns an error, and `put` is `true` when it does.
pub record Msgq (W A : Type 0) : Type 0 where
  pub num_used : W → ℕ
  pub get : W → Option A × W
  pub put : A → W → Bool × W

-- `k_fifo_is_empty`, `k_fifo_get` with K_NO_WAIT (`none` for NULL) and `k_fifo_put`.
pub record Fifo (W A : Type 0) : Type 0 where
  pub is_empty : W → Bool
  pub get : W → Option A × W
  pub put : A → W → W

pub record Kernel (W : Type 0) : Type 0 where
  -- `k_uptime_get_32`
  pub uptime : W → ℕ × W
  -- `bt_mesh_model_send`: `true` for a non-zero return
  pub mesh_send : Message → W → Bool × W
  -- `k_malloc`: `false` for NULL
  pub malloc : W → Bool × W
  -- `k_free`
  pub release : W → W
  -- `k_timer_start` with a duration in milliseconds, `k_timer_stop`, `k_timer_remaining_get`
  pub timer_start : Timer → ℕ → W → W
  pub timer_stop : Timer → W → W
  pub timer_remaining : Timer → W → ℕ
  -- `net_buf_simple_pull_u8`, `_le16`, `_le32`: `none` when the buffer is too short, which the
  -- kernel asserts
  pub pull_u8 : List ℕ → Option (ℕ × List ℕ)
  pub pull_le16 : List ℕ → Option (ℕ × List ℕ)
  pub pull_le32 : List ℕ → Option (ℕ × List ℕ)
  -- the program's queues
  pub rx_msgq : Msgq W RxCvPkt
  pub tx_msgq : Msgq W TxTokPkt
  pub addr_fifo : Fifo W FifoData
  pub data_addr_fifo : Fifo W FifoData
  pub hil_txqueue : Fifo W Lat
  -- `crc16_ansi` of the bytes of an array
  pub crc16_ansi : List ℕ → ℕ
  -- `fnv_32a_str` of a string's bytes, from an initial value
  pub fnv_32a_str : List ℕ → ℕ → ℕ
