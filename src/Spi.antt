-- ===== src/Spi.antt =====
-- Transfers over SPI, src/hg_spi.c, with the chip at the other end as a parameter. The transfer itself,
-- which the SPIM peripheral makes from and to memory, is one step.
pub mod Sequence
pub mod Setup
use wbms.Prelude.{
  ℕ, zero, suc, ◌+◌, Bool, not, Option, none, some, List, [], ◌∷◌, length, get_elem?,
}

-- What the chip makes of the bytes that are clocked out, and of the number that is received, when it is
-- selected or not: what is received.
pub record Chip (S : Type 0) : Type 0 where
  pub transfer : Bool → List ℕ → ℕ → S → List ℕ × S

-- The level of the chip select pin, RXD.MAXCNT as the last transfer has left it, and how many bytes were
-- received where the receive buffer of an earlier transfer was.
pub record Bus (S : Type 0) : Type 0 where
  pub high : Bool
  pub rxd_max_len : ℕ
  pub stray : ℕ
  pub chip : S

-- The loop at the end of `mercury_spi_read_seq`, by the rounds left: what it puts into `rx_data` from the
-- index `i` on, and `none` beyond the end of `RXBuffer`.
unfoldable pub copy_rx : ℕ → ℕ → ℕ → List ℕ → Option (List ℕ)
copy_rx zero i tx_len buf = some []
copy_rx (suc n) i tx_len buf =
    let rest = copy_rx n (i + 1) tx_len buf in
    elim (get_elem? buf (i + tx_len)) [
      | none ↦ none
      | some x ↦ elim rest [ none ↦ none | some xs ↦ some (x ∷ xs) ]
    ]

module _ {S : Type 0} (chip : Chip S) where
  -- `mercury_spi_write`. It sets the registers of what is sent alone: what is received meanwhile goes to
  -- where the last `mercury_spi_read` or `mercury_spi_read_seq` has pointed.
  unfoldable pub spi_write : List ℕ → Bus S → Bus S
  spi_write src b =
      let (got, s) = chip.transfer (not b.high) src b.rxd_max_len b.chip in
      record b { stray = b.stray + b.rxd_max_len; chip = s }

  -- `mercury_spi_read`
  unfoldable pub spi_read : List ℕ → ℕ → Bus S → List ℕ × Bus S
  spi_read tx_data rx_len b =
      let (got, s) = chip.transfer (not b.high) tx_data rx_len b.chip in
      (got, record b { rxd_max_len = rx_len; chip = s })

  -- `mercury_spi_read_seq`
  unfoldable pub spi_read_seq : List ℕ → ℕ → Bus S → Option (List ℕ) × Bus S
  unfolding copy_rx spi_read
  spi_read_seq tx_data rx_len b =
      let (buf, b') = spi_read tx_data (rx_len + length tx_data) b in
      (copy_rx rx_len 0 (length tx_data) buf, b')

  -- `mercury_read_byte`
  unfoldable pub read_byte : ℕ → Bus S → Option ℕ × Bus S
  unfolding spi_read
  read_byte tx_data b = let (got, b') = spi_read (tx_data ∷ []) 1 b in (get_elem? got 0, b')
