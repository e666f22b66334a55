-- ===== src/Ltc/Device.antt =====
-- The chip on the bus, src/hg_ltc.c: the initialisation, the conversion and the read-out, with the
-- transfers and the chip select pin. The waits are left out.
pub mod Transfers
pub mod Registers
use wbms.Prelude.{
  ℕ, zero, suc, ◌+◌, Bool, true, false, Option, none, some, List, [], ◌∷◌, leb, if◌then◌else◌,
}
use wbms.Spi.{Chip, Bus, spi_write, spi_read_seq}
use wbms.Ltc.Init.{ℤ, pos, negsuc, init}
use wbms.Ltc.Adc.{startadc_cmd, pladc_cmd, store_cells}

module _ {S : Type 0} where
  -- `mercury_ltc_csLow`, `mercury_ltc_csHigh`
  unfoldable pub cs_low : Bus S → Bus S
  cs_low b = record b { high = false }

  unfoldable pub cs_high : Bus S → Bus S
  cs_high b = record b { high = true }

  -- `mercury_ltc_wakeSleep`
  unfoldable pub wake_sleep : Bus S → Bus S
  unfolding cs_low cs_high
  wake_sleep b = cs_high (cs_low b)

  -- `mercury_ltc_csHigh` behind the loop.
  unfoldable pub deselected : Option (Bus S) → Option (Bus S)
  unfolding cs_high
  deselected none = none
  deselected (some b) = some (cs_high b)

module _ {S : Type 0} (chip : Chip S) where
  -- A transfer between `mercury_ltc_csLow` and `mercury_ltc_csHigh`.
  unfoldable pub write_selected : List ℕ → Bus S → Bus S
  unfolding cs_low cs_high
  write_selected src b = cs_high (spi_write chip src (cs_low b))

  unfoldable pub read_selected : List ℕ → ℕ → Bus S → Option (List ℕ) × Bus S
  unfolding cs_low cs_high
  read_selected cmd n b = let (got, b') = spi_read_seq chip cmd n (cs_low b) in (got, cs_high b')

  -- `mercury_ltc_wakeIdle`
  unfoldable pub wake_idle : Bus S → Bus S
  unfolding read_selected
  wake_idle b = (read_selected (0xff ∷ []) 1 b).1

  -- `mercury_ltc_init`, as far as the two configurations are written.
  unfoldable pub write_configs : Bus S → Bus S
  unfolding wake_sleep wake_idle write_selected cs_high
  write_configs b =
      let b = wake_sleep (cs_high b) in
      let b =
        write_selected
          (0x0 ∷ 0x1 ∷ 0x3d ∷ 0x6e ∷ 0xe4 ∷ 0x52 ∷ 0x27 ∷ 0xa0 ∷ 0x0 ∷ 0x50 ∷ 0x47 ∷ 0x48 ∷ []) b in
      let b =
        write_selected
          (0x0 ∷ 0x24 ∷ 0xb1 ∷ 0x9e ∷ 0x0 ∷ 0x8 ∷ 0x0 ∷ 0x0 ∷ 0x0 ∷ 0x0 ∷ 0x90 ∷ 0x5a ∷ []) b in
      wake_idle b

  -- The two that are read back.
  unfoldable pub read_configs : Bus S → Option (List ℕ) × Option (List ℕ) × Bus S
  unfolding read_selected
  read_configs b =
      let (config_a, b) = read_selected (0x0 ∷ 0x2 ∷ 0x2b ∷ 0xa ∷ []) 8 b in
      let (config_b, b) = read_selected (0x0 ∷ 0x26 ∷ 0x2c ∷ 0xc8 ∷ []) 8 b in
      (config_a, config_b, b)

  -- `mercury_ltc_init`: `none` if an array is left.
  unfoldable pub ltc_init : Bus S → Option ℤ × Bus S
  unfolding write_configs read_configs
  ltc_init b =
      let (config_a, config_b, b') = read_configs (write_configs b) in
      elim config_a [
        | none ↦ (none, b')
        | some xs ↦ elim config_b [ none ↦ (none, b') | some ys ↦ (some (init xs ys), b') ]
      ]

  -- `ltc_startadc`
  unfoldable pub startadc : Bus S → Bus S
  unfolding wake_sleep write_selected
  startadc b = write_selected (startadc_cmd 2 0 0) (wake_sleep b)

  -- The loop of `ltc_convadc`, by the rounds left of 20000: `none` if an array is left.
  unfoldable pub poll_loop : ℕ → Bus S → Option (Bus S)
  poll_loop zero b = some b
  poll_loop (suc n) b =
      let (got, b') = spi_read_seq chip (0xff ∷ []) 1 b in
      let rest = poll_loop n b' in
      elim got [ none ↦ none | some [] ↦ none | some (x ∷ xs) ↦ if leb 1 x then some b' else rest ]

  -- `ltc_convadc`, with what the array of its command holds at the start. The command is written before
  -- `mercury_ltc_csLow`.
  unfoldable pub convadc : ℕ → ℕ → Bus S → Option (Bus S)
  unfolding startadc poll_loop cs_low deselected
  convadc x y b =
      deselected (poll_loop 20000 (cs_low (spi_write chip (pladc_cmd x y) (startadc b))))

  -- The loop of `ltc_readcv`, over its commands.
  unfoldable pub readcv_loop : List (List ℕ) → ℕ → List ℕ → Bus S → Option (List ℕ) × Bus S
  unfolding read_selected
  readcv_loop [] cell_n cell_volts b = (some cell_volts, b)
  readcv_loop (cmd ∷ cmds) cell_n cell_volts b =
      let (got, b') = read_selected cmd 8 b in
      elim got [
        | none ↦ (none, b')
        | some buf ↦ elim (store_cells 3 buf 0 cell_n cell_volts) [
          | none ↦ (none, b')
          | some cs ↦ readcv_loop cmds (cell_n + 3) cs b'
        ]
      ]

  -- `ltc_readcv`
  unfoldable pub ltc_readcv : List ℕ → Bus S → Option (List ℕ) × Bus S
  unfolding wake_sleep readcv_loop
  ltc_readcv cell_volts b =
      readcv_loop
        ((0x0 ∷ 0x4 ∷ 0x7 ∷ 0xc2 ∷ [])
          ∷ (0x0 ∷ 0x6 ∷ 0x9a ∷ 0x94 ∷ [])
          ∷ (0x0 ∷ 0x8 ∷ 0x5e ∷ 0x52 ∷ [])
          ∷ (0x0 ∷ 0xa ∷ 0xc3 ∷ 0x4 ∷ [])
          ∷ (0x0 ∷ 0x9 ∷ 0xd5 ∷ 0x60 ∷ [])
          ∷ [])
        0 cell_volts (wake_sleep b)

  -- `mercury_ltc_updateState`, for a state that is not NULL: `none` if an array is left.
  unfoldable pub update_state : ℕ → ℕ → List ℕ → Bus S → Option (List ℕ × Bus S)
  unfolding convadc ltc_readcv
  update_state x y cell_volts b = elim (convadc x y b) [
    | none ↦ none
    | some b' ↦
        let (read, last) = ltc_readcv cell_volts b' in
        elim read [ none ↦ none | some cells ↦ some (cells, last) ]
  ]
