-- ===== src/Ltc/Adc.antt =====
-- The conversion and the read-out of the cell voltages, src/hg_ltc.c. The transfers and the chip
-- select pin stand in Ltc/Device.antt; here are the commands, and the loops over what the chip answers.
pub mod Reads
use wbms.Prelude.{
  ℕ, zero, suc, ◌+◌, ◌*◌, ◌/◌, ◌%◌, ◌^◌, Bool, true, false, Option, none, some, List, [], ◌∷◌, ◌==◌,
  if◌then◌else◌, get_elem?, set,
}
use Prim.Native.Nat.{bit_and, bit_or}
use wbms.Ltc.Pec.{calc_pec}

-- `cmd[2] = cmd_pec >> 8` and `cmd[3] = cmd_pec`, behind the two bytes of a command
unfoldable pub with_pec : ℕ → ℕ → List ℕ
unfolding calc_pec
with_pec a b =
    let cmd_pec = calc_pec (a ∷ b ∷ []) in a ∷ b ∷ (cmd_pec / 256 % 256) ∷ (cmd_pec % 256) ∷ []

-- The command that `ltc_startadc` writes, for LTC6812_ADC_MD, LTC6812_ADC_DCP and
-- LTC6812_NUM_ADCCH.
unfoldable pub startadc_cmd : ℕ → ℕ → ℕ → List ℕ
unfolding with_pec
startadc_cmd adc_md adc_dcp num_adcch =
    with_pec ((bit_and adc_md 2 / 2 + 2) % 256)
      ((bit_and adc_md 1 * 128 + 0x60 + adc_dcp * 16 + num_adcch) % 256)

-- The command that `ltc_convadc` writes: LTC6812_PLADC = 0x714 is or-ed into two bytes that nothing
-- has written, here `x` and `y`.
unfoldable pub pladc_cmd : ℕ → ℕ → List ℕ
unfolding with_pec
pladc_cmd x y = with_pec (bit_or x 7) (bit_or y 0x714 % 256)

-- The loop of `ltc_convadc`, by the rounds left of 20000: the `i`-th byte that the chip answers, from
-- `iter` on, until one is not zero. `pollOkay`, and `iter` at the end.
unfoldable pub poll : (ℕ → ℕ) → ℕ → ℕ → Bool × ℕ
poll answer zero iter = (false, iter)
poll answer (suc n) iter =
    let rest = poll answer n (iter + 1) in if answer iter == 0 then rest else (true, iter)

-- `state->cellVolts[cellN] = buf[mPos] + (buf[mPos + 1] << 8)`, where `cellVolts` has bytes: `none`
-- beyond the end of an array.
unfoldable pub store_cell : List ℕ → ℕ → ℕ → List ℕ → Option (List ℕ)
store_cell buf m_pos cell_n cell_volts = elim (get_elem? buf m_pos) [
  | none ↦ none
  | some low ↦ elim (get_elem? buf (m_pos + 1)) [
    | none ↦ none
    | some high ↦ elim (get_elem? cell_volts cell_n) [
      | none ↦ none
      | some old ↦ some (set cell_volts cell_n ((low + high * 256) % 2 ^ 8))
    ]
  ]
]

-- The inner loop of `ltc_readcv`, by the rounds left.
unfoldable pub store_cells : ℕ → List ℕ → ℕ → ℕ → List ℕ → Option (List ℕ)
unfolding store_cell
store_cells zero buf m_pos cell_n cell_volts = some cell_volts
store_cells (suc n) buf m_pos cell_n cell_volts = elim (store_cell buf m_pos cell_n cell_volts) [
  | none ↦ none
  | some cs ↦ store_cells n buf (m_pos + 2) (cell_n + 1) cs
]

-- `ltc_readcv`, over the buffers that the chip answers to the five read commands: three cells of
-- each.
unfoldable pub readcv : List (List ℕ) → ℕ → List ℕ → Option (List ℕ)
unfolding store_cells
readcv [] cell_n cell_volts = some cell_volts
readcv (buf ∷ bufs) cell_n cell_volts = elim (store_cells 3 buf 0 cell_n cell_volts) [
  | none ↦ none
  | some cs ↦ readcv bufs (cell_n + 3) cs
]
