-- ===== src/Ltc/Device/Transfers.antt =====
-- What reaches the chip, and what the initialisation reads back.
use mathlib.Core.Path.{ap₂}
use wbms.Prelude.{ℕ, ◌+◌, ◌≡◌, ◌↔◌, ap, false, Option, none, some, List, [], ◌∷◌, length}
use wbms.Spi.{Chip, Bus, spi_write}
use wbms.Spi.Sequence.{IsFull, spi_read_seq-all}
use wbms.Ltc.Pec.{calc_pec}
use wbms.Ltc.Init.{ℤ, pos, take, init, init-zero}
use wbms.Ltc.Adc.{pladc_cmd}
use wbms.Ltc.Device.{
  cs_low, cs_high, read_selected, write_selected, write_configs, read_configs, ltc_init, startadc,
  poll_loop, deselected, convadc,
}

module _ {S : Type 0} (chip : Chip S) where
  -- A chip that does nothing while it is not selected never hears the command by which `ltc_convadc`
  -- asks for the end of the conversion, since that is written before the chip select pin is low:
  -- whatever the command's bytes are, the conversion is as without it, but for the bytes that its
  -- transfer receives.
  pub convadc-unselected :
      (x y : ℕ) (b : Bus S)
      → ((tx : List ℕ) (n : ℕ) (s : S) → (chip.transfer false tx n s).1 ≡ s)
      → let started = startadc chip b in
        convadc chip x y b
        ≡ deselected (
            poll_loop chip 20000
              (cs_low (record started { stray = started.stray + started.rxd_max_len })))
  unfolding convadc startadc write_selected cs_high spi_write
  convadc-unselected x y b ignores =
      let started = startadc chip b in
      ap
        (λ s. deselected (
          poll_loop chip 20000
            (cs_low (record started { stray = started.stray + started.rxd_max_len; chip = s }))))
        (ignores (pladc_cmd x y) started.rxd_max_len started.chip)

  read_selected-all :
      IsFull chip
      → (cmd : List ℕ) (n : ℕ) (b : Bus S)
      → (xs : List ℕ) × ((read_selected chip cmd n b).0 ≡ some xs) × (length xs ≡ n)
  unfolding read_selected
  read_selected-all full cmd n b = spi_read_seq-all chip full cmd n (cs_low b)

  -- Where as many bytes are received as are asked for, `mercury_ltc_init` leaves no array: it reads back
  -- eight bytes of each configuration, and returns 0 exactly when the first six of each have the code
  -- that is expected of them.
  pub ltc_init-checked :
      (b : Bus S)
      → IsFull chip
      → (xs : List ℕ) × (ys : List ℕ) × (b' : Bus S) × (read_configs chip (write_configs chip b)
          ≡ (some xs, some ys, b'))
        × (length xs ≡ 8)
        × (length ys ≡ 8)
        × (ltc_init chip b ≡ (some (init xs ys), b'))
        × ((init xs ys ≡ pos 0)
            ↔ ((calc_pec (take 6 xs) ≡ 0x4748) × (calc_pec (take 6 ys) ≡ 0x905a)))
  unfolding ltc_init read_configs
  ltc_init-checked b full =
      let b1 = write_configs chip b in
      let cmd_a = 0x0 ∷ 0x2 ∷ 0x2b ∷ 0xa ∷ [] in
      let cmd_b = 0x0 ∷ 0x26 ∷ 0x2c ∷ 0xc8 ∷ [] in
      let (xs, ea, la) = read_selected-all full cmd_a 8 b1 in
      let b2 = (read_selected chip cmd_a 8 b1).1 in
      let (ys, eb, lb) = read_selected-all full cmd_b 8 b2 in
      let b3 = (read_selected chip cmd_b 8 b2).1 in
      let both : read_configs chip b1 ≡ (some xs, some ys, b3) = ap₂ (λ o p. (o, p, b3)) ea eb in
      let checked : ltc_init chip b ≡ (some (init xs ys), b3) =
        ap
          (λ (r : Option (List ℕ) × Option (List ℕ) × Bus S). elim r.0 as (λ x. Option ℤ × Bus S) [
            | none ↦ (none, r.2)
            | some xs ↦ elim r.1 as (λ x. Option ℤ × Bus S) [
              | none ↦ (none, r.2)
              | some ys ↦ (some (init xs ys), r.2)
            ]
          ])
          both in
      (xs, ys, b3, both, la, lb, checked, init-zero xs ys)
