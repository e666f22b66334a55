-- ===== src/Tests/Wires.antt =====
-- The theorems on the battery monitor chip on its bus: with a chip that counts the transfers that it hears
-- and answers ones, and with one that has two registers.
use wbms.Prelude.{
  ℕ, ◌+◌, ◌*◌, ◌≡◌, [], ◌∷◌, ◌↔◌, refl, true, false, some, List, replicate, ◌++◌, ◌==◌,
  if◌then◌else◌,
}
use wbms.Spi.{Chip, Bus, spi_read}
use wbms.Spi.Setup.{test_transfer, spi_write_test}
use wbms.Ltc.Pec.{crc15_at, pec_step, pec_loop, calc_pec}
use wbms.Ltc.Init.{ℤ, pos}
use wbms.Ltc.Device.{
  cs_low, cs_high, write_configs, ltc_init, startadc, poll_loop, deselected, convadc,
}
use wbms.Ltc.Device.Transfers.{convadc-unselected}
use wbms.Ltc.Device.Registers.{IsRead, IsWritten, ltc_init-IsRead, ltc_init-IsWritten}

abbrev counting : Chip ℕ
counting = record {
  transfer = λ selected tx n s. (replicate n 255, elim selected [ true ↦ s + 1 | false ↦ s ]);
}

abbrev idle : Bus ℕ
idle = record { high = true; rxd_max_len = 0; stray = 0; chip = 0 }

-- The six transfers of `mercury_spi_write_test` are heard, and the chip is not selected behind them.
six_transfers :
    spi_write_test counting idle ≡ record { high = true; rxd_max_len = 16; stray = 0; chip = 6 }
unfolding spi_write_test test_transfer spi_read cs_low cs_high
six_transfers = refl

-- Its commands have their packet error codes.
read_config_a : calc_pec (0 ∷ 2 ∷ []) ≡ 43 * 256 + 10
unfolding calc_pec pec_loop pec_step crc15_at
read_config_a = refl

read_config_b : calc_pec (0 ∷ 38 ∷ []) ≡ 44 * 256 + 200
unfolding calc_pec pec_loop pec_step crc15_at
read_config_b = refl

convadc-unselected_example :
    let started = startadc counting idle in
    convadc counting 3 5 idle
    ≡ deselected (
        poll_loop counting 20000
          (cs_low (record started { stray = started.stray + started.rxd_max_len })))
convadc-unselected_example = convadc-unselected counting 3 5 idle (λ tx n s. refl)

-- A chip with two configurations of six bytes, which takes what is written and answers it.
record Six : Type 0 where
  a : ℕ
  b : ℕ
  c : ℕ
  d : ℕ
  e : ℕ
  f : ℕ

abbrev bytes_of : Six → List ℕ
bytes_of x = x.a ∷ x.b ∷ x.c ∷ x.d ∷ x.e ∷ x.f ∷ []

hear : List ℕ → Six × Six → Six × Six
hear (o ∷ k ∷ y ∷ z ∷ a ∷ b ∷ c ∷ d ∷ e ∷ f ∷ p ∷ q ∷ []) s =
    let x : Six = record { a = a; b = b; c = c; d = d; e = e; f = f } in
    if k == 1 then (x, s.1) else if k == 36 then (s.0, x) else s
hear other s = s

say : List ℕ → Six × Six → List ℕ
say (o ∷ k ∷ y ∷ z ∷ []) s =
    replicate 4 255 ++ (bytes_of (if k == 2 then s.0 else s.1) ++ (0 ∷ 0 ∷ []))
say other s = []

abbrev registers : Chip (Six × Six)
registers = record {
  transfer = λ selected tx n s. elim selected [ true ↦ (say tx s, hear tx s) | false ↦ ([], s) ];
}

registers-IsRead : IsRead registers (λ s. bytes_of s.0) (λ s. bytes_of s.1)
unfolding hear say
registers-IsRead = record {
  size_a = λ s. refl;
  size_b = λ s. refl;
  during = λ s. replicate 4 255;
  four = λ s. refl;
  code_a = λ s. (0, 0);
  code_b = λ s. (0, 0);
  read_a = λ s. refl;
  read_b = λ s. refl;
  kept_by_a = λ s. (refl, refl);
  kept_by_b = λ s. (refl, refl);
}

registers-IsWritten : IsWritten registers (λ s. bytes_of s.0) (λ s. bytes_of s.1)
unfolding hear say
registers-IsWritten = record {
  write_a = λ a b c d e f p q n s right. (refl, refl);
  write_b = λ a b c d e f p q n s right. (refl, refl);
  wakes = λ s. (refl, refl);
}

abbrev zeros : Six
zeros = record { a = 0; b = 0; c = 0; d = 0; e = 0; f = 0 }

abbrev fresh : Bus (Six × Six)
fresh = record { high = true; rxd_max_len = 0; stray = 0; chip = (zeros, zeros) }

ltc_init-IsRead_example :
    let s = (write_configs registers fresh).chip in
    (r : ℤ) × (b' : Bus (Six × Six)) × (ltc_init registers fresh ≡ (some r, b'))
    × ((r ≡ pos 0) ↔ ((calc_pec (bytes_of s.0) ≡ 0x4748) × (calc_pec (bytes_of s.1) ≡ 0x905a)))
    × (bytes_of b'.chip.0 ≡ bytes_of s.0)
    × (bytes_of b'.chip.1 ≡ bytes_of s.1)
ltc_init-IsRead_example = ltc_init-IsRead registers registers-IsRead fresh

ltc_init-IsWritten_example :
    (b' : Bus (Six × Six)) × (ltc_init registers fresh ≡ (some (pos 0), b'))
    × (bytes_of b'.chip.0 ≡ 0xe4 ∷ 0x52 ∷ 0x27 ∷ 0xa0 ∷ 0x0 ∷ 0x50 ∷ [])
    × (bytes_of b'.chip.1 ≡ 0x0 ∷ 0x8 ∷ 0x0 ∷ 0x0 ∷ 0x0 ∷ 0x0 ∷ [])
ltc_init-IsWritten_example = ltc_init-IsWritten registers registers-IsRead fresh registers-IsWritten
