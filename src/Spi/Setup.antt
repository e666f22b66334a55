-- ===== src/Spi/Setup.antt =====
-- The set-up of the SPIM peripheral and the transfers of `mercury_spi_write_test`, which nothing calls, in
-- src/hg_spi.c.
use wbms.Prelude.{ℕ, List, [], ◌∷◌}
use wbms.Ltc.Device.{cs_low, cs_high}
use wbms.Spi.{Chip, Bus, spi_read}

-- The registers that are set up, and the pins.
pub data Reg : Type 0 where
  psel_miso psel_mosi psel_sck frequency rxd_list txd_list orc config enable : Reg

pub data Setting : Type 0 where
  pin_output : ℕ → Setting
  register : Reg → ℕ → Setting

-- `mercury_spi_setup`: the bit 31 that is put in front of a pin is 0.
unfoldable pub spi_setup : ℕ → ℕ → ℕ → ℕ → List Setting
spi_setup pin_miso pin_mosi pin_sck speed =
    pin_output pin_mosi
    ∷ pin_output pin_sck
    ∷ register psel_miso pin_miso
    ∷ register psel_mosi pin_mosi
    ∷ register psel_sck pin_sck
    ∷ register frequency speed
    ∷ register rxd_list 0
    ∷ register txd_list 0
    ∷ register orc 0xff
    ∷ register config 0
    ∷ register enable 7
    ∷ []

module _ {S : Type 0} (chip : Chip S) where
  -- One block of the test: what is received goes to `buffB`, which has room for it.
  unfoldable pub test_transfer : List ℕ → ℕ → Bus S → Bus S
  unfolding spi_read cs_low cs_high
  test_transfer tx rx_len b = cs_high (spi_read chip tx rx_len (cs_low b)).1

  -- `mercury_spi_write_test`
  unfoldable pub spi_write_test : Bus S → Bus S
  unfolding test_transfer
  spi_write_test b =
      let b =
        test_transfer
          (0 ∷ 1 ∷ 61 ∷ 110 ∷ 228 ∷ 82 ∷ 39 ∷ 160 ∷ 0 ∷ 80 ∷ 71 ∷ 72 ∷ 228 ∷ 82 ∷ 39 ∷ 160 ∷ 0 ∷ 80
            ∷ 71 ∷ 72 ∷ [])
          0 b in
      let b =
        test_transfer
          (0 ∷ 36 ∷ 177 ∷ 158 ∷ 0 ∷ 8 ∷ 0 ∷ 0 ∷ 0 ∷ 0 ∷ 144 ∷ 90 ∷ 0 ∷ 8 ∷ 0 ∷ 0 ∷ 0 ∷ 0 ∷ 144 ∷ 90
            ∷ [])
          0 b in
      let b = test_transfer (0xff ∷ []) 1 b in
      let b = test_transfer (0xff ∷ []) 1 b in
      let b = test_transfer (0 ∷ 2 ∷ 43 ∷ 10 ∷ []) 16 b in
      test_transfer (0 ∷ 38 ∷ 44 ∷ 200 ∷ []) 16 b
