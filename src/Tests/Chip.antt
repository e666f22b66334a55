-- ===== src/Tests/Chip.antt =====
-- The battery monitor chip: the commands of src/hg_ltc.c, and the theorems at an input.
use wbms.Prelude.{ℕ, ◌*◌, ◌≡◌, refl, List, [], ◌∷◌, map, ltb→lt}
use wbms.Ltc.Pec.{calc_pec, crc15_at}
use wbms.Ltc.Pec.Crc.{shifts, crc_loop, Bytes, bytes_nil, bytes_cons, crc15_at-shifts, calc_pec-crc}
use wbms.Ltc.Init.{pos, init}
use wbms.Ltc.Adc.{startadc_cmd}
use wbms.Ltc.Adc.Reads.{Reply}

-- "cmd should be 0x360", with its code.
startadc : startadc_cmd 2 0 0 ≡ 0x03 ∷ 0x60 ∷ 0xf4 ∷ 0x6c ∷ []
unfolding startadc_cmd
startadc = refl

-- The codes that the source writes out behind its commands.
read_commands :
    map calc_pec (
      (0 ∷ 1 ∷ [])
      ∷ (0 ∷ 0x24 ∷ [])
      ∷ (0 ∷ 2 ∷ [])
      ∷ (0 ∷ 0x26 ∷ [])
      ∷ (0 ∷ 4 ∷ [])
      ∷ (0 ∷ 6 ∷ [])
      ∷ (0 ∷ 8 ∷ [])
      ∷ (0 ∷ 10 ∷ [])
      ∷ (0 ∷ 9 ∷ [])
      ∷ [])
    ≡ 0x3d6e ∷ 0xb19e ∷ 0x2b0a ∷ 0x2cc8 ∷ 0x07c2 ∷ 0x9a94 ∷ 0x5e52 ∷ 0xc304 ∷ 0xd560 ∷ []
unfolding calc_pec
read_commands = refl

abbrev config_a : List ℕ
config_a = 0xe4 ∷ 0x52 ∷ 0x27 ∷ 0xa0 ∷ 0x00 ∷ 0x50 ∷ []

config_a-Bytes : Bytes config_a
config_a-Bytes = bytes_cons (ltb→lt _ _ refl) (
    bytes_cons (ltb→lt _ _ refl) (
      bytes_cons (ltb→lt _ _ refl) (
        bytes_cons (ltb→lt _ _ refl)
          (bytes_cons (ltb→lt _ _ refl) (bytes_cons (ltb→lt _ _ refl) bytes_nil)))))

crc15_at-shifts_example : 0x2213 ≡ shifts 8 0x4000
unfolding crc15_at
crc15_at-shifts_example = crc15_at-shifts 0x80 (ltb→lt 0x80 256 refl)

calc_pec-crc_example : 0x4748 ≡ crc_loop 16 config_a * 2
unfolding calc_pec
calc_pec-crc_example = calc_pec-crc config_a config_a-Bytes

config_checked : init config_a (0 ∷ 8 ∷ 0 ∷ 0 ∷ 0 ∷ 0 ∷ []) ≡ pos 0
unfolding init calc_pec
config_checked = refl

abbrev four_volts : Reply
four_volts = record {
  low0 = 0x40;
  high0 = 0x9c;
  low1 = 0x41;
  high1 = 0x9c;
  low2 = 0x42;
  high2 = 0x9c;
  code = 0 ∷ 0 ∷ [];
}
