-- ===== src/Preload.antt =====
-- What runs before the firmware, src/preload.c: `mercury_preload_disableMPU` and
-- `mercury_preload_RXLine`; and the test of src/main.c for the line that starts an update. What the
-- UART gives is a list of polls; where it ends the code is still polling.
pub mod Regions
pub mod Lines
use Prim.Native.Nat.{bit_xor}
use wbms.Prelude.{
  ℕ, zero, suc, ◌+◌, ◌*◌, ◌-◌, ◌/◌, ◌%◌, ◌^◌, Bool, true, false, ◌&&◌, ◌||◌, List, [], ◌∷◌, ltb,
  leb, ◌==◌, if◌then◌else◌, Option, none, some, set, get_elem?,
}

-- The registers of the memory protection unit: RNR selects the region whose RASR is read and written.
pub record Mpu : Type 0 where
  pub rnr : ℕ
  pub rasr : ℕ → ℕ

-- `MPU_RASR_XN_Msk` is `1 << xn_pos`, from the CMSIS headers.
module _ (xn_pos : ℕ) where
  -- The body of the loop for one index.
  unfoldable pub region_round : ℕ → Mpu → Mpu
  region_round index mpu =
      let word = mpu.rasr index in
      if word / 2 ^ xn_pos % 2 == 1
      then (record {
        rnr = index;
        rasr = λ i. if i == index then bit_xor word (2 ^ xn_pos) else mpu.rasr i;
      })
      else (record mpu { rnr = index })

  -- The loop, by the rounds left.
  unfoldable pub regions_loop : ℕ → ℕ → Mpu → Mpu
  unfolding region_round
  regions_loop zero index mpu = mpu
  regions_loop (suc n) index mpu = regions_loop n (index + 1) (region_round index mpu)

  unfoldable pub disable_mpu : Mpu → Mpu
  unfolding regions_loop
  disable_mpu = regions_loop 8 0

-- One round of the loop of RXLine: the clock that it reads, and what `uart_poll_in` gives (`none` for a
-- non-zero return).
pub data Poll : Type 0 where
  poll : ℕ → Option ℕ → Poll

-- How `mercury_preload_RXLine` ends: with `dest` and `*rSize`, still polling, or writing behind the
-- buffer of the caller.
pub data Line : Type 0 where
  line : List ℕ → ℕ → Line
  polling : List ℕ → ℕ → Line
  overflow : ℕ → Line

-- The condition of the loop; the clock wraps at 2^32.
unfoldable pub go_on : ℕ → ℕ → ℕ → ℕ → Bool
go_on entry timeout now pos = ltb ((2 ^ 32 + now - entry) % 2 ^ 32) timeout || ltb 0 pos

unfoldable pub is_end : ℕ → Bool
is_end c = c == 10 || c == 13

-- The loop, with `bPos` and `dest`; `bPos` is a `uint8_t`.
unfoldable pub rx_loop : ℕ → ℕ → List Poll → ℕ → List ℕ → Line
unfolding go_on is_end
rx_loop entry timeout [] pos dest = polling dest pos
rx_loop entry timeout (poll now none ∷ ps) pos dest =
    let later = rx_loop entry timeout ps pos dest in
    if go_on entry timeout now pos then later else line dest pos
rx_loop entry timeout (poll now (some c) ∷ ps) pos dest =
    let later = rx_loop entry timeout ps ((pos + 1) % 2 ^ 8) (set dest pos c) in
    if go_on entry timeout now pos
    then (if is_end c
        then line dest pos
        else (elim (get_elem? dest pos) [ some old ↦ later | none ↦ overflow pos ]))
    else line dest pos

unfoldable pub rx_line : ℕ → ℕ → List Poll → List ℕ → Line
unfolding rx_loop
rx_line entry timeout ps dest = rx_loop entry timeout ps 0 dest

-- `strncmp(buffer, "fwupd", 5) == 0`
abbrev pub fwupd : List ℕ
fwupd = 102 ∷ 119 ∷ 117 ∷ 112 ∷ 100 ∷ []

unfoldable pub starts_with : List ℕ → List ℕ → Bool
starts_with [] buffer = true
starts_with (x ∷ xs) [] = false
starts_with (x ∷ xs) (b ∷ buffer) = x == b && starts_with xs buffer

-- Whether what `main` has read starts an update; RXLine is called with 100 as its timeout.
unfoldable pub update_detect : ℕ → List Poll → List ℕ → Option Bool
unfolding rx_line starts_with
update_detect entry ps buffer = elim (rx_line entry 100 ps buffer) [
  | line dest size ↦ some (ltb 0 size && starts_with fwupd dest)
  | polling dest size ↦ none
  | overflow pos ↦ none
]
