-- ===== src/Ltc/Pec/Crc.antt =====
-- The table and the loop over it, against the shift register of the CRC-15 with the polynomial
-- 0x4599.
use wbms.Prelude.{
  ℕ, zero, suc, ◌+◌, ◌-◌, ◌*◌, ◌/◌, ◌%◌, ◌^◌, ◌<◌, ◌≡◌, refl, sym, ap, ◌∙◌, Bool, true, ◌&&◌, ◌==◌,
  ==_iff, leb, if◌then◌else◌, List, [], ◌∷◌, arith,
}
use Prim.Native.Nat.{bit_xor}
use wbms.Prelude.Xor.{zero-bit_xor, bit_xor-cut, bit_xor-above, bit_xor-bound}
use wbms.Ltc.Pec.{crc15_at, pec_step, pec_loop, calc_pec}

-- The register takes one step: the bit that leaves at the top feeds the polynomial back.
unfoldable pub shift : ℕ → ℕ
shift r = if leb 16384 r then bit_xor ((r - 16384) * 2) 0x4599 else r * 2

unfoldable pub shifts : ℕ → ℕ → ℕ
unfolding shift
shifts zero r = r
shifts (suc n) r = shifts n (shift r)

-- A test of every number below `n`, and what it says of one of them.
every_below : ℕ → (ℕ → Bool) → Bool
every_below zero p = true
every_below (suc n) p = p n && every_below n p

every_below_sound : (n : ℕ) (p : ℕ → Bool) (x : ℕ) → every_below n p ≡ true → x < n → p x ≡ true
unfolding every_below
every_below_sound zero p x h lt = absurd (omega arith)
every_below_sound (suc n) p x h lt = ground (arith, every_below_sound n p x)

-- Eight steps of a register whose high byte is `a`: the table's entry for `a`, and the low bits moved
-- up. All the registers are checked.
split_checked :
    every_below 256 (λ a.
      every_below 128 (λ l. bit_xor (l * 256) (crc15_at a % 2 ^ 15) == shifts 8 (a * 128 + l)))
    ≡ true
unfolding every_below crc15_at shifts
split_checked = refl

shifts-table :
    (a l : ℕ) → a < 256 → l < 128 → bit_xor (l * 256) (crc15_at a % 2 ^ 15) ≡ shifts 8 (a * 128 + l)
shifts-table a l h g = (==_iff _ _).0 (
    every_below_sound 128 (λ j. bit_xor (j * 256) (crc15_at a % 2 ^ 15) == shifts 8 (a * 128 + j)) l
      (every_below_sound 256
        (λ i.
          every_below 128 (λ j. bit_xor (j * 256) (crc15_at i % 2 ^ 15) == shifts 8 (i * 128 + j)))
        a split_checked h)
      g)

-- The table holds the remainders of the shift register: the entry of every byte is, without its bit
-- 15, what the register holds after eight steps from that byte.
pub crc15_at-shifts : (a : ℕ) → a < 256 → crc15_at a % 2 ^ 15 ≡ shifts 8 (a * 128)
crc15_at-shifts a h =
    let same : a * 128 + 0 ≡ a * 128 = omega arith in
    sym (zero-bit_xor (crc15_at a % 2 ^ 15))
    ∙ shifts-table a 0 h (omega arith)
    ∙ ap (λ r. shifts 8 r) same

-- The register takes the bits of a byte.
unfoldable pub crc_step : ℕ → ℕ → ℕ
unfolding shifts
crc_step r b = shifts 8 (bit_xor r (b * 128))

unfoldable pub crc_loop : ℕ → List ℕ → ℕ
unfolding crc_step
crc_loop r [] = r
crc_loop r (b ∷ bs) = crc_loop (crc_step r b) bs

pub data Bytes : List ℕ → Type 0 where
  bytes_nil : Bytes []
  bytes_cons : {b : ℕ} {bs : List ℕ} → b < 256 → Bytes bs → Bytes (b ∷ bs)

pec_step-crc : (r b : ℕ) → r < 2 ^ 16 → b < 256 → pec_step r b % 2 ^ 15 ≡ crc_step (r % 2 ^ 15) b
unfolding pec_step crc_step
pec_step-crc r b h g =
    let l = r % 128 in
    let u = r % 2 ^ 15 / 128 in
    let a = bit_xor u b in
    let small : a < 256 = bit_xor-bound 8 u b (omega arith) g in
    let same_high : r / 128 % 2 ^ 8 ≡ u = omega arith in
    let same_byte : b % 2 ^ 8 ≡ b = omega arith in
    let same_reg : r % 2 ^ 15 ≡ u * 2 ^ 7 + l = omega arith in
    let same_low : r * 256 % 2 ^ 15 ≡ l * 256 = omega arith in
    let addr : bit_xor (r / 128) b % 256 ≡ a =
      bit_xor-cut 8 (r / 128) b ∙ rw (same_high, same_byte) refl in
    let reg : bit_xor (r % 2 ^ 15) (b * 128) ≡ a * 128 + l =
      ap (λ x. bit_xor x (b * 128)) same_reg ∙ bit_xor-above 7 u l b (omega arith) in
    let out : bit_xor (r * 256) (crc15_at a) % 2 ^ 15 ≡ bit_xor (l * 256) (crc15_at a % 2 ^ 15) =
      bit_xor-cut 15 (r * 256) (crc15_at a) ∙ ap (λ x. bit_xor x (crc15_at a % 2 ^ 15)) same_low in
    rw (addr, reg) (omega (arith, out, shifts-table a l small (omega arith)))

pec_step-bound : (r b : ℕ) → pec_step r b < 2 ^ 16
unfolding pec_step
pec_step-bound r b = omega arith

pec_loop-crc :
    (bs : List ℕ) (r : ℕ)
    → r < 2 ^ 16
    → Bytes bs
    → pec_loop r bs % 2 ^ 15 ≡ crc_loop (r % 2 ^ 15) bs
unfolding pec_loop crc_loop
pec_loop-crc [] r h bytes_nil = refl
pec_loop-crc (b ∷ bs) r h (bytes_cons g gs) =
    pec_loop-crc bs (pec_step r b) (pec_step-bound r b) gs
    ∙ ap (λ x. crc_loop x bs) (pec_step-crc r b h g)

-- `mercury_ltc_calcPEC` computes the CRC-15 of the chip: over bytes, the table-driven loop gives twice
-- what the shift register with the polynomial 0x4599 holds when the bits have gone in, from 16.
pub calc_pec-crc : (bs : List ℕ) → Bytes bs → calc_pec bs ≡ crc_loop 16 bs * 2
unfolding calc_pec
calc_pec-crc bs h = omega (arith, pec_loop-crc bs 16 (omega arith) h)
