-- ===== src/Preload/Regions.antt =====
-- What `mercury_preload_disableMPU` does to the regions.
use Prim.Native.Nat.{bit_xor, differ}
use native.Mathlib.Nat.{add-mul-div_right, div-eq_of_lt}
use wbms.Prelude.{
  ℕ, zero, suc, ◌+◌, ◌*◌, ◌/◌, ◌%◌, ◌^◌, ◌<◌, ◌≤◌, ◌≡◌, ◌≢◌, refl, sym, ap, ◌∙◌, arith, ◌==◌,
  Bool-cases, ◌⊎◌, inl, inr,
}
use wbms.Prelude.Xor.{bit_xor-above, bit_xor-zero, bit_xor-step}
use wbms.Preload.{Mpu, region_round, regions_loop, disable_mpu}

-- A word with the digit `c` at a position, `h` above it and `l` below.
abbrev pub word : ℕ → ℕ → ℕ → ℕ → ℕ
word k h c l = (2 * h + c) * 2 ^ k + l

word-digit : (k h c l : ℕ) → c < 2 → l < 2 ^ k → word k h c l / 2 ^ k % 2 ≡ c
word-digit k h c l small low =
    let swap : word k h c l ≡ l + (2 * h + c) * 2 ^ k = omega arith in
    let quotient : word k h c l / 2 ^ k ≡ 2 * h + c =
      ap (λ n. n / 2 ^ k) swap
      ∙ add-mul-div_right l (2 * h + c) (omega arith)
      ∙ ap (λ n. n + (2 * h + c)) (div-eq_of_lt low)
      ∙ omega arith in
    omega (arith, quotient)

clear_digit : (k h l : ℕ) → l < 2 ^ k → bit_xor (word k h 1 l) (2 ^ k) ≡ word k h 0 l
clear_digit k h l low =
    let odd : (2 * h + 1) % 2 ≡ 1 = omega arith in
    let half : (2 * h + 1) / 2 ≡ h = omega arith in
    let upper : bit_xor ((2 * h + 1) / 2) (1 / 2) ≡ h =
      ap (λ n. bit_xor n 0) half ∙ bit_xor-zero h in
    let lower : differ ((2 * h + 1) % 2) (1 % 2) ≡ 0 = ap (λ n. differ n 1) odd in
    let digit : bit_xor (2 * h + 1) 1 ≡ 2 * h =
      omega (arith, bit_xor-step (2 * h + 1) 1, upper, lower) in
    let one_mask : bit_xor (word k h 1 l) (1 * 2 ^ k) ≡ word k h 0 l =
      bit_xor-above k (2 * h + 1) l 1 low ∙ ap (λ n. n * 2 ^ k + l) (digit ∙ omega arith) in
    ap (λ n. bit_xor (word k h 1 l) n) (omega arith) ∙ one_mask

module _ (k : ℕ) where
  -- What one round leaves of a region.
  region_round-own :
      (index h c l : ℕ) (mpu : Mpu)
      → c < 2
      → l < 2 ^ k
      → mpu.rasr index ≡ word k h c l
      → (region_round k index mpu).rasr index ≡ word k h 0 l
  unfolding region_round
  region_round-own index h zero l mpu small low e =
      let digit = ap (λ n. n / 2 ^ k % 2) e ∙ word-digit k h 0 l small low in ground (arith, digit)
  region_round-own index h (suc zero) l mpu small low e =
      let digit = ap (λ n. n / 2 ^ k % 2) e ∙ word-digit k h 1 l small low in
      let cleared = ap (λ n. bit_xor n (2 ^ k)) e ∙ clear_digit k h l low in
      ground (arith, digit, cleared)
  region_round-own index h (suc (suc c)) l mpu small low e = absurd (omega arith)

  region_round-other :
      (index i : ℕ) (mpu : Mpu) → i ≢ index → (region_round k index mpu).rasr i ≡ mpu.rasr i
  unfolding region_round
  region_round-other index i mpu h = ground arith

  regions_loop-outside :
      (n index i : ℕ) (mpu : Mpu)
      → (i < index) ⊎ (index + n ≤ i)
      → (regions_loop k n index mpu).rasr i ≡ mpu.rasr i
  unfolding regions_loop
  regions_loop-outside zero index i mpu h = refl
  regions_loop-outside (suc n) index i mpu h =
      regions_loop-outside n (index + 1) i (region_round k index mpu) (ground arith)
      ∙ region_round-other index i mpu (ground arith)

  regions_loop-inside :
      (n index i h c l : ℕ) (mpu : Mpu)
      → c < 2
      → l < 2 ^ k
      → index ≤ i
      → i < index + n
      → mpu.rasr i ≡ word k h c l
      → (regions_loop k n index mpu).rasr i ≡ word k h 0 l
  unfolding regions_loop
  regions_loop-inside zero index i h c l mpu small low from below e = absurd (omega arith)
  regions_loop-inside (suc n) index i h c l mpu small low from below e =
      let mpu' = region_round k index mpu in
      elim (Bool-cases (i == index)) [
        | inl here ↦
            let last : i ≡ index = ground arith in
            regions_loop-outside n (index + 1) i mpu' (inl (omega arith))
            ∙ ap mpu'.rasr last
            ∙ region_round-own index h c l mpu small low (ap mpu.rasr (sym last) ∙ e)
        | inr other ↦
            let later : i ≢ index = ground arith in
            regions_loop-inside n (index + 1) i h c l mpu' small low (omega arith) (omega arith)
              (region_round-other index i mpu later ∙ e)
      ]

  -- The execute-never digit of a region's word is 0 afterwards for the regions 0 to 7, whether or not
  -- it was set, and all other digits of it are kept; regions from 8 on are left as they were.
  pub disable_mpu-clears :
      (i h c l : ℕ) (mpu : Mpu)
      → c < 2
      → l < 2 ^ k
      → mpu.rasr i ≡ word k h c l
      → ((i < 8) → (disable_mpu k mpu).rasr i ≡ word k h 0 l)
        × ((8 ≤ i) → (disable_mpu k mpu).rasr i ≡ word k h c l)
  unfolding disable_mpu
  disable_mpu-clears i h c l mpu small low e = (
    λ below. regions_loop-inside 8 0 i h c l mpu small low (omega arith) (omega arith) e,
    λ above. regions_loop-outside 8 0 i mpu (inr (omega arith)) ∙ e,
  )
