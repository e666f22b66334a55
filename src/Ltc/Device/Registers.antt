-- ===== src/Ltc/Device/Registers.antt =====
-- The initialisation with a chip that has two configuration registers.
use mathlib.Core.Path.{ap₂}
use wbms.Prelude.{
  ℕ, zero, suc, ◌+◌, ◌*◌, ◌≡◌, ◌↔◌, refl, sym, ap, subst, ◌∙◌, true, false, Option, none, some,
  List, [], ◌∷◌, ◌++◌, length, length-append, arith,
}
use wbms.Spi.{Chip, Bus, spi_write, spi_read, spi_read_seq}
use wbms.Spi.Sequence.{spi_read_seq-reply}
use wbms.Ltc.Pec.{crc15_at, pec_step, pec_loop, calc_pec}
use wbms.Ltc.Init.{ℤ, pos, take, init, init-zero}
use wbms.Ltc.Device.{
  cs_low, cs_high, wake_sleep, wake_idle, read_selected, write_selected, write_configs,
  read_configs, ltc_init,
}

-- Of the chip's documented commands: while it is selected, RDCFGA (0x002) answers the six bytes of
-- configuration A, and RDCFGB (0x026) those of B, each with two more bytes, behind what is received during
-- the command, and neither changes a register.
pub record IsRead {S : Type 0} (chip : Chip S) (reg_a reg_b : S → List ℕ) : Type 0 where
  pub size_a : (s : S) → length (reg_a s) ≡ 6
  pub size_b : (s : S) → length (reg_b s) ≡ 6
  pub during : S → List ℕ
  pub four : (s : S) → length (during s) ≡ 4
  pub code_a : S → ℕ × ℕ
  pub code_b : S → ℕ × ℕ
  pub read_a :
      (s : S)
      → (chip.transfer true (0x0 ∷ 0x2 ∷ 0x2b ∷ 0xa ∷ []) 12 s).0
        ≡ during s ++ (reg_a s ++ ((code_a s).0 ∷ (code_a s).1 ∷ []))
  pub read_b :
      (s : S)
      → (chip.transfer true (0x0 ∷ 0x26 ∷ 0x2c ∷ 0xc8 ∷ []) 12 s).0
        ≡ during s ++ (reg_b s ++ ((code_b s).0 ∷ (code_b s).1 ∷ []))
  pub kept_by_a :
      (s : S)
      → let s' = (chip.transfer true (0x0 ∷ 0x2 ∷ 0x2b ∷ 0xa ∷ []) 12 s).1 in
        (reg_a s' ≡ reg_a s) × (reg_b s' ≡ reg_b s)
  pub kept_by_b :
      (s : S)
      → let s' = (chip.transfer true (0x0 ∷ 0x26 ∷ 0x2c ∷ 0xc8 ∷ []) 12 s).1 in
        (reg_a s' ≡ reg_a s) × (reg_b s' ≡ reg_b s)

-- And WRCFGA (0x001) and WRCFGB (0x024) put six bytes that come with their packet error code into their
-- register and leave the other, and the byte 0xff changes none.
pub record IsWritten {S : Type 0} (chip : Chip S) (reg_a reg_b : S → List ℕ) : Type 0 where
  pub write_a :
      (a b c d e f p q n : ℕ) (s : S)
      → calc_pec (a ∷ b ∷ c ∷ d ∷ e ∷ f ∷ []) ≡ p * 256 + q
      → let s' =
          (chip.transfer true
            (0x0 ∷ 0x1 ∷ 0x3d ∷ 0x6e ∷ a ∷ b ∷ c ∷ d ∷ e ∷ f ∷ p ∷ q ∷ [])
            n
            s).1 in
        (reg_a s' ≡ a ∷ b ∷ c ∷ d ∷ e ∷ f ∷ []) × (reg_b s' ≡ reg_b s)
  pub write_b :
      (a b c d e f p q n : ℕ) (s : S)
      → calc_pec (a ∷ b ∷ c ∷ d ∷ e ∷ f ∷ []) ≡ p * 256 + q
      → let s' =
          (chip.transfer true
            (0x0 ∷ 0x24 ∷ 0xb1 ∷ 0x9e ∷ a ∷ b ∷ c ∷ d ∷ e ∷ f ∷ p ∷ q ∷ [])
            n
            s).1 in
        (reg_b s' ≡ a ∷ b ∷ c ∷ d ∷ e ∷ f ∷ []) × (reg_a s' ≡ reg_a s)
  pub wakes :
      (s : S)
      → let s' = (chip.transfer true (0xff ∷ []) 2 s).1 in
        (reg_a s' ≡ reg_a s) × (reg_b s' ≡ reg_b s)

take-front : (n : ℕ) (xs ys : List ℕ) → length xs ≡ n → take n (xs ++ ys) ≡ xs
unfolding take
take-front zero [] ys e = refl
take-front zero (x ∷ xs) ys e = absurd (omega arith)
take-front (suc n) [] ys e = absurd (omega arith)
take-front (suc n) (x ∷ xs) ys e = ap (λ l. x ∷ l) (take-front n xs ys (omega arith))

module _ {S : Type 0} (chip : Chip S) where
  -- The answer to a command of four bytes, of eight bytes.
  read_reply :
      (cmd pre reply : List ℕ) (b : Bus S)
      → length cmd ≡ 4
      → length pre ≡ 4
      → length reply ≡ 8
      → (chip.transfer true cmd 12 b.chip).0 ≡ pre ++ reply
      → (read_selected chip cmd 8 b).0 ≡ some reply
  unfolding read_selected cs_low cs_high
  read_reply cmd pre reply b four before eight e =
      let s = (chip.transfer true cmd 12 b.chip).1 in
      let many : length reply + length cmd ≡ 12 = omega arith in
      let got : chip.transfer true cmd (length reply + length cmd) b.chip ≡ (pre ++ reply, s) =
        ap (λ n. chip.transfer true cmd n b.chip) many ∙ ap (λ l. (l, s)) e in
      ap (λ n. (spi_read_seq chip cmd n (record b { high = false })).0) (sym eight)
      ∙ ap (λ (r : Option (List ℕ) × Bus S). r.0)
          (spi_read_seq-reply chip cmd pre reply s (record b { high = false }) got
            (omega (arith, four, before)))

  module _ {reg_a reg_b : S → List ℕ} (law : IsRead chip reg_a reg_b) where
    -- With a chip that answers its configurations: whatever the chip was, and whatever it has made of
    -- what was written to it, the initialisation leaves no array, and returns 0 exactly when the
    -- configurations A and B that the chip has then have the packet error codes 0x4748 and 0x905a; the
    -- configurations stay as they were read.
    pub ltc_init-IsRead :
        (b : Bus S)
        → let s = (write_configs chip b).chip in
          (r : ℤ) × (b' : Bus S) × (ltc_init chip b ≡ (some r, b'))
          × ((r ≡ pos 0) ↔ ((calc_pec (reg_a s) ≡ 0x4748) × (calc_pec (reg_b s) ≡ 0x905a)))
          × (reg_a b'.chip ≡ reg_a s)
          × (reg_b b'.chip ≡ reg_b s)
    unfolding ltc_init read_configs read_selected spi_read_seq spi_read cs_low cs_high
    ltc_init-IsRead b =
        let b1 = write_configs chip b in
        let s = b1.chip in
        let cmd_a = 0x0 ∷ 0x2 ∷ 0x2b ∷ 0xa ∷ [] in
        let cmd_b = 0x0 ∷ 0x26 ∷ 0x2c ∷ 0xc8 ∷ [] in
        let xs = reg_a s ++ ((law.code_a s).0 ∷ (law.code_a s).1 ∷ []) in
        let b2 = (read_selected chip cmd_a 8 b1).1 in
        let ys = reg_b b2.chip ++ ((law.code_b b2.chip).0 ∷ (law.code_b b2.chip).1 ∷ []) in
        let b3 = (read_selected chip cmd_b 8 b2).1 in
        let eight_a : length xs ≡ 8 = omega (
          arith,
          length-append (reg_a s) ((law.code_a s).0 ∷ (law.code_a s).1 ∷ []),
          law.size_a s,
        ) in
        let eight_b : length ys ≡ 8 = omega (
          arith,
          length-append (reg_b b2.chip) ((law.code_b b2.chip).0 ∷ (law.code_b b2.chip).1 ∷ []),
          law.size_b b2.chip,
        ) in
        let got_a : (read_selected chip cmd_a 8 b1).0 ≡ some xs =
          read_reply cmd_a (law.during s) xs b1 refl (law.four s) eight_a (law.read_a s) in
        let got_b : (read_selected chip cmd_b 8 b2).0 ≡ some ys =
          read_reply cmd_b (law.during b2.chip) ys b2 refl (law.four b2.chip) eight_b
            (law.read_b b2.chip) in
        let (same_a, same_b) = law.kept_by_a s in
        let (last_a, last_b) = law.kept_by_b b2.chip in
        let six_a : take 6 xs ≡ reg_a s = take-front 6 (reg_a s) _ (law.size_a s) in
        let six_b : take 6 ys ≡ reg_b s =
          take-front 6 (reg_b b2.chip) _ (law.size_b b2.chip) ∙ same_b in
        let zero_code : (init xs ys ≡ pos 0)
            ↔ ((calc_pec (reg_a s) ≡ 0x4748) × (calc_pec (reg_b s) ≡ 0x905a)) =
          subst
            (λ l. (init xs ys ≡ pos 0) ↔ ((calc_pec l ≡ 0x4748) × (calc_pec (reg_b s) ≡ 0x905a)))
            six_a
            (subst
              (λ l.
                (init xs ys ≡ pos 0) ↔ ((calc_pec (take 6 xs) ≡ 0x4748) × (calc_pec l ≡ 0x905a)))
              six_b (init-zero xs ys)) in
        let checked : ltc_init chip b ≡ (some (init xs ys), b3) =
          ap₂
            (λ (o p : Option (List ℕ)). elim o as (λ x. Option ℤ × Bus S) [
              | none ↦ (none, b3)
              | some xs ↦ elim p as (λ x. Option ℤ × Bus S) [
                | none ↦ (none, b3)
                | some ys ↦ (some (init xs ys), b3)
              ]
            ])
            got_a got_b in
        (init xs ys, b3, checked, zero_code, last_a ∙ same_a, last_b ∙ same_b)

    -- With a chip that also takes the configurations that are written with their codes: from whatever
    -- configurations the initialisation returns 0, and the chip has the two that it writes.
    pub ltc_init-IsWritten :
        (b : Bus S)
        → IsWritten chip reg_a reg_b
        → (b' : Bus S) × (ltc_init chip b ≡ (some (pos 0), b'))
          × (reg_a b'.chip ≡ 0xe4 ∷ 0x52 ∷ 0x27 ∷ 0xa0 ∷ 0x0 ∷ 0x50 ∷ [])
          × (reg_b b'.chip ≡ 0x0 ∷ 0x8 ∷ 0x0 ∷ 0x0 ∷ 0x0 ∷ 0x0 ∷ [])
    unfolding write_configs wake_sleep wake_idle write_selected read_selected spi_write spi_read_seq
        spi_read cs_low cs_high calc_pec pec_loop pec_step crc15_at
    ltc_init-IsWritten b put =
        let n = b.rxd_max_len in
        let code_a : calc_pec (0xe4 ∷ 0x52 ∷ 0x27 ∷ 0xa0 ∷ 0x0 ∷ 0x50 ∷ []) ≡ 0x47 * 256 + 0x48 =
          refl in
        let code_b : calc_pec (0x0 ∷ 0x8 ∷ 0x0 ∷ 0x0 ∷ 0x0 ∷ 0x0 ∷ []) ≡ 0x90 * 256 + 0x5a = refl in
        let (wrote_a, old_b) = put.write_a 0xe4 0x52 0x27 0xa0 0x0 0x50 0x47 0x48 n b.chip code_a in
        let s1 =
          (chip.transfer true
            (0x0 ∷ 0x1 ∷ 0x3d ∷ 0x6e ∷ 0xe4 ∷ 0x52 ∷ 0x27 ∷ 0xa0 ∷ 0x0 ∷ 0x50 ∷ 0x47 ∷ 0x48 ∷ []) n
            b.chip).1 in
        let (wrote_b, kept_a) = put.write_b 0x0 0x8 0x0 0x0 0x0 0x0 0x90 0x5a n s1 code_b in
        let s2 =
          (chip.transfer true
            (0x0 ∷ 0x24 ∷ 0xb1 ∷ 0x9e ∷ 0x0 ∷ 0x8 ∷ 0x0 ∷ 0x0 ∷ 0x0 ∷ 0x0 ∷ 0x90 ∷ 0x5a ∷ []) n
            s1).1 in
        let (awake_a, awake_b) = put.wakes s2 in
        let (r, b', ran, codes, left_a, left_b) = ltc_init-IsRead b in
        let now_a = awake_a ∙ kept_a ∙ wrote_a in
        let now_b = awake_b ∙ wrote_b in
        let fine : r ≡ pos 0 = codes.1 (ap calc_pec now_a ∙ code_a, ap calc_pec now_b ∙ code_b) in
        (b', ran ∙ ap (λ r. (some r, b')) fine, left_a ∙ now_a, left_b ∙ now_b)
