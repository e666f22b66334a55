-- ===== src/Tests/Startup.antt =====
-- The theorems on the preload.
use wbms.Prelude.{◌+◌, ◌^◌, ◌<◌, ◌≤◌, ◌≡◌, refl, arith, true, List, [], ◌∷◌, none, some, replicate}
use wbms.Preload.{
  Mpu, disable_mpu, Poll, poll, overflow, go_on, is_end, rx_line, fwupd, update_detect, starts_with,
}
use wbms.Preload.Regions.{word, disable_mpu-clears}
use wbms.Preload.Lines.{
  Heard, heard_end, heard_byte, heard_nothing, rx_line-overflow, update_detect-Heard,
}

abbrev unit_at_reset : Mpu
unit_at_reset = record { rnr = 0; rasr = λ i. 2 ^ 28 + 19 }

disable_mpu-clears_example :
    ((2 < 8) → (disable_mpu 28 unit_at_reset).rasr 2 ≡ word 28 0 0 19)
    × ((8 ≤ 2) → (disable_mpu 28 unit_at_reset).rasr 2 ≡ word 28 0 1 19)
disable_mpu-clears_example =
    disable_mpu-clears 28 2 0 1 19 unit_at_reset (omega arith) (omega arith) refl

-- "ab", with a poll that hears nothing between, from the time 7 on.
abbrev two_bytes : List Poll
two_bytes = poll 8 (some 97) ∷ poll 9 none ∷ poll 900 (some 98) ∷ poll 901 (some 13) ∷ []

two_bytes-Heard : Heard 7 100 0 two_bytes (97 ∷ 98 ∷ [])
unfolding go_on is_end
two_bytes-Heard =
    heard_byte refl refl (heard_nothing refl (heard_byte refl refl (heard_end refl refl)))

rx_line-overflow_example : rx_line 7 100 two_bytes (1 ∷ []) ≡ overflow 1
rx_line-overflow_example =
    rx_line-overflow 7 100 two_bytes (97 ∷ 98 ∷ []) (1 ∷ []) two_bytes-Heard (omega arith)
      (omega arith)

-- "fwupd" and "f".
abbrev update_line : List Poll
update_line =
    poll 8 (some 102)
    ∷ poll 8 (some 119)
    ∷ poll 8 (some 117)
    ∷ poll 8 (some 112)
    ∷ poll 8 (some 100)
    ∷ poll 8 (some 10)
    ∷ []

abbrev one_byte : List Poll
one_byte = poll 8 (some 102) ∷ poll 8 (some 10) ∷ []

update_detect-Heard_example : update_detect 7 update_line (replicate 64 0) ≡ some true
unfolding go_on is_end starts_with
update_detect-Heard_example =
    update_detect-Heard 7 update_line fwupd (replicate 64 0)
      (heard_byte refl refl (
        heard_byte refl refl (
          heard_byte refl refl
            (heard_byte refl refl (heard_byte refl refl (heard_end refl refl))))))
      (omega arith) (omega arith) refl
