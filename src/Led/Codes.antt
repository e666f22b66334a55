-- ===== src/Led/Codes.antt =====
-- What one sees who watches the LED: numbers of flashes between pauses of a second or more.
use wbms.Prelude.{
  ℕ, zero, suc, ◌+◌, ◌<◌, ◌≤◌, ◌≡◌, refl, ap, ◌∙◌, List, [], ◌∷◌, ◌++◌, replicate, leb, arith, Bool,
  true, false, if◌then◌else◌, ◌==◌,
}
use wbms.Led.{Deed, output, pin, sleep, led_flashes, done_rounds, fatal_rounds}

-- The numbers that are seen when the LED is lit or not, has been dark for so long, and has flashed so
-- many times since the last pause: a number is complete when the LED is lit again behind a pause.
unfoldable pub watch : Bool → ℕ → ℕ → List Deed → List ℕ
watch lit dark flashes [] = []
watch lit dark flashes (output ∷ ds) = watch lit dark flashes ds
watch lit dark flashes (sleep ms ∷ ds) =
    if lit then watch true dark flashes ds else watch false (dark + ms) flashes ds
watch lit dark flashes (pin x ∷ ds) =
    let off = watch false (if lit then 0 else dark) flashes ds in
    let on = watch true 0 flashes ds in
    let same_number = watch true 0 (flashes + 1) ds in
    let next_number = watch true 0 1 ds in
    if x == 0
    then off
    else if lit
    then on
    else if leb 1000 dark
    then flashes ∷ next_number
    else same_number

module _ (ms : ℕ) where
  abbrev one_flash : List Deed → List Deed
  one_flash ds = pin 1 ∷ sleep ms ∷ pin 0 ∷ sleep ms ∷ ds

  watch-flash :
      (dark flashes : ℕ) (ds : List Deed)
      → dark < 1000
      → watch false dark flashes (one_flash ds) ≡ watch false ms (flashes + 1) ds
  unfolding watch
  watch-flash dark flashes ds brief =
      let short : leb 1000 dark ≡ false = ground arith in
      rw short (ap (λ i. watch false i (flashes + 1) ds) (omega arith))

  watch-next :
      (dark flashes : ℕ) (ds : List Deed)
      → 1000 ≤ dark
      → watch false dark flashes (one_flash ds) ≡ flashes ∷ watch false ms 1 ds
  unfolding watch
  watch-next dark flashes ds long =
      let pause : leb 1000 dark ≡ true = ground arith in
      rw pause (ap (λ i. flashes ∷ watch false i 1 ds) (omega arith))

  -- Flashes behind a short wait are counted on.
  watch-led_flashes :
      (n flashes : ℕ) (ds : List Deed)
      → ms < 1000
      → watch false ms flashes (led_flashes n ms ++ ds) ≡ watch false ms (flashes + n) ds
  unfolding led_flashes
  watch-led_flashes zero flashes ds short = ap (λ i. watch false ms i ds) (omega arith)
  watch-led_flashes (suc n) flashes ds short =
      watch-flash ms flashes (led_flashes n ms ++ ds) short
      ∙ watch-led_flashes n (flashes + 1) ds short
      ∙ ap (λ i. watch false ms i ds) (omega arith)

watch-pause :
    (dark ms flashes : ℕ) (ds : List Deed)
    → watch false dark flashes (sleep ms ∷ ds) ≡ watch false (dark + ms) flashes ds
unfolding watch
watch-pause dark ms flashes ds = refl

-- A round of `mercury_led_fatal` behind a pause completes the number before it.
watch-round :
    (n flashes : ℕ) (ds : List Deed)
    → watch false 2250 flashes (led_flashes (suc n) 250 ++ sleep 2000 ∷ ds)
      ≡ flashes ∷ watch false 2250 (suc n) ds
unfolding led_flashes
watch-round n flashes ds =
    watch-next 250 2250 flashes (led_flashes n 250 ++ sleep 2000 ∷ ds) (omega arith)
    ∙ ap (λ l. flashes ∷ l)
        (watch-led_flashes 250 n 1 (sleep 2000 ∷ ds) (omega arith)
          ∙ watch-pause 250 2000 (1 + n) ds
          ∙ ap (λ i. watch false 2250 i ds) (omega arith))

watch-rounds :
    (rounds n : ℕ)
    → watch false 2250 (suc n) (fatal_rounds rounds (suc n)) ≡ replicate rounds (suc n)
unfolding fatal_rounds watch
watch-rounds zero n = refl
watch-rounds (suc rounds) n =
    watch-round n (suc n) (fatal_rounds rounds (suc n))
    ∙ ap (λ l. suc n ∷ l) (watch-rounds rounds n)

-- Who watches `mercury_led_fatal(n)`, for an n of at least 1, sees the number n, once for each round after
-- the first.
pub watch-fatal_rounds :
    (rounds n : ℕ) → 1 ≤ n → watch false 0 0 (fatal_rounds (suc rounds) n) ≡ replicate rounds n
unfolding fatal_rounds led_flashes
watch-fatal_rounds rounds zero some_left = absurd (omega arith)
watch-fatal_rounds rounds (suc n) some_left =
    watch-flash 250 0 0 (led_flashes n 250 ++ sleep 2000 ∷ fatal_rounds rounds (suc n))
      (omega arith)
    ∙ watch-led_flashes 250 n 1 (sleep 2000 ∷ fatal_rounds rounds (suc n)) (omega arith)
    ∙ watch-pause 250 2000 (1 + n) (fatal_rounds rounds (suc n))
    ∙ ap (λ i. watch false 2250 i (fatal_rounds rounds (suc n))) (omega arith)
    ∙ watch-rounds rounds n

-- No number is seen in `mercury_led_done`: its waits are too short.
watch-done_rounds :
    (outer dark flashes : ℕ) → dark < 1000 → watch false dark flashes (done_rounds outer) ≡ []
unfolding done_rounds led_flashes watch
watch-done_rounds zero dark flashes brief = refl
watch-done_rounds (suc outer) dark flashes brief =
    watch-flash 20 dark flashes (one_flash 20 (sleep 500 ∷ done_rounds outer)) brief
    ∙ watch-flash 20 20 (flashes + 1) (sleep 500 ∷ done_rounds outer) (omega arith)
    ∙ watch-pause 20 500 (flashes + 1 + 1) (done_rounds outer)
    ∙ watch-done_rounds outer 520 (flashes + 1 + 1) (omega arith)
