-- ===== src/Led.antt =====
-- The LED, src/led.c: what is done with its pin, and the waits between. `mercury_led_fatal`, which never
-- returns, is given by its first rounds; everywhere else it is the end of a run.
pub mod Codes
use wbms.Prelude.{ℕ, zero, suc, List, [], ◌∷◌, ◌++◌}

-- `gpio_pin_configure` as an active output, `gpio_pin_set`, and `k_msleep`.
pub data Deed : Type 0 where
  output : Deed
  pin : ℕ → Deed
  sleep : ℕ → Deed

-- `mercury_led_init`
unfoldable pub led_init : List Deed
led_init = output ∷ []

-- `mercury_led_flash`
unfoldable pub led_flash : ℕ → List Deed
led_flash ms = pin 1 ∷ sleep ms ∷ pin 0 ∷ []

-- `mercury_led_setState`
unfoldable pub led_set_state : ℕ → List Deed
led_set_state state = pin state ∷ []

-- The inner loop of `mercury_led_done` and that of `mercury_led_fatal`, by the rounds left: flashes of
-- `ms` with waits of `ms` between.
unfoldable pub led_flashes : ℕ → ℕ → List Deed
unfolding led_flash
led_flashes zero ms = []
led_flashes (suc n) ms = led_flash ms ++ sleep ms ∷ led_flashes n ms

-- `mercury_led_done`, by the rounds left of its outer loop
unfoldable pub done_rounds : ℕ → List Deed
unfolding led_flashes
done_rounds zero = []
done_rounds (suc outer) = led_flashes 2 20 ++ sleep 500 ∷ done_rounds outer

-- The first rounds of `while (true)` in `mercury_led_fatal(n)`
unfoldable pub fatal_rounds : ℕ → ℕ → List Deed
unfolding led_flashes
fatal_rounds zero n = []
fatal_rounds (suc rounds) n = led_flashes n 250 ++ sleep 2000 ∷ fatal_rounds rounds n

-- `blink` of src/app_master.c and src/app_slave.c
unfoldable pub blink : List Deed
unfolding led_flash
blink = led_flash 50 ++ sleep 50 ∷ led_flash 50 ++ sleep 50 ∷ []
