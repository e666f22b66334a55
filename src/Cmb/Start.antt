-- ===== src/Cmb/Start.antt =====
-- The start of a node, src/app_slave.c: `mercury_cmb_init` sets up the bus and the chip, and the main
-- thread, `mercury_main_cmb`, sets up its semaphore and waits there for the start signal of the master.
use wbms.Prelude.{
  ℕ, ◌-◌, ◌≡◌, refl, ◌∙◌, List, [], ◌∷◌, Option, none, some, arith, ◌==◌, if◌then◌else◌, Bool-cases,
  inl, inr,
}
use wbms.Kernel.{Kernel}
use wbms.Spi.{Chip, Bus}
use wbms.Spi.Setup.{Setting, spi_setup}
use wbms.Ltc.Init.{ℤ}
use wbms.Ltc.Device.{ltc_init}
use wbms.Cmb.Node.{Cmb, Outcome, done, and_then, ack_handler, send_ok}
use wbms.Cmb.Node.Signals.{Signal, start, acknowledged, take_signal, take_signals}

-- `mercury_cmb_init`: the settings that are made, and the code of the chip's initialisation, which is only
-- printed. The speed is SPI_Speed_250K.
unfoldable pub cmb_init : {S : Type 0} → Chip S → Bus S → List Setting × Option ℤ × Bus S
unfolding spi_setup
cmb_init chip b = let (code, b') = ltc_init chip b in (spi_setup 14 13 12 0x04000000, code, b')

-- `k_sem_init(&startSem, 0, 1)`, with which the thread begins. The semaphore `ack` is not used.
unfoldable pub main_init : {W : Type 0} → Cmb W → Cmb W
main_init s = record s { start_sem = 0 }

module _ {W : Type 0} ⦃k : Kernel W⦄ where
  -- From `k_sem_take(&startSem, K_FOREVER)` to the loop: `none` while it waits.
  unfoldable pub main_start : Cmb W → Option (Outcome W)
  unfolding send_ok
  main_start s =
      if s.start_sem == 0
      then none
      else some (
          and_then (send_ok (record s { start_sem = s.start_sem - 1 }))
            (λ s'. done (record s' { ok_sgn = 0; rcv_sgn = 0; restart_sgn = 0 })))

-- No start signal is among the messages.
pub data NoStart : List Signal → Type 0 where
  no_signal : NoStart []
  no_start : {sender : ℕ} {xs : List Signal} → NoStart xs → NoStart (acknowledged sender ∷ xs)

module _ {W : Type 0} where
  take_signals-count :
      (xs : List Signal) (s : Cmb W) → NoStart xs → (take_signals xs s).start_sem ≡ s.start_sem
  unfolding take_signals take_signal ack_handler
  take_signals-count [] s n = refl
  take_signals-count (start ∷ xs) s n = elim n [ ]
  take_signals-count (acknowledged sender ∷ xs) s (no_start n) =
      take_signals-count xs (ack_handler sender s) n ∙ elim (Bool-cases (sender == s.mesh_addr)) [
        | inl own ↦ rw (own, ack_handler) refl
        | inr other ↦ rw (other, ack_handler) refl
      ]

module _ {W : Type 0} ⦃k : Kernel W⦄ where
  -- A start signal that comes before the main thread has set up its semaphore is lost: whatever came
  -- before, the thread waits as long as only acknowledgements come after.
  pub main_start-lost :
      (xs ys : List Signal) (s : Cmb W)
      → NoStart ys
      → main_start (take_signals ys (main_init (take_signals xs s))) ≡ none
  unfolding main_start main_init
  main_start-lost xs ys s n =
      let count = take_signals-count ys (record (take_signals xs s) { start_sem = 0 }) n in
      ground (arith, count)
