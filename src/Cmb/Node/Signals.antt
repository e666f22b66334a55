-- ===== src/Cmb/Node/Signals.antt =====
-- Which messages make the node send its next OK.
use wbms.Prelude.{ℕ, ◌≡◌, List, [], ◌∷◌, arith, ◌==◌, Bool-cases, inl, inr}
use wbms.Kernel.{Kernel}
use wbms.Cmb.Node.{Cmb, done, start_handler, ack_handler, main_round}

-- The messages of the master that only set a flag.
pub data Signal : Type 0 where
  start : Signal
  acknowledged : ℕ → Signal

unfoldable pub take_signal : {W : Type 0} → Signal → Cmb W → Cmb W
unfolding start_handler ack_handler
take_signal start s = start_handler s
take_signal (acknowledged sender) s = ack_handler sender s

unfoldable pub take_signals : {W : Type 0} → List Signal → Cmb W → Cmb W
unfolding take_signal
take_signals [] s = s
take_signals (x ∷ xs) s = take_signals xs (take_signal x s)

-- None of the flags that the main loop reads is set.
pub record IsQuiet {W : Type 0} (s : Cmb W) : Type 0 where
  pub no_ok : s.ok_sgn ≡ 0
  pub no_rcv : s.rcv_sgn ≡ 0
  pub no_restart : s.restart_sgn ≡ 0

take_signal-IsQuiet : {W : Type 0} (x : Signal) (s : Cmb W) → IsQuiet s → IsQuiet (take_signal x s)
unfolding take_signal
take_signal-IsQuiet start s q = record {
  no_ok = q.no_ok;
  no_rcv = q.no_rcv;
  no_restart = q.no_restart;
}
take_signal-IsQuiet (acknowledged sender) s q = elim (Bool-cases (sender == s.mesh_addr)) [
  | inl own ↦ rw own q
  | inr other ↦ rw other (record { no_ok = q.no_ok; no_rcv = q.no_rcv; no_restart = q.no_restart })
]

take_signals-IsQuiet :
    {W : Type 0} (xs : List Signal) (s : Cmb W) → IsQuiet s → IsQuiet (take_signals xs s)
unfolding take_signals
take_signals-IsQuiet [] s q = q
take_signals-IsQuiet (x ∷ xs) s q =
    take_signals-IsQuiet xs (take_signal x s) (take_signal-IsQuiet x s q)

module _ {W : Type 0} ⦃k : Kernel W⦄ where
  -- After any acknowledgements and start signals a node whose flags are clear does nothing in its
  -- main loop: the flags that those messages set are not the ones that the loop reads.
  pub main_round-quiet :
      (xs : List Signal) (s : Cmb W)
      → IsQuiet s
      → main_round (take_signals xs s) ≡ done (take_signals xs s)
  unfolding main_round
  main_round-quiet xs s q =
      let after = take_signals-IsQuiet xs s q in
      ground (arith, after.no_ok, after.no_rcv, after.no_restart)
