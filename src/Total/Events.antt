-- ===== src/Total/Events.antt =====
-- Every sequence of messages from nodes in the tables, of their expired timers, of start signals and of
-- diagnostic rounds is handled to its end.
use wbms.Prelude.{ℕ, suc, ◌+◌, ◌%◌, ◌^◌, ◌<◌, ◌≤◌, List, [], ◌∷◌, length, arith}
use wbms.Kernel.{Kernel}
use wbms.Bms.{Bms, Run}
use wbms.Bms.Post.{Post, at_done, at_halt, at_fault, at_no_fuel}
use wbms.Invariant.Consistent.{IsConsistent}
use wbms.Invariant.Events.{
  Event, ok_received, data_received, addr_rq_received, ok_timer, data_timer, start, diagnose,
  handle, handle_all, handle_all-IsConsistent,
}
use wbms.Total.Ready
use wbms.Total.Ready.{Ends, ends, stops, Views, IsReliable, InNode, IsFormed, IsReady, more_room}
use wbms.Total.Loops.{send_start-Ends}
use wbms.Total.Diagnose.{diag_round-Ends}
use wbms.Total.Handlers.{ok_handler-Ends, data_handler-Ends, data_expiry-Ends, ok_expiry-Ends}

-- An event of one of `n` nodes: an OK of two bytes, a data packet of 16 cells, a token and a checksum,
-- a timer of one of the nodes; the start signal; or a round of the diagnostic thread.
pub data Fits (n : ℕ) : Event → Type 0 where
  fits_ok :
      {a : ℕ} {buf : List ℕ} → InNode n (a % 2 ^ 8) → 2 ≤ length buf → Fits n (ok_received a buf)
  fits_data :
      {a : ℕ} {buf : List ℕ} → InNode n (a % 2 ^ 8) → 22 ≤ length buf → Fits n (data_received a buf)
  fits_ok_timer : {i : ℕ} → i < n → Fits n (ok_timer i)
  fits_data_timer : {i : ℕ} → i < n → Fits n (data_timer i)
  fits_start : Fits n start
  fits_diagnose : Fits n diagnose

pub data AllFit (n : ℕ) : List Event → Type 0 where
  fit_nil : AllFit n []
  fit_cons : {e : Event} {es : List Event} → Fits n e → AllFit n es → AllFit n (e ∷ es)

module _ {W : Type 0} {P : Bms W → Type 0} {Q : Bms W → Type 0} where
  -- What holds wherever a run ends holds at the end that it has.
  both : {A : Type 0} {r : Run W A} → Post P r → Ends (λ _ s. Q s) r → Ends (λ _ s. P s × Q s) r
  both (at_done a) (ends b) = ends (a, b)
  both (at_halt a) stops = stops
  both at_fault e = elim e [ ]
  both at_no_fuel e = elim e [ ]

module _ {W : Type 0} ⦃k : Kernel W⦄ {v : Views W} {n : ℕ} {table : List ℕ} (law : IsReliable k v)
    (net : IsFormed n table) where
  handle-Ends :
      (fuel p q : ℕ) (e : Event) (s : Bms W)
      → p < fuel
      → q + 1 < fuel
      → Fits n e
      → IsReady v n table p q s
      → Ends (λ _ s'. IsReady v n table (p + 1) (q + 1) s') (handle fuel e s)
  unfolding handle
  handle-Ends fuel p q (ok_received a buf) s x y (fits_ok inside long) h =
      Ready.relax (ok_handler-Ends law net fuel a buf s (omega arith) inside long h)
        λ _ s h. more_room h (p + 1) (q + 1) (omega arith) (omega arith)
  handle-Ends fuel p q (data_received a buf) s x y (fits_data inside long) h =
      Ready.relax (data_handler-Ends law net fuel a buf s y inside long h)
        λ _ s h. more_room h (p + 1) (q + 1) (omega arith) (omega arith)
  handle-Ends fuel p q (ok_timer i) s x y (fits_ok_timer below) h =
      Ready.relax (ok_expiry-Ends law net i below s h)
        λ _ s h. more_room h (p + 1) (q + 1) (omega arith) (omega arith)
  handle-Ends fuel p q (data_timer i) s x y (fits_data_timer below) h =
      Ready.relax (data_expiry-Ends law net fuel i x (omega arith) below s h)
        λ _ s h. more_room h (p + 1) (q + 1) (omega arith) (omega arith)
  handle-Ends fuel p q (addr_rq_received a buf) s x y never h = elim never [ ]
  handle-Ends fuel p q diagnose s x y fits_diagnose h =
      Ready.relax (diag_round-Ends law net s h)
        λ _ s h. more_room h (p + 1) (q + 1) (omega arith) (omega arith)
  handle-Ends fuel p q start s x y fits_start h =
      Ready.relax (send_start-Ends law net s h)
        λ _ s h. more_room h (p + 1) (q + 1) (omega arith) (omega arith)

  all-Ends :
      (fuel p q : ℕ) (es : List Event) (s : Bms W)
      → p + length es < fuel
      → q + length es < fuel
      → AllFit n es
      → IsReady v n table p q s
      → Ends (λ _ s'. IsReady v n table (p + length es) (q + length es) s') (handle_all fuel es s)
  unfolding handle_all
  all-Ends fuel p q [] s x y fit_nil h =
      ends (more_room h (p + 0) (q + 0) (omega arith) (omega arith))
  all-Ends fuel p q (e ∷ es) s x y (fit_cons f fs) h =
      Ready.bind (handle-Ends fuel p q e s (omega arith) (omega arith) f h) λ _ s h.
        Ready.relax (all-Ends fuel (p + 1) (q + 1) es s (omega arith) (omega arith) fs h) λ _ s h.
          more_room h (p + suc (length es)) (q + suc (length es)) (omega arith) (omega arith)

  -- With at most 16 nodes that have all joined, a kernel that has memory and keeps its queues apart, and
  -- more fuel than a FIFO has entries and there are events: every sequence of OKs of at least two bytes
  -- and data packets of at least 22 of these nodes, of their expired timers, of start signals and of
  -- diagnostic rounds, in whatever order, is handled without leaving an array, using memory that was not
  -- given, pulling from an empty buffer or running out of fuel. It ends, unless in `mercury_led_fatal`,
  -- in a consistent state that is ready for the next events.
  pub handle_all-Ends :
      (fuel p q : ℕ) (es : List Event) (s : Bms W)
      → p + length es < fuel
      → q + length es < fuel
      → AllFit n es
      → IsReady v n table p q s
      → IsConsistent n s
      → Ends
          (λ _ s'. IsConsistent n s' × IsReady v n table (p + length es) (q + length es) s')
          (handle_all fuel es s)
  handle_all-Ends fuel p q es s x y fit h fine =
      both (handle_all-IsConsistent fuel es s fine) (all-Ends fuel p q es s x y fit h)
