-- ===== src/Invariant/Events.antt =====
-- The events that drive the master, and what holds after every sequence of them.
use wbms.Prelude.{ℕ, ◌%◌, ◌^◌, List, [], ◌∷◌}
use wbms.Kernel.{Kernel}
use wbms.Bms.{Bms, Cmd, pure, ◌>>◌}
use wbms.Bms.Post
use wbms.Bms.Post.{Post, at_done}
use wbms.Mesh.Nodes.{send_start}
use wbms.Mesh.Handlers.{ok_handler, data_handler, addr_rq_handler}
use wbms.Mesh.Expiry.{data_expiry, ok_expiry}
use wbms.Diag.{diag_round}
use wbms.Invariant.Consistent.{IsConsistent}
use wbms.Invariant.Messages.{client_addr-Keeps, send_start-Keeps}
use wbms.Invariant.Handlers.{
  ok_handler-Keeps, data_handler-Keeps, addr_rq_handler-Keeps, data_lost-Keeps, ok_lost-Keeps,
  diag_round-Keeps,
}

-- A message that arrives, a timer of a node that expires, the start signal of the main thread, and
-- a round of the diagnostic thread.
pub data Event : Type 0 where
  ok_received data_received addr_rq_received : ℕ → List ℕ → Event
  ok_timer data_timer : ℕ → Event
  start diagnose : Event

module _ {W : Type 0} ⦃k : Kernel W⦄ where
  unfoldable pub handle : ℕ → Event → Cmd W (Unit {0})
  handle fuel (ok_received a buf) = ok_handler fuel a buf
  handle fuel (data_received a buf) = data_handler fuel a buf
  handle fuel (addr_rq_received a buf) = addr_rq_handler a buf
  handle fuel (ok_timer i) = ok_expiry i
  handle fuel (data_timer i) = data_expiry fuel i
  handle fuel start = send_start
  handle fuel diagnose = diag_round

  unfoldable pub handle_all : ℕ → List Event → Cmd W (Unit {0})
  handle_all fuel [] = pure tt
  handle_all fuel (e ∷ es) = handle fuel e >> handle_all fuel es

module _ {W : Type 0} ⦃k : Kernel W⦄ {n : ℕ} where
  -- Each event that drives the master keeps the invariant: whenever its handling ends, normally or
  -- in `mercury_led_fatal`, the tables have their sizes, each error counter of the system is the sum
  -- of the nodes' counters, and each node has as many started transactions as counted OKs.
  pub handle-IsConsistent :
      (fuel : ℕ) (e : Event) (s : Bms W)
      → IsConsistent n s
      → Post (IsConsistent n) (handle fuel e s)
  unfolding handle data_expiry ok_expiry
  handle-IsConsistent fuel (ok_received a buf) s h = ok_handler-Keeps fuel a buf s h
  handle-IsConsistent fuel (data_received a buf) s h = data_handler-Keeps fuel a buf s h
  handle-IsConsistent fuel (addr_rq_received a buf) s h = addr_rq_handler-Keeps a buf s h
  handle-IsConsistent fuel (ok_timer i) s h =
      Post.bind (client_addr-Keeps i s h) λ a. ok_lost-Keeps (a % 2 ^ 8)
  handle-IsConsistent fuel (data_timer i) s h =
      Post.bind (client_addr-Keeps i s h) λ a. data_lost-Keeps fuel (a % 2 ^ 8)
  handle-IsConsistent fuel start s h = send_start-Keeps s h
  handle-IsConsistent fuel diagnose s h = diag_round-Keeps s h

  -- From a state with these properties on, every sequence of events, whatever arrives and in
  -- whatever order, keeps them: whenever its handling ends, normally or in `mercury_led_fatal`, the
  -- tables have their sizes, each error counter of the system is, modulo 2^32, the sum of the nodes'
  -- counters, and each node has as many started transactions as counted OKs.
  pub handle_all-IsConsistent :
      (fuel : ℕ) (es : List Event) (s : Bms W)
      → IsConsistent n s
      → Post (IsConsistent n) (handle_all fuel es s)
  unfolding handle_all
  handle_all-IsConsistent fuel [] s h = at_done h
  handle_all-IsConsistent fuel (e ∷ es) s h =
      Post.bind (handle-IsConsistent fuel e s h) λ _. handle_all-IsConsistent fuel es
