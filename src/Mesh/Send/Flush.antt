-- ===== src/Mesh/Send/Flush.antt =====
-- The end of `bt_mesh_cli_flushFifos` of src/mesh_cli.c, and the FIFOs after it.
use wbms.Prelude.{ℕ, zero, suc, ◌<◌, ◌≡◌, refl, ◌∙◌, ap, List, [], ◌∷◌, length, arith}
use wbms.Types.{FifoData}
use wbms.Kernel.{Fifo, Kernel}
use wbms.Kernel.Laws.{IsFifo}
use wbms.Bms.{Bms, done, pure}
use wbms.Mesh.Send.{drain, flush_fifos}

-- The two FIFOs are apart from each other and from the heap.
pub record AreApart {W : Type 0} (k : Kernel W) (addrs data_addrs : W → List FifoData)
    : Type 0 where
  pub addr_law : IsFifo k.addr_fifo addrs
  pub data_law : IsFifo k.data_addr_fifo data_addrs
  pub addr_get : (w : W) → data_addrs (k.addr_fifo.get w).1 ≡ data_addrs w
  pub data_get : (w : W) → addrs (k.data_addr_fifo.get w).1 ≡ addrs w
  pub addr_release : (w : W) → addrs (k.release w) ≡ addrs w
  pub data_release : (w : W) → data_addrs (k.release w) ≡ data_addrs w

module _ {W : Type 0} ⦃k : Kernel W⦄ where
  module _ (q : Fifo W FifoData) (view other : W → List FifoData) (law : IsFifo q view)
      (other_get : (w : W) → other (q.get w).1 ≡ other w)
      (view_release : (w : W) → view (k.release w) ≡ view w)
      (other_release : (w : W) → other (k.release w) ≡ other w) where
    drain-empties :
        (l : List FifoData) (fuel : ℕ) (s : Bms W)
        → view s.world ≡ l
        → length l < fuel
        → (w : W) × (drain q (λ d. pure tt) fuel s ≡ done tt (record s { world = w }))
          × (view w ≡ [])
          × (other w ≡ other s.world)
    unfolding drain
    drain-empties l zero s e h = absurd (omega arith)
    drain-empties [] (suc fuel) s e h = (s.world, ground (arith, law.empty_nil s.world e), e, refl)
    drain-empties (x ∷ xs) (suc fuel) s e h =
        let w1 = (q.get s.world).1 in
        let w2 = k.release w1 in
        let (got, left) = law.get_cons s.world x xs e in
        let (w, runs, empty, same) =
          drain-empties xs fuel (record s { world = w2 }) (view_release w1 ∙ left) (omega arith) in
        (
          w,
          ground (arith, law.empty_cons s.world x xs e, runs),
          empty,
          same ∙ other_release w1 ∙ other_get s.world,
        )

  -- With more fuel than either FIFO has entries, `bt_mesh_cli_flushFifos` ends normally, leaves both
  -- FIFOs empty, and changes nothing but the kernel's state.
  pub flush_fifos-empties :
      (addrs data_addrs : W → List FifoData)
      → AreApart k addrs data_addrs
      → (fuel : ℕ) (s : Bms W) → length (addrs s.world) < fuel
      → length (data_addrs s.world) < fuel
      → (w : W) × (flush_fifos fuel s ≡ done tt (record s { world = w }))
        × (addrs w ≡ [])
        × (data_addrs w ≡ [])
  unfolding flush_fifos
  flush_fifos-empties addrs data_addrs apart fuel s h g =
      let (w1, first, empty1, same1) =
        drain-empties k.addr_fifo addrs data_addrs apart.addr_law apart.addr_get apart.addr_release
          apart.data_release (addrs s.world) fuel s refl h in
      let (w2, second, empty2, same2) =
        drain-empties k.data_addr_fifo data_addrs addrs apart.data_law apart.data_get
          apart.data_release apart.addr_release (data_addrs w1) fuel (record s { world = w1 }) refl
          (omega (arith, ap (λ (l : List FifoData). length l) same1)) in
      (w2, ground (arith, first, second), same2 ∙ empty1, empty2)
