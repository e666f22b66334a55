-- ===== src/Cycle/Handlers.antt =====
-- The handlers of OKs and of data packets do what the abstract machine does.
use wbms.Prelude.{
  ℕ, ◌+◌, ◌%◌, ◌^◌, ◌<◌, ◌≡◌, refl, true, false, Bool, List, [], ◌∷◌, ◌++◌, ◌==◌, if◌then◌else◌,
  arith,
}
use wbms.Types.{PktS, rx_ok, tx_token, rx_data, FifoData, Message}
use wbms.Kernel.{Kernel}
use wbms.Bms.{pure}
use wbms.NetMgr.States.Protocol.{Follows}
use wbms.Mesh.Info.{update_data_info, update_ok_info, take_ok, take_data}
use wbms.Mesh.Info as Info
use wbms.Mesh.Handlers.{after_ok, accept_ok, ok_handler, accept_data, check_data, data_handler}
use wbms.Invariant.Events.{Event, handle, handle_all}
use wbms.Total.Ready.{Views, IsReliable}
use wbms.Cycle
use wbms.Cycle.{
  Point, addr_of, Last, after, ok_in, data_in, Sends, Step, ok_more, ok_last, data_taken, Steps,
  steps_nil, steps_cons, IsAt, Sees, sees_done, sees_fault, sees_no_fuel, Moves, same-IsAt,
  world-IsAt,
}
use wbms.Cycle.Frames.{need-Frame, stop_data_timer-Frame, stop_ok_timer-Frame}
use wbms.Cycle.Tokens.{no_issues-Frame, mesh_send_token-Moves}
use wbms.Cycle.Accepted.{update_ok_info-Sees, update_data_info-Sees, put_addr-Moves, put_data-Moves}

module _ {W : Type 0} ⦃k : Kernel W⦄ {v : Views W} (law : IsReliable k v)
    (heard : (m : Message) (w : W) → (k.mesh_send m w).0 ≡ false) where
  after_ok-more :
      (fuel : ℕ) (x : Point) → (x.counted == x.active) ≡ false → Moves {W = W} v x x (after_ok fuel)
  unfolding after_ok
  after_ok-more fuel x some_left s h =
      let other : (s.addr_cnt == s.hm.active) ≡ false = rw (h.at_counted, h.at_active) some_left in
      rw (other, after_ok) (sees_done h)

  after_ok-last :
      (fuel : ℕ) (x y : Point)
      → (x.counted == x.active) ≡ true
      → Sends x y
      → Moves {W = W} v x (record y { counted = 0 }) (after_ok fuel)
  unfolding after_ok
  after_ok-last fuel x y last sends s h =
      let all : (s.addr_cnt == s.hm.active) ≡ true = rw (h.at_counted, h.at_active) last in
      rw (all, after_ok)
        (Cycle.bind (no_issues-Frame v x s h) λ _ s h.
          Cycle.bind (mesh_send_token-Moves law heard fuel x y sends s h) λ _ s h.
            sees_done (record {
              at_packets = h.at_packets;
              at_waiting = h.at_waiting;
              at_given = h.at_given;
              at_counted = refl;
              at_active = h.at_active;
              at_sys = h.at_sys;
            }))

  -- An accepted OK, with what `after_ok` makes of it.
  accept_ok-Moves :
      (fuel : ℕ) (d : FifoData) (x y : Point)
      → x.counted + 1 < 256
      → Moves {W = W} v
          (record x { waiting = x.waiting ++ (d.addr ∷ []); counted = x.counted + 1 })
          y
          (after_ok fuel)
      → Moves {W = W} v x y (accept_ok fuel d)
  unfolding accept_ok
  accept_ok-Moves fuel d x y small rest s h =
      Cycle.bind (stop_ok_timer-Frame law d.addr x s h) λ _ s h.
        Cycle.bind (put_addr-Moves law d x s h) λ _ s h. rest _ (record {
          at_packets = h.at_packets;
          at_waiting = h.at_waiting;
          at_given = h.at_given;
          at_counted = omega (arith, h.at_counted);
          at_active = h.at_active;
          at_sys = h.at_sys;
        })

  ok_handler-Moves :
      (fuel sender : ℕ) (buf : List ℕ) (p : PktS) (x y : Point)
      → (sender % 2 ^ 8 == 224) ≡ false
      → Last x.packets (sender % 2 ^ 8) p
      → Follows p rx_ok
      → x.counted + 1 < 256
      → Moves {W = W} v (ok_in x (sender % 2 ^ 8)) y (after_ok fuel)
      → Moves {W = W} v x y (ok_handler fuel sender buf)
  unfolding ok_handler
  ok_handler-Moves fuel sender buf p x y foreign last f small rest s h =
      Cycle.bind (need-Frame v (k.pull_u8 buf) x s h) λ (_, buf) s h.
        Cycle.bind (update_ok_info-Sees law buf (sender % 2 ^ 8) p x s last f h)
          λ err s (right, h). answer err right s.addr_cnt s h
    where
      answer :
          (err : Bool)
          → err ≡ false
          → (n : ℕ)
          → Moves {W = W} v (after x (sender % 2 ^ 8) rx_ok) y (
              if sender % 2 ^ 8 == 224
              then pure tt
              else if err
              then Info.update_rejected_msg_info (sender % 2 ^ 8)
              else accept_ok fuel (record { addr = sender % 2 ^ 8; cnt = n }))
      answer true right n s h = absurd (ground (arith, right))
      answer false right n s h = rw foreign (
          accept_ok-Moves fuel (record { addr = sender % 2 ^ 8; cnt = n })
            (after x (sender % 2 ^ 8) rx_ok) y small rest s h)

  data_handler-Moves :
      (fuel sender : ℕ) (buf : List ℕ) (x y : Point)
      → Last x.packets (sender % 2 ^ 8) tx_token
      → Sends (data_in x (sender % 2 ^ 8)) y
      → Moves {W = W} v x y (data_handler fuel sender buf)
  unfolding data_handler check_data accept_data
  data_handler-Moves fuel sender buf x y last sends s h =
      rw (h.at_sys, data_handler)
        (Cycle.bind (update_data_info-Sees law buf (sender % 2 ^ 8) x s last h)
          λ err t (right, h). answer err right s.datmsg_cnt t h)
    where
      answer :
          (err : Bool)
          → err ≡ false
          → (n : ℕ)
          → Moves {W = W} v (after x (sender % 2 ^ 8) rx_data) y (
              if err
              then Info.update_rejected_msg_info (sender % 2 ^ 8)
              else accept_data fuel (record { addr = sender % 2 ^ 8; cnt = n }))
      answer true right n s h = absurd (ground (arith, right))
      answer false right n s h =
          let d : FifoData = record { addr = sender % 2 ^ 8; cnt = n } in
          let z = after x (sender % 2 ^ 8) rx_data in
          Cycle.bind (stop_data_timer-Frame law (sender % 2 ^ 8) z s h) λ _ s h.
            Cycle.bind
              (put_data-Moves law d z _ (same-IsAt h _ refl refl refl refl (refl, refl, refl)))
              λ _ s h. mesh_send_token-Moves law heard fuel (data_in x (sender % 2 ^ 8)) y sends s h

  -- Every step of the machine is what the handler of its event does.
  handle-Step :
      (fuel : ℕ) (e : Event) (x y : Point) → Step x e y → Moves {W = W} v x y (handle fuel e)
  unfolding handle
  handle-Step fuel e x y (ok_more {sender = a} {p} {buf} foreign last f more small) s h =
      ok_handler-Moves fuel a buf p x y foreign last f (omega arith)
        (after_ok-more fuel (ok_in x (a % 2 ^ 8)) (ground arith)) s h
  handle-Step fuel e x y (ok_last {y = z} {sender = a} {p} {buf} foreign last f all small sends) s
        h =
      ok_handler-Moves fuel a buf p x y foreign last f (omega arith)
        (after_ok-last fuel (ok_in x (a % 2 ^ 8)) z (ground arith) sends) s h
  handle-Step fuel e x y (data_taken {sender = a} {buf} last sends) s h =
      data_handler-Moves fuel a buf x y last sends s h

  pub handle_all-Steps :
      (fuel : ℕ) (es : List Event) (x y : Point)
      → Steps x es y
      → Moves {W = W} v x y (handle_all fuel es)
  unfolding handle_all
  handle_all-Steps fuel [] x y steps_nil s h = sees_done h
  handle_all-Steps fuel (e ∷ es) x y (steps_cons {y = z} step rest) s h =
      Cycle.bind (handle-Step fuel e x z step s h) λ _. handle_all-Steps fuel es z y rest
