-- ===== src/Total/Received.antt =====
-- The queue of received packets: what is pushed and taken off comes from nodes of the tables.
use wbms.Prelude.{
  ℕ, ◌≡◌, ◌∙◌, List, ◌∷◌, length, Bool-cases, List-cases, ltb, ltb→lt, leb, inl, inr, arith, ap,
}
use wbms.Types.{RxCvPkt}
use wbms.Kernel.{Kernel}
use wbms.NetMgr.Queues.{push, overwritten}
use wbms.Total.Ready.{Views, SameFifos, IsReliable, InNode, Heard, AllFrom-snoc, head_tail}

module _ {W : Type 0} ⦃k : Kernel W⦄ {v : Views W} (law : IsReliable k v) where
  -- A push of a received packet leaves the FIFOs, and the queue holds what it held and that packet, or
  -- of these all but one.
  pub push_rx-SameFifos : (m : RxCvPkt) (w : W) → SameFifos v (push k.rx_msgq 6 m w) w
  unfolding push
  push_rx-SameFifos m w = elim (Bool-cases (leb 6 (k.rx_msgq.num_used w))) [
    | inl full ↦
        let (a, b) = law.by_rx_get w in
        let (c, d) = law.by_rx_put (overwritten m (k.rx_msgq.get w).0) (k.rx_msgq.get w).1 in
        rw full (c ∙ a, d ∙ b)
    | inr room ↦ rw room (law.by_rx_put m w)
  ]

  module _ {n : ℕ} where
    put_rx-Heard :
        (m : RxCvPkt) (w : W)
        → InNode n m.addr
        → Heard n (v.received w)
        → Heard n (v.received (k.rx_msgq.put m w).1)
    put_rx-Heard m w inside heard = elim (Bool-cases (ltb (length (v.received w)) 6)) [
      | inl room ↦
          rw (law.rx_law.put_room w m (ltb→lt (length (v.received w)) 6 room)).1
            (AllFrom-snoc (λ (m : RxCvPkt). m.addr) m heard inside)
      | inr full ↦ rw (law.rx_law.put_full w m (ground arith)).1 heard
    ]

    pub get_rx-Heard :
        (m : RxCvPkt) (ms : List RxCvPkt) (w : W)
        → v.received w ≡ m ∷ ms
        → Heard n (v.received w)
        → InNode n m.addr × Heard n (v.received (k.rx_msgq.get w).1)
    get_rx-Heard m ms w e heard =
        let (inside, rest) = head_tail (λ (m : RxCvPkt). m.addr) (rw e at heard) in
        (inside, rw (law.rx_law.get_cons w m ms e).1 rest)

    pub push_rx-Heard :
        (m : RxCvPkt) (w : W)
        → InNode n m.addr
        → Heard n (v.received w)
        → Heard n (v.received (push k.rx_msgq 6 m w))
    unfolding push
    push_rx-Heard m w inside heard = elim (Bool-cases (leb 6 (k.rx_msgq.num_used w))) [
      | inl full ↦ elim (List-cases (v.received w)) [
        | inl e ↦ absurd (ground (arith, law.rx_law.used w, ap (λ (l : List RxCvPkt). length l) e))
        | inr (x, xs, e) ↦
            let (first, rest) = get_rx-Heard x xs w e heard in
            rw (full, (law.rx_law.get_cons w x xs e).0)
              (put_rx-Heard x (k.rx_msgq.get w).1 first rest)
      ]
      | inr room ↦ rw room (put_rx-Heard m w inside heard)
    ]
