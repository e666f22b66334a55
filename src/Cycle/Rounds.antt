-- ===== src/Cycle/Rounds.antt =====
-- A round of the abstract machine: OKs of all nodes in an order, and their data in the same order.
use wbms.Prelude.{
  ℕ, zero, suc, ◌+◌, ◌%◌, ◌^◌, ◌<◌, ◌≡◌, refl, sym, subst, List, [], ◌∷◌, ◌++◌, arith,
}
use wbms.Types.{PktS, rx_ok, tx_token, tx_ack, rx_data}
use wbms.Invariant.Events.{Event, ok_received, data_received}
use wbms.Cycle.{
  Point, Last, put, ok_in, data_in, Sends, sends_token, sends_acks, Step, ok_more, ok_last,
  data_taken, Steps, steps_nil, steps_cons,
}
use wbms.Cycle.Order.{IsOrder, byte, foreign, others, span, span-snoc}
use wbms.Cycle.Stages.{OksIn, DataIn, OksIn-next, OksIn-token, DataIn-next, DataIn-all, span-Acks}

module _ {m : ℕ} {adr : ℕ → ℕ} (order : IsOrder (suc m) adr) (bufs : ℕ → List ℕ) where
  -- The OKs, and the data, of `r` nodes from the place `i` on.
  unfoldable pub oks : ℕ → ℕ → List Event
  oks i zero = []
  oks i (suc r) = ok_received (adr i) (bufs i) ∷ oks (suc i) r

  unfoldable pub data_packets : ℕ → ℕ → List Event
  data_packets i zero = []
  data_packets i (suc r) = data_received (adr i) (bufs i) ∷ data_packets (suc i) r

abbrev pub oks_at : ℕ → (ℕ → ℕ) → List PktS → ℕ → Point
oks_at n adr ps i = record {
  packets = ps;
  waiting = span adr 0 i;
  given = [];
  counted = i;
  active = n;
}

abbrev pub data_at : ℕ → (ℕ → ℕ) → List PktS → ℕ → ℕ → Point
data_at n adr ps i r = record {
  packets = ps;
  waiting = span adr (suc i) r;
  given = span adr 0 i;
  counted = 0;
  active = n;
}

module _ {m : ℕ} {adr : ℕ → ℕ} (order : IsOrder (suc m) adr) (bufs : ℕ → List ℕ) where
  -- The point behind an OK of node `i`.
  ok_in-oks_at :
      (i : ℕ) (ps : List PktS)
      → i < suc m
      → ok_in (oks_at (suc m) adr ps i) (adr i % 2 ^ 8)
        ≡ oks_at (suc m) adr (put ps (adr i) rx_ok) (suc i)
  ok_in-oks_at i ps inside =
      let low = byte order i inside in
      let one : i + 1 ≡ suc i = omega arith in
      let start : 0 + i ≡ i = omega arith in
      let all : span adr 0 i ++ (adr i ∷ []) ≡ span adr 0 (suc i) =
        rw start at (span-snoc adr 0 i) in
      rw (low, one, all) refl

  ok-Step :
      (i : ℕ) (ps : List PktS)
      → i < m
      → OksIn (suc m) adr i ps
      → Step
          (oks_at (suc m) adr ps i)
          (ok_received (adr i) (bufs i))
          (oks_at (suc m) adr (put ps (adr i) rx_ok) (suc i))
  ok-Step i ps below h =
      let x = oks_at (suc m) adr ps i in
      let inside : i < suc m = omega arith in
      let (p, last, f) = h.may i (omega arith) inside in
      let low = byte order i inside in
      subst (λ y. Step x (ok_received (adr i) (bufs i)) y) (ok_in-oks_at i ps inside)
        (ok_more (foreign order i inside) (rw low last) f (omega arith) (omega (arith, order.few)))

  -- The last OK sends a token to the first node.
  last_ok-Step :
      (ps : List PktS)
      → OksIn (suc m) adr m ps
      → Step
          (oks_at (suc m) adr ps m)
          (ok_received (adr m) (bufs m))
          (data_at (suc m) adr (put (put ps (adr m) rx_ok) (adr 0) tx_token) 0 m)
  unfolding span
  last_ok-Step ps h =
      let inside : m < suc m = omega arith in
      let (p, last, f) = h.may m (omega arith) inside in
      let low = byte order m inside in
      let qs = put ps (adr m) rx_ok in
      let all = OksIn-next order m ps inside h in
      let y : Point = data_at (suc m) adr (put qs (adr 0) tx_token) 0 m in
      let sends : Sends (oks_at (suc m) adr qs (suc m)) (record y { counted = suc m }) =
        sends_token (all.sent 0 (omega arith)) in
      ok_last {y = record y { counted = suc m }} (foreign order m inside) (rw low last) f
        (omega arith) (omega (arith, order.few))
        (subst (λ z. Sends z (record y { counted = suc m })) (sym (ok_in-oks_at m ps inside)) sends)

  -- From an OK on, all OKs of a round, the last of which sends a token to the first node.
  pub oks-Steps :
      (r i : ℕ) (ps : List PktS)
      → i + r ≡ m
      → OksIn (suc m) adr i ps
      → (qs : List PktS) × Steps
          (oks_at (suc m) adr ps i)
          (oks order bufs i (suc r))
          (data_at (suc m) adr qs 0 m)
        × DataIn (suc m) adr 0 qs
  unfolding span oks
  oks-Steps zero i ps all h =
      let e : i ≡ m = omega arith in
      let h' : OksIn (suc m) adr m ps = subst (λ j. OksIn (suc m) adr j ps) e h in
      let qs = put ps (adr m) rx_ok in
      (
        put qs (adr 0) tx_token,
        subst
            (λ j.
              Steps (oks_at (suc m) adr ps j) (ok_received (adr j) (bufs j) ∷ [])
                (data_at (suc m) adr (put qs (adr 0) tx_token) 0 m))
            (sym e) (steps_cons (last_ok-Step ps h') steps_nil),
        OksIn-token order qs (omega arith) (OksIn-next order m ps (omega arith) h'),
      )
  oks-Steps (suc r) i ps all h =
      let inside : i < suc m = omega arith in
      let (qs, steps, h') =
        oks-Steps r (suc i) (put ps (adr i) rx_ok) (omega arith) (OksIn-next order i ps inside h) in
      (qs, steps_cons (ok-Step i ps (omega arith) h) steps, h')

  -- The point behind a data packet of node `i`.
  data_in-data_at :
      (i r : ℕ) (ps : List PktS)
      → i < suc m
      → data_in (data_at (suc m) adr ps i r) (adr i % 2 ^ 8)
        ≡ record (data_at (suc m) adr (put ps (adr i) rx_data) i r) { given = span adr 0 (suc i) }
  data_in-data_at i r ps inside =
      let low = byte order i inside in
      let start : 0 + i ≡ i = omega arith in
      let all : span adr 0 i ++ (adr i ∷ []) ≡ span adr 0 (suc i) =
        rw start at (span-snoc adr 0 i) in
      rw (low, all) refl

  data-Step :
      (i r : ℕ) (ps : List PktS) (y : Point)
      → i < suc m
      → Last ps (adr i) tx_token
      → Sends
          (record (data_at (suc m) adr (put ps (adr i) rx_data) i r) { given = span adr 0 (suc i) })
          y
      → Step (data_at (suc m) adr ps i r) (data_received (adr i) (bufs i)) y
  data-Step i r ps y inside last sends =
      let low = byte order i inside in
      data_taken (rw low last) (subst (λ z. Sends z y) (sym (data_in-data_at i r ps inside)) sends)

  -- From a data packet on, all data of a round, the last of which sends the acknowledgements.
  pub data-Steps :
      (r i : ℕ) (ps : List PktS)
      → i + r ≡ m
      → DataIn (suc m) adr i ps
      → (qs : List PktS) × Steps
          (data_at (suc m) adr ps i r)
          (data_packets order bufs i (suc r))
          (oks_at (suc m) adr qs 0)
        × ((j : ℕ) → j < suc m → Last qs (adr j) tx_ack)
  unfolding span data_packets
  data-Steps zero i ps all h =
      let inside : i < suc m = omega arith in
      let (qs, acks, closed) =
        span-Acks order (suc i) 0 (put ps (adr i) rx_data) (omega arith)
          (λ j below. absurd (omega arith))
          (λ j low high. DataIn-all order i ps (omega arith) h j high) in
      (
        qs,
        steps_cons (data-Step i zero ps _ inside (h.holds inside) (sends_acks acks)) steps_nil,
        closed,
      )
  data-Steps (suc r) i ps all h =
      let inside : i < suc m = omega arith in
      let before = put ps (adr i) rx_data in
      let next : Last before (adr (suc i)) rx_ok =
        others order ps i (suc i) rx_ok rx_data inside (omega arith) (omega arith)
          (h.waits (suc i) (omega arith) (omega arith)) in
      let (qs, steps, closed) =
        data-Steps r (suc i) (put before (adr (suc i)) tx_token) (omega arith)
          (DataIn-next order i ps (omega arith) h) in
      (
        qs,
        steps_cons (data-Step i (suc r) ps _ inside (h.holds inside) (sends_token next)) steps,
        closed,
      )
