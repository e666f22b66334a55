-- ===== src/Cycle/Turns.antt =====
-- The events of whole cycles, and the steps of the abstract machine for them.
use wbms.Prelude.{
  ℕ, zero, suc, ◌+◌, ◌*◌, ◌%◌, ◌^◌, ◌<◌, ◌≤◌, ◌≡◌, refl, List, [], ◌∷◌, ◌++◌, length, length-append,
  arith,
}
use wbms.Types.{PktS, rx_ok, tx_ack}
use wbms.NetMgr.States.Protocol.{Follows}
use wbms.Invariant.Events.{Event}
use wbms.Total.Ready.{InNode}
use wbms.Total.Events.{AllFit, fit_nil, fit_cons, fits_ok, fits_data}
use wbms.Cycle.{Point, Last, Steps, steps_nil, steps_cons}
use wbms.Cycle.Order.{IsOrder, byte, span}
use wbms.Cycle.Stages.{OksIn}
use wbms.Cycle.Rounds.{oks, data_packets, oks_at, oks-Steps, data-Steps}

-- The nodes of a cycle in their order, with the bytes of their OKs and of their data.
pub record Turn (n : ℕ) : Type 0 where
  pub adr : ℕ → ℕ
  pub order : IsOrder n adr
  pub ok_bytes : ℕ → List ℕ
  pub data_bytes : ℕ → List ℕ
  pub ok_size : (i : ℕ) → 2 ≤ length (ok_bytes i)
  pub data_size : (i : ℕ) → 22 ≤ length (data_bytes i)

module _ {m : ℕ} where
  -- All OKs, and all data.
  unfoldable pub turn_events : Turn (suc m) → List Event
  turn_events t = oks t.order t.ok_bytes 0 (suc m) ++ data_packets t.order t.data_bytes 0 (suc m)

  unfoldable pub all_events : List (Turn (suc m)) → List Event
  all_events [] = []
  all_events (t ∷ ts) = turn_events t ++ all_events ts

Steps-append :
    {x y z : Point} {es fs : List Event} → Steps x es y → Steps y fs z → Steps x (es ++ fs) z
Steps-append steps_nil more = more
Steps-append (steps_cons s steps) more = steps_cons s (Steps-append steps more)

AllFit-append : {n : ℕ} {es fs : List Event} → AllFit n es → AllFit n fs → AllFit n (es ++ fs)
AllFit-append fit_nil more = more
AllFit-append (fit_cons f fs) more = fit_cons f (AllFit-append fs more)

module _ {m : ℕ} (t : Turn (suc m)) where
  from_node : (i : ℕ) → i < suc m → InNode (suc m) (t.adr i % 2 ^ 8)
  from_node i below = rw (byte t.order i below) (t.order.low i below, t.order.high i below)

  oks-AllFit : (r i : ℕ) → i + r ≤ suc m → AllFit (suc m) (oks t.order t.ok_bytes i r)
  unfolding oks
  oks-AllFit zero i inside = fit_nil
  oks-AllFit (suc r) i inside =
      fit_cons (fits_ok (from_node i (omega arith)) (t.ok_size i))
        (oks-AllFit r (suc i) (omega arith))

  data-AllFit : (r i : ℕ) → i + r ≤ suc m → AllFit (suc m) (data_packets t.order t.data_bytes i r)
  unfolding data_packets
  data-AllFit zero i inside = fit_nil
  data-AllFit (suc r) i inside =
      fit_cons (fits_data (from_node i (omega arith)) (t.data_size i))
        (data-AllFit r (suc i) (omega arith))

  length-oks : (r i : ℕ) → length (oks t.order t.ok_bytes i r) ≡ r
  unfolding oks
  length-oks zero i = refl
  length-oks (suc r) i = omega (arith, length-oks r (suc i))

  length-data_packets : (r i : ℕ) → length (data_packets t.order t.data_bytes i r) ≡ r
  unfolding data_packets
  length-data_packets zero i = refl
  length-data_packets (suc r) i = omega (arith, length-data_packets r (suc i))

  pub length-turn_events : length (turn_events t) ≡ 2 * suc m
  unfolding turn_events
  length-turn_events = omega (
    arith,
    length-append (oks t.order t.ok_bytes 0 (suc m)) (data_packets t.order t.data_bytes 0 (suc m)),
    length-oks (suc m) 0,
    length-data_packets (suc m) 0,
  )

  pub turn-AllFit : AllFit (suc m) (turn_events t)
  unfolding turn_events
  turn-AllFit =
      AllFit-append (oks-AllFit (suc m) 0 (omega arith)) (data-AllFit (suc m) 0 (omega arith))

  -- The steps of a cycle, from packets that an OK may follow.
  pub turn-Steps :
      (ps : List PktS)
      → ((a : ℕ) → InNode (suc m) a → (p : PktS) × Last ps a p × Follows p rx_ok)
      → (qs : List PktS) × Steps
          (oks_at (suc m) t.adr ps 0)
          (turn_events t)
          (oks_at (suc m) t.adr qs 0)
        × ((a : ℕ) → InNode (suc m) a → Last qs a tx_ack)
  unfolding turn_events span
  turn-Steps ps may =
      let start : OksIn (suc m) t.adr 0 ps = record {
        sent = λ j below. absurd (omega arith);
        may = λ j low high. may (t.adr j) (t.order.low j high, t.order.high j high);
      } in
      let (given, first, middle) = oks-Steps t.order t.ok_bytes m 0 ps (omega arith) start in
      let (qs, second, closed) = data-Steps t.order t.data_bytes m 0 given (omega arith) middle in
      (
        qs,
        Steps-append first second,
        λ a (low, high).
            let (i, below, same) = t.order.all a low high in rw same at (closed i below),
      )
