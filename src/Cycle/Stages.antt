-- ===== src/Cycle/Stages.antt =====
-- How far the nodes of a round are, by their last packets, and what the next packet makes of it.
use wbms.Prelude.{
  ℕ, zero, suc, ◌+◌, ◌<◌, ◌≤◌, ◌≡◌, ◌≢◌, List, arith, ◌==◌, ==_iff, Bool-cases, inl, inr,
}
use wbms.Types.{PktS, rx_ok, tx_token, tx_ack, rx_data}
use wbms.NetMgr.States.Protocol.{Follows}
use wbms.Cycle.{Last, put, Acks, acks_nil, acks_cons}
use wbms.Cycle.Order.{Last-put, IsOrder, others, span}

-- The nodes before the place `i` have sent their OKs, and the others may.
pub record OksIn (n : ℕ) (adr : ℕ → ℕ) (i : ℕ) (ps : List PktS) : Type 0 where
  pub sent : (j : ℕ) → j < i → Last ps (adr j) rx_ok
  pub may : (j : ℕ) → i ≤ j → j < n → (p : PktS) × Last ps (adr j) p × Follows p rx_ok

-- The nodes before the place `i` have sent their data, that one has the token, and the others wait.
pub record DataIn (n : ℕ) (adr : ℕ → ℕ) (i : ℕ) (ps : List PktS) : Type 0 where
  pub given : (j : ℕ) → j < i → Last ps (adr j) rx_data
  pub holds : i < n → Last ps (adr i) tx_token
  pub waits : (j : ℕ) → i < j → j < n → Last ps (adr j) rx_ok

module _ {n : ℕ} {adr : ℕ → ℕ} (order : IsOrder n adr) where
  pub OksIn-next :
      (i : ℕ) (ps : List PktS)
      → i < n
      → OksIn n adr i ps
      → OksIn n adr (suc i) (put ps (adr i) rx_ok)
  OksIn-next i ps inside h =
      let (p, last, f) = h.may i (omega arith) inside in
      record {
        sent = λ j below. elim (Bool-cases (j == i)) [
          | inl same ↦
              let e : j ≡ i = (==_iff j i).0 same in rw e (Last-put ps (adr i) p rx_ok last)
          | inr other ↦
              let ne : i ≢ j = ground (arith, other) in
              others order ps i j rx_ok rx_ok inside (omega arith) ne
                (h.sent j (ground (arith, other, below)))
        ];
        may = λ j low high.
            let (q, there, g) = h.may j (omega arith) high in
            (q, others order ps i j q rx_ok inside high (omega arith) there, g);
      }

  -- All OKs are in, and the first node gets its token.
  pub OksIn-token :
      (ps : List PktS) → 0 < n → OksIn n adr n ps → DataIn n adr 0 (put ps (adr 0) tx_token)
  OksIn-token ps some_there h = record {
    given = λ j below. absurd (omega arith);
    holds = λ inside. Last-put ps (adr 0) rx_ok tx_token (h.sent 0 inside);
    waits = λ j above high.
        others order ps 0 j rx_ok tx_token some_there high (omega arith) (h.sent j high);
  }

  -- A node's data are in, and the next one gets its token.
  pub DataIn-next :
      (i : ℕ) (ps : List PktS)
      → suc i < n
      → DataIn n adr i ps
      → DataIn n adr (suc i) (put (put ps (adr i) rx_data) (adr (suc i)) tx_token)
  DataIn-next i ps inside h =
      let qs = put ps (adr i) rx_data in
      let here : Last qs (adr i) rx_data =
        Last-put ps (adr i) tx_token rx_data (h.holds (omega arith)) in
      let next : Last qs (adr (suc i)) rx_ok =
        others order ps i (suc i) rx_ok rx_data (omega arith) inside (omega arith)
          (h.waits (suc i) (omega arith) inside) in
      record {
        given = λ j below. elim (Bool-cases (j == i)) [
          | inl same ↦
              let e : j ≡ i = (==_iff j i).0 same in
              rw e
                (others order qs (suc i) i rx_data tx_token inside (omega arith) (omega arith) here)
          | inr other ↦
              let before : j < i = ground (arith, other, below) in
              others order qs (suc i) j rx_data tx_token inside (omega arith) (omega arith) (
                others order ps i j rx_data rx_data (omega arith) (omega arith) (omega arith)
                  (h.given j before))
        ];
        holds = λ _. Last-put qs (adr (suc i)) rx_ok tx_token next;
        waits = λ j above high. others order qs (suc i) j rx_ok tx_token inside high (omega arith) (
            others order ps i j rx_ok rx_data (omega arith) high (omega arith)
              (h.waits j (omega arith) high));
      }

  -- The last node's data are in.
  pub DataIn-all :
      (i : ℕ) (ps : List PktS)
      → suc i ≡ n
      → DataIn n adr i ps
      → (j : ℕ) → j < n
      → Last (put ps (adr i) rx_data) (adr j) rx_data
  DataIn-all i ps last h j inside = elim (Bool-cases (j == i)) [
    | inl same ↦
        let e : j ≡ i = (==_iff j i).0 same in
        rw e (Last-put ps (adr i) tx_token rx_data (h.holds (omega arith)))
    | inr other ↦
        let before : j < i = ground (arith, other, inside, last) in
        others order ps i j rx_data rx_data (omega arith) inside (omega arith) (h.given j before)
  ]

  -- Acknowledgements to the `r` nodes from the place `i` on, when those before have theirs.
  pub span-Acks :
      (r i : ℕ) (ps : List PktS)
      → i + r ≡ n
      → ((j : ℕ) → j < i → Last ps (adr j) tx_ack)
      → ((j : ℕ) → i ≤ j → j < n → Last ps (adr j) rx_data)
      → (qs : List PktS) × Acks ps (span adr i r) qs × ((j : ℕ) → j < n → Last qs (adr j) tx_ack)
  unfolding span
  span-Acks zero i ps all done left = (ps, acks_nil, λ j inside. done j (omega arith))
  span-Acks (suc r) i ps all done left =
      let here = left i (omega arith) (omega arith) in
      let (qs, acks, closed) =
        span-Acks r (suc i) (put ps (adr i) tx_ack) (omega arith)
          (λ j below. elim (Bool-cases (j == i)) [
            | inl same ↦
                let e : j ≡ i = (==_iff j i).0 same in
                rw e (Last-put ps (adr i) rx_data tx_ack here)
            | inr other ↦
                let before : j < i = ground (arith, other, below) in
                others order ps i j tx_ack tx_ack (omega arith) (omega arith) (omega arith)
                  (done j before)
          ])
          (λ j low high.
            others order ps i j rx_data tx_ack (omega arith) high (omega arith)
              (left j (omega arith) high)) in
      (qs, acks_cons here acks, closed)
