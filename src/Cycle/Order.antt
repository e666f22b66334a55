-- ===== src/Cycle/Order.antt =====
-- A round of the abstract machine: the nodes send their OKs in an order, and their data in the same order.
use wbms.Prelude.{
  ℕ, zero, suc, ◌+◌, false, ◌%◌, ◌^◌, ◌<◌, ◌≤◌, ◌≡◌, ◌≢◌, ap, ◌∙◌, List, [], ◌∷◌, ◌++◌,
  get_elem?-set_self, get_elem?-set_ne, lt_of_get_elem?, arith, ◌==◌,
}
use wbms.Types.{PktS}
use wbms.NetMgr.States.{node_idx}
use wbms.Cycle.{Last, put}

pub Last-put : (ps : List PktS) (a : ℕ) (p q : PktS) → Last ps a p → Last (put ps a q) a q
Last-put ps a p q h = get_elem?-set_self ps (node_idx a) q (lt_of_get_elem? ps (node_idx a) h)

Last-put_other :
    (ps : List PktS) (a b : ℕ) (p q : PktS)
    → node_idx a ≢ node_idx b
    → Last ps b p
    → Last (put ps a q) b p
Last-put_other ps a b p q apart h = get_elem?-set_ne ps (node_idx a) (node_idx b) q apart ∙ h

-- An order of `n` nodes: all addresses of the tables, each once.
pub record IsOrder (n : ℕ) (adr : ℕ → ℕ) : Type 0 where
  pub few : n ≤ 16
  pub low : (i : ℕ) → i < n → 16 ≤ adr i
  pub high : (i : ℕ) → i < n → adr i < 16 + n
  pub once : (i j : ℕ) → i < n → j < n → adr i ≡ adr j → i ≡ j
  pub all : (a : ℕ) → 16 ≤ a → a < 16 + n → (i : ℕ) × (i < n) × (adr i ≡ a)

module _ {n : ℕ} {adr : ℕ → ℕ} (order : IsOrder n adr) where
  pub apart : (i j : ℕ) → i < n → j < n → i ≢ j → node_idx (adr i) ≢ node_idx (adr j)
  unfolding node_idx
  apart i j a b ne e = ne (
      order.once i j a b
        (omega (arith, e, order.few, order.low i a, order.low j b, order.high i a, order.high j b)))

  pub byte : (i : ℕ) → i < n → adr i % 2 ^ 8 ≡ adr i
  byte i a = omega (arith, order.few, order.high i a)

  pub foreign : (i : ℕ) → i < n → (adr i % 2 ^ 8 == 224) ≡ false
  foreign i a = ground (arith, byte i a, order.few, order.high i a)

  -- What a packet of node `i` leaves of the others.
  pub others :
      (ps : List PktS) (i j : ℕ) (p q : PktS)
      → i < n
      → j < n
      → i ≢ j
      → Last ps (adr j) p
      → Last (put ps (adr i) q) (adr j) p
  others ps i j p q a b ne h = Last-put_other ps (adr i) (adr j) p q (apart i j a b ne) h

-- The addresses of `r` nodes from the place `i` of the order on.
unfoldable pub span : (ℕ → ℕ) → ℕ → ℕ → List ℕ
span adr i zero = []
span adr i (suc r) = adr i ∷ span adr (suc i) r

pub span-snoc : (adr : ℕ → ℕ) (i r : ℕ) → span adr i r ++ (adr (i + r) ∷ []) ≡ span adr i (suc r)
unfolding span
span-snoc adr i zero = ap (λ j. adr j ∷ []) (omega arith)
span-snoc adr i (suc r) =
    let here : i + suc r ≡ suc i + r = omega arith in
    ap (λ l. adr i ∷ l)
      (ap (λ j. span adr (suc i) r ++ (adr j ∷ [])) here ∙ span-snoc adr (suc i) r)
