-- ===== src/Invariant/Consistent.antt =====
-- The invariant, and the changes of the state that keep it at once.
use wbms.Prelude.{
  ℕ, zero, suc, ◌≡◌, refl, ap, ◌∙◌, List, [], ◌∷◌, some, get_elem?, set, length, map, arith,
  length-set,
}
use wbms.Types.{TransCnt, PktCnt, ErrCnt, HgNetClient}
use wbms.Bms.{Bms, nodes_num}
use wbms.NetMgr.Counters.Laws.{IsBalanced, total}

-- `n` is NODES_NUM.
pub record IsConsistent {W : Type 0} (n : ℕ) (s : Bms W) : Type 0 where
  pub clients : length s.client ≡ 16
  pub nodes : nodes_num s ≡ n
  pub transactions : length s.trans_log ≡ n
  pub packets : length s.pkt_cnt_log ≡ n
  pub latencies : length s.data_pkt ≡ n
  pub balanced : IsBalanced s
  -- each node has as many started transactions as counted OKs
  pub paired_counts :
      map (λ (c : TransCnt). c.t_started) s.trans_log ≡ map (λ (c : PktCnt). c.ok_cnt) s.pkt_cnt_log

-- Writing an entry under `map`.
module _ {A B : Type 0} (f : A → B) where
  pub map-set : (l : List A) (i : ℕ) (a : A) → map f (set l i a) ≡ set (map f l) i (f a)
  map-set [] i a = refl
  map-set (x ∷ xs) zero a = refl
  map-set (x ∷ xs) (suc i) a = ap (λ l. f x ∷ l) (map-set xs i a)

  pub map-set_same :
      (l : List A) (i : ℕ) (a b : A)
      → get_elem? l i ≡ some a
      → f b ≡ f a
      → map f (set l i b) ≡ map f l
  map-set_same [] i a b e same = refl
  map-set_same (x ∷ xs) zero a b e same = ground arith
  map-set_same (x ∷ xs) (suc i) a b e same = ap (λ l. f x ∷ l) (map-set_same xs i a b e same)

  pub get_elem?-map :
      (l : List A) (i : ℕ) (a : A) → get_elem? l i ≡ some a → get_elem? (map f l) i ≡ some (f a)
  get_elem?-map [] i a e = ground arith
  get_elem?-map (x ∷ xs) zero a e = ground arith
  get_elem?-map (x ∷ xs) (suc i) a e = get_elem?-map xs i a e

-- Writing a client whose counters stay leaves the sums.
pub total-set_same :
    (f : ErrCnt → ℕ) (l : List HgNetClient) (i : ℕ) (c d : HgNetClient)
    → get_elem? l i ≡ some c
    → d.diag.log ≡ c.diag.log
    → total f (set l i d) ≡ total f l
unfolding total
total-set_same f [] i c d e same = refl
total-set_same f (x ∷ xs) zero c d e same = ground arith
total-set_same f (x ∷ xs) (suc i) c d e same = omega (arith, total-set_same f xs i c d e same)

module _ {W : Type 0} {n : ℕ} {s : Bms W} (h : IsConsistent n s) where
  -- A state that differs only in what the invariant does not speak of.
  pub same_tables :
      (s' : Bms W)
      → s'.client ≡ s.client
      → nodes_num s' ≡ nodes_num s
      → s'.trans_log ≡ s.trans_log
      → s'.pkt_cnt_log ≡ s.pkt_cnt_log
      → length s'.data_pkt ≡ length s.data_pkt
      → s'.hm.log ≡ s.hm.log
      → IsConsistent n s'
  same_tables s' c l t p d e = record {
    clients = ground (arith, h.clients);
    nodes = ground (arith, h.nodes);
    transactions = ground (arith, h.transactions);
    packets = ground (arith, h.packets);
    latencies = ground (arith, h.latencies);
    balanced = record {
      pec = ground (arith, h.balanced.pec);
      timeout = ground (arith, h.balanced.timeout);
      mismatch = ground (arith, h.balanced.mismatch);
      dropped = ground (arith, h.balanced.dropped);
    };
    paired_counts = rw (t, p) h.paired_counts;
  }

  pub with_world : (w : W) → IsConsistent n (record s { world = w })
  with_world w = same_tables (record s { world = w }) refl refl refl refl refl refl

  -- An entry of `NetState.client` changes, but not its counters.
  pub with_client :
      (i : ℕ) (c d : HgNetClient)
      → get_elem? s.client i ≡ some c
      → d.diag.log ≡ c.diag.log
      → IsConsistent n (record s { client = set s.client i d })
  with_client i c d e same = record {
    clients = length-set s.client i d ∙ h.clients;
    nodes = h.nodes;
    transactions = h.transactions;
    packets = h.packets;
    latencies = h.latencies;
    balanced = record {
      pec = rw (total-set_same (λ x. x.pec_cnt) s.client i c d e same) h.balanced.pec;
      timeout = rw (total-set_same (λ x. x.timeout_cnt) s.client i c d e same) h.balanced.timeout;
      mismatch =
          rw (total-set_same (λ x. x.token_mis_cnt) s.client i c d e same) h.balanced.mismatch;
      dropped = rw (total-set_same (λ x. x.dropped_cnt) s.client i c d e same) h.balanced.dropped;
    };
    paired_counts = h.paired_counts;
  }
