-- ===== src/Total/Ready.antt =====
-- When a handler of the master can end: a kernel that has memory and whose queues are apart from each
-- other, tables of their sizes, and queues that hold messages of nodes of the tables.
use wbms.Prelude.{
  ℕ, ◌+◌, ◌*◌, ◌<◌, ◌≤◌, ◌≡◌, refl, ◌∙◌, true, some, List, [], ◌∷◌, ◌++◌, map, get_elem?,
  get_elem?-some, length, arith,
}
use wbms.Types.{TxTokPkt, RxCvPkt, Lat, FifoData, Message, Timer, HgNetClient}
use wbms.Kernel.{Kernel}
use wbms.Kernel.Laws.{IsMsgq, IsFifo}
use wbms.Bms.{Bms, Run, done, halted, Cmd, and_then, nodes_num}
use wbms.NetMgr.States.{node_idx}

-- A run that ends: normally, with a value and a state of which `Q` holds, or in `mercury_led_fatal`.
pub data Ends {W A : Type 0} (Q : A → Bms W → Type 0) : Run W A → Type 0 where
  ends : {a : A} {s : Bms W} → Q a s → Ends Q (done a s)
  stops : {i : ℕ} {s : Bms W} → Ends Q (halted i s)

module _ {W A B : Type 0} {Q : A → Bms W → Type 0} {R : B → Bms W → Type 0} where
  pub bind :
      {r : Run W A} {k : A → Cmd W B}
      → Ends Q r
      → ((a : A) (s : Bms W) → Q a s → Ends R (k a s))
      → Ends R (and_then r k)
  bind (ends q) next = next _ _ q
  bind stops next = stops

module _ {W A : Type 0} {Q R : A → Bms W → Type 0} where
  pub relax : {r : Run W A} → Ends Q r → ((a : A) (s : Bms W) → Q a s → R a s) → Ends R r
  relax (ends q) into = ends (into _ _ q)
  relax stops into = stops

-- What the two FIFOs and the queue of received packets hold.
pub record Views (W : Type 0) : Type 0 where
  pub addrs : W → List FifoData
  pub datas : W → List FifoData
  pub received : W → List RxCvPkt

abbrev pub Untouched : {W : Type 0} → Views W → W → W → Type 0
Untouched v w' w =
    (v.addrs w' ≡ v.addrs w) × (v.datas w' ≡ v.datas w) × (v.received w' ≡ v.received w)

abbrev pub SameFifos : {W : Type 0} → Views W → W → W → Type 0
SameFifos v w' w = (v.addrs w' ≡ v.addrs w) × (v.datas w' ≡ v.datas w)

-- A kernel with memory, whose buffers give the bytes that they have, and of which no call but those
-- of a FIFO or of the received packets touches it.
pub record IsReliable {W : Type 0} (k : Kernel W) (v : Views W) : Type 0 where
  pub memory : (w : W) → (k.malloc w).0 ≡ true
  pub u8 : (a : ℕ) (xs : List ℕ) → k.pull_u8 (a ∷ xs) ≡ some (a, xs)
  pub u16 : (a b : ℕ) (xs : List ℕ) → k.pull_le16 (a ∷ b ∷ xs) ≡ some (a + 256 * b, xs)
  pub u32 :
      (a b c d : ℕ) (xs : List ℕ)
      → k.pull_le32 (a ∷ b ∷ c ∷ d ∷ xs) ≡ some (a + 256 * b + 65536 * c + 16777216 * d, xs)
  pub addr_law : IsFifo k.addr_fifo v.addrs
  pub data_law : IsFifo k.data_addr_fifo v.datas
  pub rx_law : IsMsgq k.rx_msgq v.received 6
  pub addr_get :
      (w : W)
      → (v.datas (k.addr_fifo.get w).1 ≡ v.datas w)
        × (v.received (k.addr_fifo.get w).1 ≡ v.received w)
  pub addr_put :
      (w : W) (d : FifoData)
      → (v.datas (k.addr_fifo.put d w) ≡ v.datas w)
        × (v.received (k.addr_fifo.put d w) ≡ v.received w)
  pub data_get :
      (w : W)
      → (v.addrs (k.data_addr_fifo.get w).1 ≡ v.addrs w)
        × (v.received (k.data_addr_fifo.get w).1 ≡ v.received w)
  pub data_put :
      (w : W) (d : FifoData)
      → (v.addrs (k.data_addr_fifo.put d w) ≡ v.addrs w)
        × (v.received (k.data_addr_fifo.put d w) ≡ v.received w)
  pub by_uptime : (w : W) → Untouched v (k.uptime w).1 w
  pub by_send : (m : Message) (w : W) → Untouched v (k.mesh_send m w).1 w
  pub by_malloc : (w : W) → Untouched v (k.malloc w).1 w
  pub by_release : (w : W) → Untouched v (k.release w) w
  pub by_start : (t : Timer) (i : ℕ) (w : W) → Untouched v (k.timer_start t i w) w
  pub by_stop : (t : Timer) (w : W) → Untouched v (k.timer_stop t w) w
  pub by_rx_get : (w : W) → SameFifos v (k.rx_msgq.get w).1 w
  pub by_rx_put : (m : RxCvPkt) (w : W) → SameFifos v (k.rx_msgq.put m w).1 w
  pub by_tx_get : (w : W) → Untouched v (k.tx_msgq.get w).1 w
  pub by_tx_put : (m : TxTokPkt) (w : W) → Untouched v (k.tx_msgq.put m w).1 w
  pub by_hil_put : (l : Lat) (w : W) → Untouched v (k.hil_txqueue.put l w) w

-- The addresses of the first `n` nodes.
abbrev pub InNode : ℕ → ℕ → Type 0
InNode n a = (16 ≤ a) × (a < 16 + n)

-- The addresses `table` of the entries of `NetState.client` when `n` nodes, NODES_NUM, have joined.
pub record IsFormed (n : ℕ) (table : List ℕ) : Type 0 where
  pub few : n ≤ 16
  pub full : length table ≡ 16
  pub joined : (i a : ℕ) → i < n → get_elem? table i ≡ some a → InNode n a

-- Every entry of a queue has the address, by `from`, of one of the nodes.
pub data AllFrom {A : Type 0} (from : A → ℕ) (n : ℕ) : List A → Type 0 where
  known_nil : AllFrom from n []
  known_cons :
      {d : A} {ds : List A} → InNode n (from d) → AllFrom from n ds → AllFrom from n (d ∷ ds)

abbrev pub Known : ℕ → List FifoData → Type 0
Known n ds = AllFrom (λ (d : FifoData). d.addr) n ds

abbrev pub Heard : ℕ → List RxCvPkt → Type 0
Heard n ms = AllFrom (λ (m : RxCvPkt). m.addr) n ms

pub head_tail :
    {A : Type 0} (from : A → ℕ) {n : ℕ} {d : A} {ds : List A}
    → AllFrom from n (d ∷ ds)
    → InNode n (from d) × AllFrom from n ds
head_tail from (known_cons a b) = (a, b)

pub AllFrom-snoc :
    {A : Type 0} (from : A → ℕ) {n : ℕ} {ds : List A} (d : A)
    → AllFrom from n ds
    → InNode n (from d)
    → AllFrom from n (ds ++ (d ∷ []))
AllFrom-snoc from d known_nil e = known_cons e known_nil
AllFrom-snoc from d (known_cons h hs) e = known_cons h (AllFrom-snoc from d hs e)

-- The tables have their sizes and the addresses `table`, the FIFOs at most `p` and `q` entries, and the
-- queues only what nodes of the tables have sent.
pub record IsReady {W : Type 0} (v : Views W) (n : ℕ) (table : List ℕ) (p q : ℕ) (s : Bms W)
    : Type 0 where
  pub clients : map (λ (c : HgNetClient). c.addr) s.client ≡ table
  pub nodes : nodes_num s ≡ n
  pub transactions : length s.trans_log ≡ n
  pub packets : length s.pkt_cnt_log ≡ n
  pub latencies : length s.data_pkt ≡ n
  pub active : s.hm.active ≤ n
  pub known_addrs : Known n (v.addrs s.world)
  pub known_datas : Known n (v.datas s.world)
  pub known_received : Heard n (v.received s.world)
  pub few_addrs : length (v.addrs s.world) ≤ p
  pub few_datas : length (v.datas s.world) ≤ q

module _ {W : Type 0} {v : Views W} {n : ℕ} {table : List ℕ} {p q : ℕ} {s : Bms W}
    (h : IsReady v n table p q s) where
  -- A state that differs only in what is in the entries, less the addresses, and outside the FIFOs.
  pub same_shape :
      (s' : Bms W)
      → map (λ (c : HgNetClient). c.addr) s'.client ≡ map (λ (c : HgNetClient). c.addr) s.client
      → nodes_num s' ≡ nodes_num s
      → length s'.trans_log ≡ length s.trans_log
      → length s'.pkt_cnt_log ≡ length s.pkt_cnt_log
      → length s'.data_pkt ≡ length s.data_pkt
      → s'.hm.active ≡ s.hm.active
      → Untouched v s'.world s.world
      → IsReady v n table p q s'
  same_shape s' c l t k d e (a, b, r) = record {
    clients = c ∙ h.clients;
    nodes = l ∙ h.nodes;
    transactions = t ∙ h.transactions;
    packets = k ∙ h.packets;
    latencies = d ∙ h.latencies;
    active = rw e h.active;
    known_addrs = rw a h.known_addrs;
    known_datas = rw b h.known_datas;
    known_received = rw r h.known_received;
    few_addrs = rw a h.few_addrs;
    few_datas = rw b h.few_datas;
  }

  pub in_world : (w : W) → Untouched v w s.world → IsReady v n table p q (record s { world = w })
  in_world w same = same_shape (record s { world = w }) refl refl refl refl refl refl same

  pub more_room : (p' q' : ℕ) → p ≤ p' → q ≤ q' → IsReady v n table p' q' s
  more_room p' q' a b = record {
    clients = h.clients;
    nodes = h.nodes;
    transactions = h.transactions;
    packets = h.packets;
    latencies = h.latencies;
    active = h.active;
    known_addrs = h.known_addrs;
    known_datas = h.known_datas;
    known_received = h.known_received;
    few_addrs = omega (arith, h.few_addrs);
    few_datas = omega (arith, h.few_datas);
  }

  -- Other contents of the FIFOs.
  pub with_fifos :
      (p' q' : ℕ) (w : W)
      → Known n (v.addrs w)
      → Known n (v.datas w)
      → v.received w ≡ v.received s.world
      → length (v.addrs w) ≤ p'
      → length (v.datas w) ≤ q'
      → IsReady v n table p' q' (record s { world = w })
  with_fifos p' q' w a b r c d = record {
    clients = h.clients;
    nodes = h.nodes;
    transactions = h.transactions;
    packets = h.packets;
    latencies = h.latencies;
    active = h.active;
    known_addrs = a;
    known_datas = b;
    known_received = rw r h.known_received;
    few_addrs = c;
    few_datas = d;
  }

  -- Other received packets.
  pub with_received :
      (w : W)
      → SameFifos v w s.world
      → Heard n (v.received w)
      → IsReady v n table p q (record s { world = w })
  with_received w (a, b) r = record {
    clients = h.clients;
    nodes = h.nodes;
    transactions = h.transactions;
    packets = h.packets;
    latencies = h.latencies;
    active = h.active;
    known_addrs = rw a h.known_addrs;
    known_datas = rw b h.known_datas;
    known_received = r;
    few_addrs = rw a h.few_addrs;
    few_datas = rw b h.few_datas;
  }

-- A command that ends, and keeps the state ready.
abbrev pub Stays : {W A : Type 0} → Views W → ℕ → List ℕ → ℕ → ℕ → Cmd W A → Type 0
Stays {W} v n table p q m =
    (s : Bms W) → IsReady v n table p q s → Ends (λ _ s'. IsReady v n table p q s') (m s)

pub node_idx-lt : (n a : ℕ) → n ≤ 16 → InNode n a → node_idx a < n
unfolding node_idx
node_idx-lt n a few (low, high) = omega arith

-- A node of the tables has an entry in each.
pub entry_of :
    {A : Type 0} {n : ℕ} (l : List A) (a : ℕ)
    → n ≤ 16
    → length l ≡ n
    → InNode n a
    → (x : A) × (get_elem? l (node_idx a) ≡ some x)
entry_of {n} l a few size inside =
    get_elem?-some l (node_idx a) (omega (arith, node_idx-lt n a few inside))
