-- ===== src/NetMgr/Clients/Series.antt =====
-- The nodes that `mercury_netMgr_NewClient` of src/hg_netMgr.c takes in one after the other, from empty
-- tables and with no message of a node between.
use wbms.Prelude.{
  ℕ, suc, ◌+◌, ◌-◌, ◌≤◌, ◌<◌, ◌≡◌, ◌≢◌, refl, sym, ◌∙◌, List, length, get_elem?, some, true, arith,
  inl, inr, Bool-cases, ◌==◌, ==_iff, length-set, get_elem?-set_self, get_elem?-set_ne,
  lt_of_get_elem?,
}
use wbms.Types.{BmsSt, HgNetClient, NodeS, inactive, paired}
use wbms.Kernel.{Kernel}
use wbms.Bms.{Bms, done, nodes_num}
use wbms.NetMgr.Clients.{find_addr, taken, round, again, address, new_client}
use wbms.NetMgr.Clients.Address.{address-injective, find_addr_ends, find_addr_fresh}
use wbms.NetMgr.Clients.Address.Near.{from, count-front, find_addr-reach}
use wbms.NetMgr.Clients.Join.{
  FirstFree, pair, joined, joins, paired_at, assign_addr-low, after_slot,
}

-- Entry `i` of the tables is in the state `node` and has the address `a`.
pub record IsEntry (log : List BmsSt) (client : List HgNetClient) (i : ℕ) (node : NodeS) (a : ℕ)
    : Type 0 where
  pub st : BmsSt
  pub of_log : get_elem? log i ≡ some st
  pub is_node : st.curr_node ≡ node
  pub c : HgNetClient
  pub of_client : get_elem? client i ≡ some c
  pub is_addr : c.addr ≡ a

-- `k` nodes have joined: entry `i` has the address `16 + i`, and the others are empty.
pub record IsSeries {W : Type 0} (k : ℕ) (s : Bms W) : Type 0 where
  pub clients : length s.client ≡ 16
  pub nodes : nodes_num s ≡ 16
  pub active : s.hm.active ≡ k
  pub taken_up : (i : ℕ) → i < k → IsEntry s.system_state_log s.client i paired (16 + i)
  pub empty : (i : ℕ) → k ≤ i → i < 16 → IsEntry s.system_state_log s.client i inactive 0

module _ {log : List BmsSt} {client : List HgNetClient} {i : ℕ} where
  IsEntry-taken : {a : ℕ} → IsEntry log client i paired a → taken log client i a ≡ some true
  unfolding taken
  IsEntry-taken e = ground (arith, e.of_log, e.is_node, e.of_client, e.is_addr)

  IsEntry-from : IsEntry log client i inactive 0 → from log client i 16 ≡ 0
  unfolding from
  IsEntry-from e = ground (arith, e.of_log, e.is_node)

  -- An entry with an address below 16 is not counted, PAIRED or not.
  low-from : {node : NodeS} → IsEntry log client i node 0 → from log client i 16 ≡ 0
  unfolding from
  low-from e = ground (arith, e.of_log, e.of_client, e.is_addr)

find_addr-step :
    (log : List BmsSt) (client : List HgNetClient) (f i a j b : ℕ)
    → round log client i a ≡ again j b
    → find_addr (suc f) log client i a ≡ find_addr f log client j b
unfolding find_addr
find_addr-step log client f i a j b e = rw (e, find_addr) refl

module _ {W : Type 0} {k : ℕ} {s : Bms W} (h : IsSeries k s) (room : k < 16) where
  first : IsEntry s.system_state_log s.client k inactive 0
  first = h.empty k (omega arith) room

  first-FirstFree : FirstFree s.system_state_log k first.st
  first-FirstFree = record {
    there = first.of_log;
    free = first.is_node;
    busy = λ i below. let e = h.taken_up i below in (e.st, e.of_log, rw e.is_node refl);
  }

  -- The tables in which the address is searched: the new entry is PAIRED already.
  abbrev searched : List BmsSt
  searched = (paired_at s k first.st).system_state_log

  searched-joined : (i : ℕ) → i < k → IsEntry searched s.client i paired (16 + i)
  searched-joined i below =
      let e = h.taken_up i below in
      record {
        st = e.st;
        of_log = get_elem?-set_ne s.system_state_log k i (pair first.st) (omega arith) ∙ e.of_log;
        is_node = e.is_node;
        c = e.c;
        of_client = e.of_client;
        is_addr = e.is_addr;
      }

  searched-bare : (i : ℕ) → k ≤ i → i < 16 → from searched s.client i 16 ≡ 0
  searched-bare i low high = elim (Bool-cases (i == k)) [
    | inl same ↦
        let e : i ≡ k = (==_iff i k).0 same in
        rw e (
          low-from (record {
            st = pair first.st;
            of_log =
                get_elem?-set_self s.system_state_log k (pair first.st)
                  (lt_of_get_elem? s.system_state_log k first.of_log);
            is_node = refl;
            c = first.c;
            of_client = first.of_client;
            is_addr = first.is_addr;
          }))
    | inr other ↦
        let e = h.empty i low high in
        let apart : k ≢ i = ground (arith, other) in
        IsEntry-from (record {
          st = e.st;
          of_log = get_elem?-set_ne s.system_state_log k i (pair first.st) apart ∙ e.of_log;
          is_node = e.is_node;
          c = e.c;
          of_client = e.of_client;
          is_addr = e.is_addr;
        })
  ]

  big_log : 16 ≤ length searched
  big_log = omega (arith, h.nodes, length-set s.system_state_log k (pair first.st))

  -- Whatever is found is at most `16 + k`, for only `k` entries can clash.
  found-high : (a : ℕ) → find_addr 3297 searched s.client 0 16 ≡ address a → a ≤ 16 + k
  found-high a found =
      let far = find_addr-reach searched s.client 3297 0 16 a found in
      let few = count-front searched s.client k 16 16 searched-bare in omega arith

  -- It is none of the addresses that are given, except that of entry 0.
  found-fresh :
      (a i : ℕ)
      → find_addr 3297 searched s.client 0 16 ≡ address a
      → a ≤ 16 + k
      → 1 ≤ i
      → i < k
      → a ≢ 16 + i
  found-fresh a i found high one below same =
      find_addr_fresh searched s.client 3297 0 16 a (omega arith)
        (λ j one under. absurd (omega arith)) found (omega arith) i one (omega arith)
        (rw same (IsEntry-taken (searched-joined i below)))

  found-low : (a : ℕ) → 0 < k → find_addr 3297 searched s.client 0 16 ≡ address a → 17 ≤ a
  unfolding round
  found-low a some_there found =
      let clash : round searched s.client 0 16 ≡ again 1 17 =
        ground (arith, IsEntry-taken (searched-joined 0 some_there)) in
      let (n, ending, low, high) =
        find_addr_ends searched s.client big_log (omega (arith, h.clients)) 3296 1 17 (omega arith)
          (omega arith) in
      let same : n ≡ a =
        address-injective
          (sym ending ∙ sym (find_addr-step searched s.client 3296 0 16 1 17 clash) ∙ found) in
      omega arith

  -- So the next address is found.
  found-next : find_addr 3297 searched s.client 0 16 ≡ address (16 + k)
  found-next =
      let (a, found, low, limit) =
        find_addr_ends searched s.client big_log (omega (arith, h.clients)) 3297 0 16 (omega arith)
          (omega arith) in
      let high = found-high a found in
      elim (Bool-cases (a == 16 + k)) [
        | inl same ↦ rw ((==_iff a (16 + k)).0 same) at found
        | inr other ↦
            let below : a < 16 + k = ground (arith, other, high) in
            let above : 17 ≤ a = found-low a (omega arith) found in
            absurd (found-fresh a (a - 16) found high (omega arith) (omega arith) (omega arith))
      ]

-- The next node gets the next address, and the next entry.
module _ {W : Type 0} ⦃kernel : Kernel W⦄ {k : ℕ} (s : Bms W) (h : IsSeries k s)
    (room : k < 16) where
  abbrev after : Bms W
  after = joins s k (first h room).st (first h room).c (16 + k)

  newest : IsEntry after.system_state_log after.client k paired (16 + k)
  newest = record {
    st = pair (first h room).st;
    of_log =
        get_elem?-set_self s.system_state_log k _
          (lt_of_get_elem? s.system_state_log k (first h room).of_log);
    is_node = refl;
    c = joined (16 + k) (kernel.uptime s.world).0 (first h room).c;
    of_client =
        get_elem?-set_self s.client k _ (lt_of_get_elem? s.client k (first h room).of_client);
    is_addr = refl;
  }

  kept :
      (i : ℕ) (node : NodeS) (a : ℕ)
      → k ≢ i
      → IsEntry s.system_state_log s.client i node a
      → IsEntry after.system_state_log after.client i node a
  kept i node a apart e = record {
    st = e.st;
    of_log = get_elem?-set_ne s.system_state_log k i _ apart ∙ e.of_log;
    is_node = e.is_node;
    c = e.c;
    of_client = get_elem?-set_ne s.client k i _ apart ∙ e.of_client;
    is_addr = e.is_addr;
  }

  after-IsSeries : IsSeries (suc k) after
  after-IsSeries = record {
    clients = length-set s.client k _ ∙ h.clients;
    nodes = length-set s.system_state_log k _ ∙ h.nodes;
    active = omega (arith, h.active);
    taken_up = λ i below. elim (Bool-cases (i == k)) [
      | inl same ↦ let e : i ≡ k = (==_iff i k).0 same in rw e newest
      | inr other ↦
          kept i paired (16 + i) (ground (arith, other))
            (h.taken_up i (ground (arith, other, below)))
    ];
    empty = λ i low high. kept i inactive 0 (omega arith) (h.empty i (omega arith) high);
  }

  -- With room for it the next node gets the entry and the address that come next.
  pub new_client-next :
      (s' : Bms W) × (new_client s ≡ done k s')
      × IsSeries (suc k) s'
      × (s'.world ≡ (kernel.uptime s.world).1)
  new_client-next = (
    after,
    after_slot s h.clients h.nodes k (first h room).st (first-FirstFree h room)
        ∙ assign_addr-low (paired_at s k (first h room).st) k (16 + k) (first h room).c
            (first h room).of_client (found-next h room) (omega arith),
    after-IsSeries,
    refl,
  )
