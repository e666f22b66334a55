-- ===== src/NetMgr/Clients/Join.antt =====
-- What `mercury_netMgr_NewClient` does when a node asks for an address.
use wbms.Prelude.{
  ℕ, zero, suc, ◌+◌, ◌≤◌, ◌<◌, ◌≡◌, ◌≢◌, refl, sym, ◌∙◌, List, length, get_elem?, set, none, some,
  arith, inl, inr, inc_u8, ◌==◌, length-set, get_elem?-set_self, get_elem?-set_ne, lt_of_get_elem?,
  get_elem?-some, get_elem?-none, Bool-cases, ==_iff, if◌then◌else◌, false,
}
use wbms.Types.{BmsSt, HgNetClient, inactive, paired, eq_node}
use wbms.Kernel.{Kernel}
use wbms.Bms.{Bms, done, halted, fault, nodes_num}
use wbms.NetMgr.States.{update_node_state}
use wbms.NetMgr.Clients.{
  find_slot, find_addr, taken, address, enter_client, assign_addr, new_client,
}
use wbms.NetMgr.Clients.Address.{Cleared, find_addr_ends, find_addr_fresh, find_addr_free}
use wbms.NetMgr.Clients.Address.Near.{find_addr-near}

-- `mercury_netMgr_updateNodeState(i + BASE_ADDR, PAIRED)` on an entry.
abbrev pub pair : BmsSt → BmsSt
pair st = record st { prev_node = st.curr_node; curr_node = paired }

-- Entry `i` is there, and not INACTIVE.
abbrev pub Busy : List BmsSt → ℕ → Type 0
Busy log i = (st : BmsSt) × (get_elem? log i ≡ some st) × (eq_node st.curr_node inactive ≡ false)

-- Entry `n` is the first that is INACTIVE.
pub record FirstFree (log : List BmsSt) (n : ℕ) (st : BmsSt) : Type 0 where
  pub there : get_elem? log n ≡ some st
  pub free : st.curr_node ≡ inactive
  pub busy : (i : ℕ) → i < n → Busy log i

module _ {W : Type 0} where
  -- The state after the first loop has found entry `n`.
  abbrev pub paired_at : Bms W → ℕ → BmsSt → Bms W
  paired_at s n st = record s { system_state_log = set s.system_state_log n (pair st) }

  find_slot-first :
      (r i n : ℕ) (s : Bms W) (st : BmsSt)
      → FirstFree s.system_state_log n st
      → i ≤ n
      → n < i + r
      → n < 16
      → find_slot r i s ≡ done (some n) (paired_at s n st)
  unfolding find_slot update_node_state
  find_slot-first zero i n s st first low high small = absurd (omega arith)
  find_slot-first (suc r) i n s st first low high small = elim (Bool-cases (i == n)) [
    | inl here ↦ ground (arith, first.there, first.free)
    | inr before ↦
        let i<n : i < n = ground arith in
        let (other, e, b) = first.busy i i<n in
        ground (arith, find_slot-first r (i + 1) n s st first (omega arith) (omega arith) small)
  ]

  -- If every one of the 16 entries is in use the master stops with the LED code 12.
  find_slot-full :
      (r i : ℕ) (s : Bms W)
      → ((j : ℕ) → j < i + r → Busy s.system_state_log j)
      → find_slot r i s ≡ done none s
  unfolding find_slot
  find_slot-full zero i s busy = refl
  find_slot-full (suc r) i s busy =
      let (st, e, b) = busy i (omega arith) in
      ground (arith, find_slot-full r (i + 1) s (λ j h. busy j (omega arith)))

  -- If every one of fewer entries is in use it looks at one that is not there.
  find_slot-beyond :
      (r i : ℕ) (s : Bms W)
      → i ≤ nodes_num s
      → nodes_num s < i + r
      → ((j : ℕ) → j < nodes_num s → Busy s.system_state_log j)
      → find_slot r i s ≡ fault
  unfolding find_slot
  find_slot-beyond zero i s low high busy = absurd (omega arith)
  find_slot-beyond (suc r) i s low high busy = elim (Bool-cases (i == nodes_num s)) [
    | inl over ↦
        let gone = get_elem?-none s.system_state_log i (ground (arith, over)) in ground arith
    | inr inside ↦
        let below : i < nodes_num s = ground (arith, inside, low) in
        let (st, e, b) = busy i below in
        ground (arith, find_slot-beyond r (i + 1) s (omega arith) (omega arith) busy)
  ]

-- An entry of the table as a new node leaves it: its address, the time of joining, and active.
abbrev pub joined : ℕ → ℕ → HgNetClient → HgNetClient
joined a t c = record c {
  addr = a;
  diag = record (c.diag) { last = record (c.diag.last) { join_cmb_ts = t }; is_active = 1 };
}

module _ {W : Type 0} ⦃k : Kernel W⦄ where
  -- The state that `mercury_netMgr_NewClient` leaves when entry `n`, of client `c`, gets address `a`.
  abbrev pub joins : Bms W → ℕ → BmsSt → HgNetClient → ℕ → Bms W
  joins s n st c a = record s {
    system_state_log = set s.system_state_log n (pair st);
    hm = record (s.hm) { active = inc_u8 s.hm.active };
    client = set s.client n (joined a (k.uptime s.world).0 c);
    world = (k.uptime s.world).1;
  }

  pub assign_addr-low :
      (s : Bms W) (n a : ℕ) (c : HgNetClient)
      → get_elem? s.client n ≡ some c
      → find_addr 3297 s.system_state_log s.client 0 16 ≡ address a
      → a < 221
      → assign_addr n s
        ≡ done n (record s {
          hm = record (s.hm) { active = inc_u8 s.hm.active };
          client = set s.client n (joined a (k.uptime s.world).0 c);
          world = (k.uptime s.world).1;
        })
  unfolding assign_addr enter_client
  assign_addr-low s n a c there found low = ground arith

  module _ (s : Bms W) (clients : length s.client ≡ 16) (nodes : nodes_num s ≡ 16) where
    module _ (n : ℕ) (st : BmsSt) (first : FirstFree s.system_state_log n st) where
      pub after_slot : new_client s ≡ assign_addr n (paired_at s n st)
      unfolding new_client
      after_slot =
          let small : n < 16 = omega (arith, lt_of_get_elem? s.system_state_log n first.there) in
          ground (arith, find_slot-first 16 0 n s st first)

      pub same_nodes : 16 ≤ nodes_num (paired_at s n st)
      same_nodes = omega (arith, length-set s.system_state_log n (pair st))

      -- With 16 entries in both tables and a free one, `mercury_netMgr_NewClient` gives the first
      -- free entry an address from BASE_ADDR to at most 16 above it, which no PAIRED entry from 1 on
      -- has, marks it PAIRED and active, counts it, and leaves the rest. It does not stop with the
      -- LED code 12.
      pub new_client-joins :
          (a : ℕ) × (c : HgNetClient) × (get_elem? s.client n ≡ some c)
          × (new_client s ≡ done n (joins s n st c a))
          × (16 ≤ a)
          × (a ≤ 32)
          × Cleared (paired_at s n st).system_state_log s.client 16 a
      new_client-joins =
          let s' = paired_at s n st in
          let small : n < 16 = omega (arith, lt_of_get_elem? s.system_state_log n first.there) in
          let (c, there) = get_elem?-some s.client n (omega arith) in
          let (a, found, low, high) =
            find_addr_ends s'.system_state_log s.client same_nodes (omega arith) 3297 0 16
              (omega arith) (omega arith) in
          let near : a ≤ 32 = find_addr-near s'.system_state_log s.client 3297 0 16 a found in
          (
            a,
            c,
            there,
            after_slot ∙ assign_addr-low s' n a c there found (omega arith),
            low,
            near,
            find_addr_fresh s'.system_state_log s.client 3297 0 16 a (omega arith)
                (λ j one under. absurd (omega arith)) found (omega arith),
          )

      -- Only PAIRED entries are looked at: whenever none of them has the address BASE_ADDR, the new
      -- node gets it, also if a node that is ACTIVE, and so in use, has it already.
      pub new_client-base :
          (c : HgNetClient)
          → get_elem? s.client n ≡ some c
          → ((j : ℕ)
              → j < 16
              → taken (paired_at s n st).system_state_log s.client j 16 ≡ some false)
          → new_client s ≡ done n (joins s n st c 16)
      new_client-base c there free =
          after_slot
          ∙ assign_addr-low (paired_at s n st) n 16 c there
              (find_addr_free (paired_at s n st).system_state_log s.client 3297 0 16 (omega arith)
                (omega arith) (omega arith) (λ j _ under. free j under))
              (omega arith)

      -- So two nodes share an address: with 16 entries in both tables, of which `n` is the first free
      -- one, when another entry has BASE_ADDR and no PAIRED entry has it, as that of a node after its
      -- first OK is not, the next node to join is given it again.
      pub new_client-duplicate :
          (j : ℕ) (c c' : HgNetClient)
          → j ≢ n
          → get_elem? s.client n ≡ some c
          → get_elem? s.client j ≡ some c'
          → c'.addr ≡ 16
          → ((i : ℕ)
              → i < 16
              → taken (paired_at s n st).system_state_log s.client i 16 ≡ some false)
          → (s' : Bms W) × (d : HgNetClient) × (new_client s ≡ done n s')
            × (get_elem? s'.client j ≡ some c')
            × (get_elem? s'.client n ≡ some d)
            × (d.addr ≡ c'.addr)
      new_client-duplicate j c c' ne there other base free = (
        joins s n st c 16,
        joined 16 (k.uptime s.world).0 c,
        new_client-base c there free,
        get_elem?-set_ne s.client n j (joined 16 (k.uptime s.world).0 c) (λ e. ne (sym e)) ∙ other,
        get_elem?-set_self s.client n (joined 16 (k.uptime s.world).0 c)
            (lt_of_get_elem? s.client n there),
        sym base,
      )

  -- When every node is in use, `mercury_netMgr_NewClient` stops with the LED code 12 and the state as it
  -- was if there are 16 nodes, and looks beyond the end of `systemStateLog` if there are fewer.
  pub new_client-full :
      (s : Bms W)
      → nodes_num s ≤ 16
      → ((i : ℕ) → i < nodes_num s → Busy s.system_state_log i)
      → new_client s ≡ (if nodes_num s == 16 then halted 12 s else fault)
  unfolding new_client
  new_client-full s few busy = elim (Bool-cases (nodes_num s == 16)) [
    | inl all ↦
        let size : nodes_num s ≡ 16 = (==_iff (nodes_num s) 16).0 all in
        let slots = find_slot-full 16 0 s (λ i below. busy i (omega arith)) in rw (all, slots) refl
    | inr fewer ↦
        let slots = find_slot-beyond 16 0 s (omega arith) (ground (arith, fewer, few)) busy in
        rw (fewer, slots) refl
  ]
