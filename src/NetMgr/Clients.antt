-- ===== src/NetMgr/Clients.antt =====
-- The table of the nodes: `mercury_netMgr_InitState` and `mercury_netMgr_NewClient` of
-- src/hg_netMgr.c. Both loops run over HG_NET_MAXCLIENTS = 16 entries of `systemStateLog`, which
-- has NODES_NUM: an entry beyond is a fault.
pub mod Init
pub mod Address
pub mod Join
pub mod Series
use wbms.Prelude.{
  ℕ, zero, suc, ◌+◌, Bool, true, false, ◌&&◌, Option, none, some, List, get_elem?, set, ltb, leb,
  ◌==◌, if◌then◌else◌, inc_u8,
}
use wbms.Types.{no_info, NodeS, inactive, paired, startup_nodata, BmsSt, HgNetClient, Diag, eq_node}
use wbms.Kernel.{Kernel}
use wbms.Bms.{
  Bms, Run, done, halted, fault, Cmd, pure, led_fatal, ◌>>=◌, ◌>>◌, modify, call, update_at,
}
use wbms.NetMgr.States.{update_node_state}

-- `addr = 0` and `diag.isActive = 0` of an entry.
abbrev pub clear_client : HgNetClient → HgNetClient
clear_client c = record c { addr = 0; diag = record (c.diag) { is_active = 0 } }

-- The writes to a node's states, which leave the previous ones.
abbrev pub clear_state : BmsSt → BmsSt
clear_state st = record st { curr_node = inactive; curr_pkt = no_info }

module _ {W : Type 0} where
  -- One round of the loop of `mercury_netMgr_InitState`.
  unfoldable pub init_entry : ℕ → Cmd W (Unit {0})
  init_entry i s = elim (update_at s.client i clear_client) [
    | none ↦ fault
    | some cs ↦ elim (update_at s.system_state_log i clear_state) [
      | none ↦ fault
      | some l ↦ done tt (record s { client = cs; system_state_log = l })
    ]
  ]

  -- The loop, by the rounds left.
  unfoldable pub init_loop : ℕ → ℕ → Cmd W (Unit {0})
  init_loop zero i = pure tt
  init_loop (suc n) i = init_entry i >> init_loop n (i + 1)

  -- `mercury_netMgr_InitState`
  unfoldable pub init_state : Cmd W (Unit {0})
  unfolding init_loop
  init_state s = init_loop 16 0 (record s { hm = record (s.hm) { curr_sys = startup_nodata } })

  -- The first loop of `mercury_netMgr_NewClient`, by the rounds left: the first INACTIVE entry
  -- becomes PAIRED.
  unfoldable pub find_slot : ℕ → ℕ → Cmd W (Option ℕ)
  find_slot zero i s = done none s
  find_slot (suc n) i s = elim (get_elem? s.system_state_log i) [
    | none ↦ fault
    | some st ↦ elim (eq_node st.curr_node inactive) [
      | true ↦ (update_node_state (i + 16) paired >> pure (some i)) s
      | false ↦ find_slot n (i + 1) s
    ]
  ]

-- The second loop of `mercury_netMgr_NewClient` ends with an address, with a fault, or without
-- fuel.
pub data Search : Type 0 where
  address : ℕ → Search
  beyond : Search
  no_fuel : Search

-- Whether entry `i` is PAIRED and has the address: `none` beyond the end of an array.
unfoldable pub taken : List BmsSt → List HgNetClient → ℕ → ℕ → Option Bool
taken log client i a = elim (get_elem? log i) [
  | none ↦ none
  | some st ↦ elim (eq_node st.curr_node paired) [
    | false ↦ some false
    | true ↦ elim (get_elem? client i) [ none ↦ none | some c ↦ some (c.addr == a) ]
  ]
]

-- How one round of the loop ends: the loop stops, goes on, or has left an array.
pub data Round : Type 0 where
  stop : ℕ → Round
  again : ℕ → ℕ → Round
  out : Round

-- The round for entry `i` with the address `a`. A clash sets `i = 0`, and the loop's increment
-- then makes it 1; MAX_ADDR = 221 ends the loop.
unfoldable pub round : List BmsSt → List HgNetClient → ℕ → ℕ → Round
round log client i a =
    if ltb i 16
    then (elim (taken log client i a) [
      | none ↦ out
      | some clash ↦
          if clash
          then (if leb 221 (a + 1) then stop (a + 1) else again 1 (a + 1))
          else if leb 221 a
          then stop a
          else again (i + 1) a
    ])
    else stop a

unfoldable pub find_addr : ℕ → List BmsSt → List HgNetClient → ℕ → ℕ → Search
find_addr zero log client i a = no_fuel
find_addr (suc f) log client i a = elim (round log client i a) [
  | stop r ↦ address r
  | out ↦ beyond
  | again j b ↦ find_addr f log client j b
]

-- The writes to the new node's entry at the time `t`; the slot is returned.
unfoldable pub write_client : {W : Type 0} → ℕ → ℕ → ℕ → Cmd W ℕ
write_client n a t s =
    elim (update_at s.client n (λ c. record c {
      addr = a;
      diag = record (c.diag) { last = record (c.diag.last) { join_cmb_ts = t }; is_active = 1 };
    })) [ none ↦ fault | some l ↦ done n (record s { client = l }) ]

module _ {W : Type 0} ⦃k : Kernel W⦄ where
  -- The end of `mercury_netMgr_NewClient`, for slot `n` and the address `a`.
  unfoldable pub enter_client : ℕ → ℕ → Cmd W ℕ
  unfolding write_client
  enter_client n a = do
    modify (λ s. record s { hm = record (s.hm) { active = inc_u8 s.hm.active } })
    t ← call k.uptime
    write_client n a t

  -- From the search of an address on: no address below MAX_ADDR is fatal.
  unfoldable pub assign_addr : ℕ → Cmd W ℕ
  assign_addr n s = elim (find_addr 3297 s.system_state_log s.client 0 16) [
    | no_fuel ↦ fault
    | beyond ↦ fault
    | address a ↦ elim (leb 221 a) [ true ↦ led_fatal 12 s | false ↦ enter_client n a s ]
  ]

  -- `mercury_netMgr_NewClient`: the slot of the new node. No free slot is fatal.
  unfoldable pub new_client : Cmd W ℕ
  new_client = find_slot 16 0 >>= elim [ none ↦ led_fatal 12 | some n ↦ assign_addr n ]
