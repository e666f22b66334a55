-- ===== src/Tests/Addresses.antt =====
-- The theorems on joining nodes, at masters with no node, one node and sixteen nodes.
use wbms.Prelude.{
  ℕ, zero, suc, ◌≤◌, ◌<◌, ◌≡◌, refl, false, some, List, ◌∷◌, replicate, get_elem?, arith,
}
use wbms.Types.{BmsSt, HgNetClient, active, paired}
use wbms.Kernel.Simulated.{World, simulated}
use wbms.Bms.{Bms, done, halted}
use wbms.NetMgr.Clients.{taken, round, find_addr, address, new_client}
use wbms.NetMgr.Clients.Address.{Cleared}
use wbms.NetMgr.Clients.Join.{
  Busy, FirstFree, paired_at, joins, new_client-full, new_client-joins, new_client-duplicate,
}
use wbms.Samples.{master, free_entry, free_client}

abbrev in_use : BmsSt
in_use = record (free_entry) { curr_node = active }

abbrev just_paired : BmsSt
just_paired = record (free_entry) { curr_node = paired }

abbrev base_client : HgNetClient
base_client = record (free_client) { addr = 16 }

-- Entry 0 has the address BASE_ADDR, as the first node to join gets it; PAIRED.
abbrev log_one : List BmsSt
log_one = just_paired ∷ replicate 15 free_entry

abbrev clients_one : List HgNetClient
clients_one = base_client ∷ replicate 15 free_client

-- The search steps over BASE_ADDR.
found : find_addr 3297 log_one clients_one 0 16 ≡ address 17
unfolding find_addr round taken
found = refl

abbrev full_master : Bms World
full_master = record (master 16) { system_state_log = replicate 16 in_use }

in_use_everywhere : (n i : ℕ) → i < n → Busy (replicate n in_use) i
in_use_everywhere zero i h = absurd (omega arith)
in_use_everywhere (suc n) zero h = (in_use, refl, refl)
in_use_everywhere (suc n) (suc i) h = in_use_everywhere n i (omega arith)

new_client-full_example : new_client ⦃k = simulated⦄ full_master ≡ halted 12 full_master
new_client-full_example =
    new_client-full ⦃k = simulated⦄ full_master (omega arith) (in_use_everywhere 16)

-- The first node has joined and sent its OK, and the next asks for an address.
abbrev second : Bms World
second = record (master 16) {
  system_state_log = in_use ∷ replicate 15 free_entry;
  client = base_client ∷ replicate 15 free_client;
}

second_free : FirstFree second.system_state_log 1 free_entry
second_free = record { there = refl; free = refl; busy = first_busy }
  where
    first_busy : (i : ℕ) → i < 1 → Busy second.system_state_log i
    first_busy zero h = (in_use, refl, refl)
    first_busy (suc i) h = absurd (omega arith)

new_client-joins_example :
    (a : ℕ) × (c : HgNetClient) × (get_elem? second.client 1 ≡ some c)
    × (new_client ⦃k = simulated⦄ second ≡ done 1 (joins ⦃k = simulated⦄ second 1 free_entry c a))
    × (16 ≤ a)
    × (a ≤ 32)
    × Cleared (paired_at second 1 free_entry).system_state_log second.client 16 a
new_client-joins_example =
    new_client-joins ⦃k = simulated⦄ second refl refl 1 free_entry second_free

free_tail :
    (n i : ℕ) → i < n → taken (replicate n free_entry) (replicate n free_client) i 16 ≡ some false
unfolding taken
free_tail zero i h = absurd (omega arith)
free_tail (suc n) zero h = refl
free_tail (suc n) (suc i) h = free_tail n i (omega arith)

free_rest :
    (i : ℕ)
    → i < 16
    → taken (paired_at second 1 free_entry).system_state_log second.client i 16 ≡ some false
unfolding taken
free_rest zero h = refl
free_rest (suc zero) h = refl
free_rest (suc (suc i)) h = free_tail 14 i (omega arith)

-- Nodes 0 and 1 share the address BASE_ADDR.
new_client-duplicate_example :
    (s' : Bms World) × (d : HgNetClient) × (new_client ⦃k = simulated⦄ second ≡ done 1 s')
    × (get_elem? s'.client 0 ≡ some base_client)
    × (get_elem? s'.client 1 ≡ some d)
    × (d.addr ≡ 16)
new_client-duplicate_example =
    new_client-duplicate ⦃k = simulated⦄ second refl refl 1 free_entry second_free 0 free_client
      base_client (λ e. cc) refl refl refl free_rest
