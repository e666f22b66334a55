-- ===== src/Bms.antt =====
-- The state of the master, and the commands that its functions are. A command ends normally, stops
-- for ever in `mercury_led_fatal`, or faults: it indexes an array beyond its end, hands NULL to a
-- FIFO, or pulls from a buffer that is too short. A loop over a FIFO runs on fuel.
pub mod Post
use wbms.Prelude.{
  ℕ, Bool, true, false, Option, none, some, List, length, get_elem?, set, if◌then◌else◌,
}
use wbms.Types.{SysSs, BmsSt, TransCnt, PktCnt, ErrCnt, SysConf, Misc, HgNetClient, RxCvPkt, Lat}

-- `t_health`, of which the repository has the uses and not the declaration: `active` is taken to
-- be a `uint8_t`, as `addrCnt`, with which it is compared.
pub record Health : Type 0 where
  pub active : ℕ
  pub curr_sys : SysSs
  pub prev_sys : SysSs
  pub log : ErrCnt

-- The globals of src/hg_netMgr.c, src/hg_mesh.c and src/mesh_cli.c, and the kernel's state.
pub record Bms (W : Type 0) : Type 0 where
  pub client : List HgNetClient
  pub session : Misc
  pub config : SysConf
  pub hm : Health
  pub trans_log : List TransCnt
  pub pkt_cnt_log : List PktCnt
  pub system_state_log : List BmsSt
  pub data_pkt : List Lat
  pub msg_cnt : ℕ
  pub rx_counter : ℕ
  pub addr_cnt : ℕ
  pub datmsg_cnt : ℕ
  pub world : W

pub data Run (W A : Type 0) : Type 0 where
  done : A → Bms W → Run W A
  halted : ℕ → Bms W → Run W A
  fault : Run W A
  no_fuel : Run W A

abbrev pub Cmd : Type 0 → Type 0 → Type 0
Cmd W A = Bms W → Run W A

module _ {W A : Type 0} where
  abbrev pub pure : A → Cmd W A
  pure a s = done a s

  -- `mercury_led_fatal(n)`, which never returns
  abbrev pub led_fatal : ℕ → Cmd W A
  led_fatal n s = halted n s

  abbrev pub and_then : {B : Type 0} → Run W A → (A → Cmd W B) → Run W B
  and_then (done a s) k = k a s
  and_then (halted n s) k = halted n s
  and_then fault k = fault
  and_then no_fuel k = no_fuel

module _ {W : Type 0} where
  infixl 5 ◌>>=◌ ◌>>◌
  abbrev pub ◌>>=◌ : {A B : Type 0} → Cmd W A → (A → Cmd W B) → Cmd W B
  ◌>>=◌ m k s = and_then (m s) k

  abbrev pub ◌>>◌ : {B : Type 0} → Cmd W (Unit {0}) → Cmd W B → Cmd W B
  ◌>>◌ m k s = and_then (m s) (λ _. k)

  abbrev pub modify : (Bms W → Bms W) → Cmd W (Unit {0})
  modify f s = done tt (f s)

  -- an access to the kernel
  abbrev pub call : {A : Type 0} → (W → A × W) → Cmd W A
  call f s = let (a, w) = f s.world in done a (record s { world = w })

  abbrev pub call_ : (W → W) → Cmd W (Unit {0})
  call_ f s = done tt (record s { world = f s.world })

  -- a value that must be there
  abbrev pub need : {A : Type 0} → Option A → Cmd W A
  need none s = fault
  need (some a) s = done a s

-- `a[i] = f(a[i])`, `none` beyond the end
abbrev pub update_at : {A : Type 0} → List A → ℕ → (A → A) → Option (List A)
update_at l i f = elim (get_elem? l i) [ none ↦ none | some a ↦ some (set l i (f a)) ]

-- `NODES_NUM`: the number of entries that `systemStateLog` is declared with.
abbrev pub nodes_num : {W : Type 0} → Bms W → ℕ
nodes_num s = length s.system_state_log
