-- ===== src/Types.antt =====
-- The data of the master (BMS build): the enumerations and structures of src/hg_netMgr.h, and what
-- the mesh messages carry (src/mesh_cli.h, src/mesh_cli.c).
use wbms.Prelude.{ℕ, Bool, List, ◌==◌}

-- `t_pktS`, the last packet event that the master saw of a node.
pub data PktS : Type 0 where
  no_info rx_ok tx_token tx_ack rx_data tx_recover : PktS

-- `t_nodeS`
pub data NodeS : Type 0 where
  inactive paired active token_mismatch pec_failed timeout_err trust_err pkt_st_err lost : NodeS

-- `t_sysSS`
pub data SysSs : Type 0 where
  batt_info_lost no_issues startup_nodata : SysSs

-- `t_transS`
pub data TransS : Type 0 where
  started rejected ended : TransS

-- The values of the enumerators, which C compares.
abbrev pub pkt_code : PktS → ℕ
pkt_code no_info = 0
pkt_code rx_ok = 1
pkt_code tx_token = 2
pkt_code tx_ack = 3
pkt_code rx_data = 4
pkt_code tx_recover = 5

abbrev pub node_code : NodeS → ℕ
node_code inactive = 0
node_code paired = 1
node_code active = 2
node_code token_mismatch = 3
node_code pec_failed = 4
node_code timeout_err = 5
node_code trust_err = 6
node_code pkt_st_err = 7
node_code lost = 8

abbrev pub sys_code : SysSs → ℕ
sys_code batt_info_lost = 0
sys_code no_issues = 1
sys_code startup_nodata = 2

abbrev pub eq_pkt : PktS → PktS → Bool
eq_pkt p q = pkt_code p == pkt_code q

abbrev pub eq_node : NodeS → NodeS → Bool
eq_node p q = node_code p == node_code q

abbrev pub eq_sys : SysSs → SysSs → Bool
eq_sys p q = sys_code p == sys_code q

-- `t_bmsSt`
pub record BmsSt : Type 0 where
  pub prev_pkt : PktS
  pub curr_pkt : PktS
  pub prev_node : NodeS
  pub curr_node : NodeS

-- `t_transCnt`
pub record TransCnt : Type 0 where
  pub t_started : ℕ
  pub t_closed : ℕ
  pub t_rejected : ℕ

-- `t_pktCnt`
pub record PktCnt : Type 0 where
  pub tok_cnt : ℕ
  pub cv_cnt : ℕ
  pub ok_cnt : ℕ
  pub ack_cnt : ℕ
  pub rcv_cnt : ℕ
  pub rst_cnt : ℕ

-- `t_errCnt`
pub record ErrCnt : Type 0 where
  pub pec_cnt : ℕ
  pub timeout_cnt : ℕ
  pub token_mis_cnt : ℕ
  pub dropped_cnt : ℕ

-- `t_sysConf`
pub record SysConf : Type 0 where
  pub pkt_size : ℕ
  pub ok_to : ℕ
  pub cv_to : ℕ
  pub nodes_num : ℕ
  pub cells_num : ℕ

-- `t_misc`
pub record Misc : Type 0 where
  pub startup_ts : ℕ
  pub session_ts : ℕ

-- `t_txTokPkt`
pub record TxTokPkt : Type 0 where
  pub addr : ℕ
  pub ts : ℕ
  pub token : ℕ
  pub rx_cnt : ℕ

-- `t_rxCvPkt`
pub record RxCvPkt : Type 0 where
  pub addr : ℕ
  pub token : ℕ
  pub cells : List ℕ
  pub pec : ℕ
  pub ts : ℕ

-- `t_stage`
pub record Stage : Type 0 where
  pub ok : ℕ
  pub tok : ℕ
  pub cv : ℕ
  pub ack : ℕ

-- `t_proc`
pub record Proc : Type 0 where
  pub cycle_time : ℕ
  pub cycle_start : ℕ
  pub intervals : Stage

-- `struct t_lat`, less the word that the FIFO reserves
pub record Lat : Type 0 where
  pub nid : ℕ
  pub timings : Proc

-- `t_ts`
pub record Ts : Type 0 where
  pub join_cmb_ts : ℕ
  pub lost_cmb_ts : ℕ
  pub last_recovery : ℕ
  pub last_reconnect : ℕ

-- `t_diag`
pub record Diag : Type 0 where
  pub last : Ts
  pub last_updated : ℕ
  pub last_received_ok : ℕ
  pub is_active : ℕ
  pub log : ErrCnt

-- `hgNetClient`
pub record HgNetClient : Type 0 where
  pub addr : ℕ
  pub addr_token : ℕ
  pub diag : Diag

-- `struct fifo_data_t`, less the reserved word
pub record FifoData : Type 0 where
  pub addr : ℕ
  pub cnt : ℕ

-- The opcodes of the vendor model.
pub data Op : Type 0 where
  addr_rq addr_rp data_msg ack_msg start_msg ok_msg token_msg rcv_msg : Op

-- What the program adds to a message's buffer, in order.
pub data Item : Type 0 where
  u8 le16 le32 : ℕ → Item
  mem : List ℕ → Item

-- A message as it is handed to `bt_mesh_model_send`.
pub record Message : Type 0 where
  pub op : Op
  pub addr : ℕ
  pub items : List Item

-- The two timers that each node has.
pub data Timer : Type 0 where
  ok_timeout data_timeout : ℕ → Timer
