-- ===== src/Samples.antt =====
-- A master with some nodes, as after start-up: the inputs of the tests and witnesses.
use wbms.Prelude.{ℕ, replicate}
use wbms.Types.{no_info, inactive, startup_nodata, BmsSt, ErrCnt, HgNetClient}
use wbms.Kernel.Simulated.{World, boot}
use wbms.Bms.{Bms}

abbrev pub no_errors : ErrCnt
no_errors = record { pec_cnt = 0; timeout_cnt = 0; token_mis_cnt = 0; dropped_cnt = 0 }

abbrev pub free_client : HgNetClient
free_client = record {
  addr = 0;
  addr_token = 0;
  diag = record {
    last = record { join_cmb_ts = 0; lost_cmb_ts = 0; last_recovery = 0; last_reconnect = 0 };
    last_updated = 0;
    last_received_ok = 0;
    is_active = 0;
    log = no_errors;
  };
}

abbrev pub free_entry : BmsSt
free_entry = record {
  prev_pkt = no_info;
  curr_pkt = no_info;
  prev_node = inactive;
  curr_node = inactive;
}

-- A master built for `n` nodes.
abbrev pub master : ℕ → Bms World
master n = record {
  client = replicate 16 free_client;
  session = record { startup_ts = 0; session_ts = 0 };
  config = record { pkt_size = 0; ok_to = 0; cv_to = 0; nodes_num = 0; cells_num = 0 };
  hm = record { active = 0; curr_sys = startup_nodata; prev_sys = startup_nodata; log = no_errors };
  trans_log = replicate n (record { t_started = 0; t_closed = 0; t_rejected = 0 });
  pkt_cnt_log =
      replicate n
        (record { tok_cnt = 0; cv_cnt = 0; ok_cnt = 0; ack_cnt = 0; rcv_cnt = 0; rst_cnt = 0 });
  system_state_log = replicate n free_entry;
  data_pkt = replicate n (record {
    nid = 0;
    timings = record {
      cycle_time = 0;
      cycle_start = 0;
      intervals = record { ok = 0; tok = 0; cv = 0; ack = 0 };
    };
  });
  msg_cnt = 0;
  rx_counter = 0;
  addr_cnt = 0;
  datmsg_cnt = 0;
  world = boot;
}
