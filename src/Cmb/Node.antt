-- ===== src/Cmb/Node.antt =====
-- A node: its globals, the handlers of the messages it receives and the messages it sends
-- (src/mesh_cli.c, src/hg_mesh.c), and the rounds of its two threads (src/app_slave.c). `extern` names
-- that no file defines, `ackSgn` and `startSgn`, are variables of their own.
pub mod Signals
pub mod Token
use wbms.Prelude.{
  ℕ, ◌+◌, ◌*◌, ◌%◌, ◌^◌, Bool, true, false, ◌||◌, Option, none, some, List, [], ◌∷◌, ◌==◌, not,
  if◌then◌else◌,
}
use wbms.Types.{data_msg, ok_msg, addr_rq, u8, le16, le32, mem, Message}
use wbms.Kernel.{Kernel}

-- The globals, and the kernel's state; `start_sem` is the count of `startSem`, at most 1. `t_tx` and
-- the log of packets, which nothing reads, are left out.
pub record Cmb (W : Type 0) : Type 0 where
  pub mesh_addr : ℕ
  pub hw_addr : ℕ
  pub uicr_customer0 : ℕ
  pub addr_token : ℕ
  pub start_sem : ℕ
  pub ack_sgn : ℕ
  pub start_sgn : ℕ
  pub ok_sgn : ℕ
  pub rcv_sgn : ℕ
  pub restart_sgn : ℕ
  pub cell_volts : List ℕ
  pub curr_crc : ℕ
  pub packet_count : ℕ
  pub last_tx_ok : ℕ
  pub last_rx_tok : ℕ
  pub world : W

-- How a function of the node ends: normally, in `mercury_led_fatal`, or in a read beyond a buffer.
pub data Outcome (W : Type 0) : Type 0 where
  done : Cmb W → Outcome W
  halted : ℕ → Cmb W → Outcome W
  fault : Outcome W

abbrev pub and_then : {W : Type 0} → Outcome W → (Cmb W → Outcome W) → Outcome W
and_then (done s) k = k s
and_then (halted n s) k = halted n s
and_then fault k = fault

-- What the node uses of Zephyr beside what `Kernel` has: `sys_rand32_get`, `sys_rand_get` of a byte
-- for each cell, and the calls that provision the node anew with an address.
pub record Services (W : Type 0) : Type 0 where
  pub rand32 : W → ℕ × W
  pub rand_cells : W → List ℕ × W
  pub provision : ℕ → W → W

module _ {W : Type 0} where
  -- `board_init`: 1 is NODE_CMB_DEFADDR
  unfoldable pub board_init : Cmb W → Cmb W
  board_init s =
      if s.uicr_customer0 == 0 || s.uicr_customer0 == 0xffff
      then record s { uicr_customer0 = 1; mesh_addr = 1; hw_addr = 1 }
      else s

  -- `mercury_mesh_updateAddr`; UICR_Customer0 is a word
  unfoldable pub update_addr : ℕ → ℕ → Cmb W → Cmb W
  update_addr mesh hw s = record s { mesh_addr = mesh; hw_addr = hw; uicr_customer0 = mesh }

  -- `mercury_mesh_StartHandler`
  unfoldable pub start_handler : Cmb W → Cmb W
  start_handler s = record s { start_sem = 1; start_sgn = 1 }

  -- `mercury_mesh_ACKHandler`
  unfoldable pub ack_handler : ℕ → Cmb W → Cmb W
  ack_handler sender s = if sender == s.mesh_addr then s else record s { ack_sgn = 1 }

  -- `mercury_mesh_RecoveryHandler`
  unfoldable pub recovery_handler : ℕ → Cmb W → Cmb W
  recovery_handler sender s = if sender == s.mesh_addr then s else record s { rcv_sgn = 1 }

module _ {W : Type 0} ⦃k : Kernel W⦄ where
  -- `bt_mesh_model_send`: a failure is fatal, with the LED code 3
  unfoldable pub transmit : Message → Cmb W → Outcome W
  transmit msg s =
      let (failed, w) = k.mesh_send msg s.world in
      if failed then halted 3 (record s { world = w }) else done (record s { world = w })

  -- `bt_mesh_cli_sendData`, to NODE_BMS_ADDR = 224
  unfoldable pub cli_send_data : ℕ → ℕ → Cmb W → Outcome W
  unfolding transmit
  cli_send_data token crc s =
      transmit
        (record {
          op = data_msg;
          addr = 224;
          items = mem s.cell_volts ∷ le32 token ∷ le16 crc ∷ [];
        })
        s

  -- `mercury_mesh_sendOK`: `bt_mesh_cli_sendOK`, of which the message has one byte of the counter,
  -- and the node's `updateOKInfo`. The counter is an `int`, kept by its 32 bits.
  unfoldable pub send_ok : Cmb W → Outcome W
  unfolding transmit
  send_ok s =
      and_then
        (transmit (record { op = ok_msg; addr = 224; items = u8 (s.packet_count % 2 ^ 8) ∷ [] }) s)
        (λ s'.
          let (t, w) = k.uptime s'.world in
          done (record s' {
            packet_count = (s'.packet_count + 1) % 2 ^ 32;
            last_tx_ok = t;
            world = w;
          }))

  -- The node's `updateTokenInfo`
  unfoldable pub update_token_info : Cmb W → Cmb W
  update_token_info s = let (t, w) = k.uptime s.world in record s { last_rx_tok = t; world = w }

  -- `mercury_mesh_TokenHandler`. The semaphore around the reads is free between handlers.
  unfoldable pub token_handler : ℕ → List ℕ → Cmb W → Outcome W
  unfolding cli_send_data update_token_info
  token_handler sender buf s = if sender == s.mesh_addr then done s else (elim (k.pull_le32 buf) [
    | none ↦ fault
    | some (token, rest) ↦
        let (ts, w) = k.uptime s.world in
        and_then (cli_send_data token s.curr_crc (record s { world = w }))
          (λ s'. done (update_token_info s'))
  ])

  -- One round of the loop of `mercury_main_cmb`.
  unfoldable pub main_round : Cmb W → Outcome W
  unfolding send_ok
  main_round s =
      let sent = send_ok s in
      if not (s.ok_sgn == 0) || not (s.rcv_sgn == 0) || not (s.restart_sgn == 0)
      then and_then sent (λ s'. done (record s' { ok_sgn = 0; rcv_sgn = 0; restart_sgn = 0 }))
      else done s

  module _ (services : Services W) where
    -- `bt_mesh_cli_request_address`
    unfoldable pub request_address : Cmb W → Outcome W
    unfolding transmit
    request_address s =
        let (token, w) = services.rand32 s.world in
        transmit (record { op = addr_rq; addr = 224; items = le32 token ∷ [] })
          (record s { addr_token = token; world = w })

    -- One round of the loop of `polling_fn`: `poll_fake_cv` and `calcCrc`.
    unfoldable pub polling_round : Cmb W → Cmb W
    polling_round s =
        let (cells, w) = services.rand_cells s.world in
        record s { cell_volts = cells; curr_crc = k.crc16_ansi cells; world = w }

module _ {W : Type 0} where
  -- `mercury_mesh_RXAddrRPHandler`: six bytes of the buffer, as far as the token of the request, and
  -- the new address if it is the node's own token.
  unfoldable pub addr_rp_handler : Services W → ℕ → List ℕ → Cmb W → Outcome W
  unfolding update_addr
  addr_rp_handler services sender (a ∷ b ∷ c ∷ d ∷ e ∷ f ∷ rest) s =
      if sender == s.mesh_addr
      then done s
      else (if a + 256 * b + 256 * 256 * c + 256 * 256 * 256 * d == s.addr_token
          then (let s' = update_addr (e + 256 * f) (e + 256 * f) s in
              done (record s' { world = services.provision (e + 256 * f) s'.world }))
          else done s)
  addr_rp_handler services sender _ s = if sender == s.mesh_addr then done s else fault
