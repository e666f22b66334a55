-- ===== src/Cmb/Node/Token.antt =====
-- What a token makes the node send.
use wbms.Prelude.{ℕ, ◌≡◌, ◌≢◌, some, List, [], ◌∷◌, arith, true, false}
use wbms.Types.{data_msg, le16, le32, mem, Message}
use wbms.Kernel.{Kernel}
use wbms.Cmb.Node.{Cmb, done, halted, transmit, cli_send_data, update_token_info, token_handler}

module _ {W : Type 0} where
  -- The message that answers a token.
  abbrev pub answer : ℕ → Cmb W → Message
  answer token s = record {
    op = data_msg;
    addr = 224;
    items = mem s.cell_volts ∷ le32 token ∷ le16 s.curr_crc ∷ [];
  }

module _ {W : Type 0} ⦃k : Kernel W⦄ where
  -- A token from another address is answered at once, whatever the node's flags, with the node's
  -- cells, the token that came and the checksum of the last poll: if the mesh takes the message, the
  -- node notes the time, and if not, it stops with the LED code 3.
  pub token_handler-answers :
      (sender token : ℕ) (buf rest : List ℕ) (s : Cmb W)
      → sender ≢ s.mesh_addr
      → k.pull_le32 buf ≡ some (token, rest)
      → let (failed, w) = k.mesh_send (answer token s) (k.uptime s.world).1 in
        ((failed ≡ false)
          → token_handler sender buf s
            ≡ done (record s { last_rx_tok = (k.uptime w).0; world = (k.uptime w).1 }))
        × ((failed ≡ true) → token_handler sender buf s ≡ halted 3 (record s { world = w }))
  unfolding token_handler cli_send_data transmit update_token_info
  token_handler-answers sender token buf rest s other pulled =
      (λ ok. ground arith, λ refused. ground arith)
