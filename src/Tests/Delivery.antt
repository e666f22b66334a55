-- ===== src/Tests/Delivery.antt =====
-- The theorem on a node's answer, at the node of Tests/Node.antt and a master with two nodes.
use wbms.Prelude.{◌++◌, ◌≡◌, refl, arith, [], ◌∷◌}
use wbms.Types.{Message, data_msg, le32, ended, TransCnt}
use wbms.Kernel.Simulated.{
  World, boot, simulated, tx_msgq-IsMsgq, rx_msgq-IsMsgq, other-get, other-put,
}
use wbms.Bms.{Bms, done, ◌>>◌}
use wbms.Samples.{master, free_entry, free_client}
use wbms.NetMgr.States.{node_idx}
use wbms.NetMgr.Counters.{count_transaction}
use wbms.NetMgr.Queues.Find.{any_answers}
use wbms.Mesh.Info.{take_data}
use wbms.Diag.{diag_round}
use wbms.Diag.Verify.{Entries}
use wbms.Cmb.Node as Node
use wbms.Cmb.Node.{Cmb, token_handler}
use wbms.Cmb.Delivery.{IsQueued, token_handler-diag_round}
use wbms.Tests.Node.{node, wire, wire-IsWire}

simulated-IsQueued : IsQueued simulated (λ w. w.rx) (λ w. w.tx)
simulated-IsQueued = record {
  u8 = λ a xs. refl;
  u16 = λ a b xs. refl;
  u32 = λ a b c d xs. refl;
  rx_law = rx_msgq-IsMsgq;
  tx_law = tx_msgq-IsMsgq;
  rx_uptime = λ w. refl;
  tx_uptime = λ w. refl;
  tx_put =
      λ m w. other-put (λ w. w.rx) (λ w l. record w { rx = l }) (λ w. w.tx) (λ w l. refl) 6 m w;
  tx_get = λ w. other-get (λ w. w.rx) (λ w l. record w { rx = l }) (λ w. w.tx) (λ w l. refl) w w.rx;
}

-- The token 513 was sent to the node at 17.
abbrev waiting : Bms World
waiting = record (master 2) {
  world = record (boot) { tx = record { addr = 17; ts = 0; token = 513; rx_cnt = 0 } ∷ [] };
}

abbrev no_transactions : TransCnt
no_transactions = record { t_started = 0; t_closed = 0; t_rejected = 0 }

token_handler-diag_round_example :
    (c' : Cmb World) × (m : Message) × (s' : Bms World) × (token_handler ⦃k = simulated⦄ 224
        (wire (le32 513 ∷ []))
        node
      ≡ Node.done c')
    × (c'.world.sent ≡ node.world.sent ++ (m ∷ []))
    × (m.op ≡ data_msg)
    × (m.addr ≡ 224)
    × ((take_data ⦃k = simulated⦄ (wire m.items) 17 >> diag_round ⦃k = simulated⦄) waiting
        ≡ done tt s')
    × Entries (node_idx 17) s' (count_transaction ended no_transactions) free_entry
unfolding node_idx any_answers
token_handler-diag_round_example =
    token_handler-diag_round ⦃k = simulated⦄ simulated-IsQueued wire wire-IsWire (λ xs items. refl)
      refl ⦃kv = simulated⦄ (λ w. w.sent) (λ m w. (refl, refl)) (λ w. refl) (λ x y z t xs. refl) 17
      224 513 node waiting
      (record {
        nid = 0;
        timings = record {
          cycle_time = 0;
          cycle_start = 0;
          intervals = record { ok = 0; tok = 0; cv = 0; ack = 0 };
        };
      })
      (record { tok_cnt = 0; cv_cnt = 0; ok_cnt = 0; ack_cnt = 0; rcv_cnt = 0; rst_cnt = 0 })
      no_transactions free_entry refl refl
      (record { client = free_client; of_client = refl; of_transactions = refl; of_states = refl })
      (omega arith) refl (omega arith) (omega arith) refl refl (λ ts. refl)
