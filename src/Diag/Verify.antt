-- ===== src/Diag/Verify.antt =====
-- What `diag_verifyRxData` makes of a data packet, for each outcome of its two checks.
use wbms.Prelude.{
  ℕ, ◌≡◌, refl, Bool, true, false, some, get_elem?, set, arith, get_elem?-set_self, lt_of_get_elem?,
  if◌then◌else◌,
}
use wbms.Types.{
  NodeS, token_mismatch, pec_failed, rejected, ended, RxCvPkt, BmsSt, TransCnt, HgNetClient,
}
use wbms.Kernel.{Kernel}
use wbms.Bms.{Bms, done, pure}
use wbms.NetMgr.States.{node_idx}
use wbms.NetMgr.Counters.{
  count_error, count_transaction, transaction_update, log_error, error_count_update,
  count_client_error,
}
use wbms.NetMgr.Queues.{search_tx, search_rounds}
use wbms.Diag.{write_node, write_last_updated, refuse, crc16_check, verify_rx_data}

-- What the tables hold of a node.
pub record Entries {W : Type 0} (i : ℕ) (s : Bms W) (t : TransCnt) (st : BmsSt) : Type 0 where
  pub client : HgNetClient
  pub of_client : get_elem? s.client i ≡ some client
  pub of_transactions : get_elem? s.trans_log i ≡ some t
  pub of_states : get_elem? s.system_state_log i ≡ some st

-- The counters after the two checks: a missing token rejects the transaction, and then a right CRC
-- closes it and a wrong one rejects it.
abbrev pub counted : Bool → Bool → TransCnt → TransCnt
counted found right t =
    let u = if found then t else count_transaction rejected t in
    if right then count_transaction ended u else count_transaction rejected u

-- The node's state: that of the last check to fail.
abbrev pub marked : Bool → Bool → BmsSt → BmsSt
marked found right st =
    let u = if found then st else record st { curr_node = token_mismatch } in
    if right then u else record u { curr_node = pec_failed }

module _ {W : Type 0} (a : ℕ) where
  refuse-Entries :
      (x : NodeS) (s : Bms W) (t : TransCnt) (st : BmsSt)
      → ((s' : Bms W) → error_count_update a x s' ≡ log_error a x s')
      → Entries (node_idx a) s t st
      → (s' : Bms W) × (refuse a x s ≡ done tt s')
        × (s'.world ≡ s.world)
        × Entries (node_idx a) s' (count_transaction rejected t) (record st { curr_node = x })
  unfolding refuse transaction_update write_node log_error
  refuse-Entries x s t st counts es =
      let i = node_idx a in
      let d = count_client_error x es.client in
      let u = count_transaction rejected t in
      let st' = record st { curr_node = x } in
      let log = set s.system_state_log i st' in
      (
        record s {
          trans_log = set s.trans_log i u;
          system_state_log = log;
          client = set s.client i d;
          hm = record (s.hm) { log = count_error x s.hm.log };
        },
        ground (
          arith,
          es.of_transactions,
          es.of_states,
          es.of_client,
          counts (record s { trans_log = set s.trans_log i u; system_state_log = log }),
        ),
        refl,
        record {
          client = d;
          of_client = get_elem?-set_self s.client i d (lt_of_get_elem? s.client i es.of_client);
          of_transactions =
              get_elem?-set_self s.trans_log i u (lt_of_get_elem? s.trans_log i es.of_transactions);
          of_states =
              get_elem?-set_self s.system_state_log i st'
                (lt_of_get_elem? s.system_state_log i es.of_states);
        },
      )

  close-Entries :
      (s : Bms W) (t : TransCnt) (st : BmsSt)
      → Entries (node_idx a) s t st
      → (s' : Bms W) × (transaction_update a ended s ≡ done tt s')
        × (s'.world ≡ s.world)
        × Entries (node_idx a) s' (count_transaction ended t) st
  unfolding transaction_update
  close-Entries s t st es =
      let i = node_idx a in
      let u = count_transaction ended t in
      (
        record s { trans_log = set s.trans_log i u },
        ground (arith, es.of_transactions),
        refl,
        record {
          client = es.client;
          of_client = es.of_client;
          of_transactions =
              get_elem?-set_self s.trans_log i u (lt_of_get_elem? s.trans_log i es.of_transactions);
          of_states = es.of_states;
        },
      )

  token_check-Entries :
      (found : Bool) (s : Bms W) (t : TransCnt) (st : BmsSt)
      → Entries (node_idx a) s t st
      → (s' : Bms W) × ((if found then pure tt else refuse a token_mismatch) s ≡ done tt s')
        × (s'.world ≡ s.world)
        × Entries
            (node_idx a)
            s'
            (if found then t else count_transaction rejected t)
            (if found then st else record st { curr_node = token_mismatch })
  unfolding error_count_update
  token_check-Entries true s t st es = (s, refl, refl, es)
  token_check-Entries false s t st es = refuse-Entries token_mismatch s t st (λ s'. refl) es

  crc_check-Entries :
      (right : Bool) (s : Bms W) (t : TransCnt) (st : BmsSt)
      → Entries (node_idx a) s t st
      → (s' : Bms W) × ((if right then transaction_update a ended else refuse a pec_failed) s
          ≡ done tt s')
        × (s'.world ≡ s.world)
        × Entries
            (node_idx a)
            s'
            (if right then count_transaction ended t else count_transaction rejected t)
            (if right then st else record st { curr_node = pec_failed })
  unfolding error_count_update
  crc_check-Entries true s t st es = close-Entries s t st es
  crc_check-Entries false s t st es = refuse-Entries pec_failed s t st (λ s'. refl) es

  updated-Entries :
      (now : ℕ) (s : Bms W) (t : TransCnt) (st : BmsSt)
      → Entries (node_idx a) s t st
      → (s' : Bms W) × (write_last_updated a now s ≡ done tt s') × Entries (node_idx a) s' t st
  unfolding write_last_updated
  updated-Entries now s t st es =
      let i = node_idx a in
      let c = es.client in
      let d = record c { diag = record (c.diag) { last_updated = now } } in
      (
        record s { client = set s.client i d },
        ground (arith, es.of_client),
        record {
          client = d;
          of_client = get_elem?-set_self s.client i d (lt_of_get_elem? s.client i es.of_client);
          of_transactions = es.of_transactions;
          of_states = es.of_states;
        },
      )

module _ {W : Type 0} ⦃k : Kernel W⦄ where
  -- `diag_verifyRxData` ends for every packet of a node that the tables hold, and settles its
  -- transaction by the two checks: with a token found and a right CRC it is closed; with a wrong CRC
  -- it is rejected; without a token it is rejected once more, also if the CRC is right and closes it.
  -- The node's state is marked with the last check that fails.
  pub verify_rx_data-Entries :
      (m : RxCvPkt) (s : Bms W) (t : TransCnt) (st : BmsSt)
      → Entries (node_idx m.addr) s t st
      → let found = (search_rounds k.tx_msgq (k.tx_msgq.num_used s.world) m s.world).0 in
        let right = crc16_check k.crc16_ansi m in
        (s' : Bms W) × (verify_rx_data m s ≡ done tt s')
        × Entries (node_idx m.addr) s' (counted found right t) (marked found right st)
  unfolding verify_rx_data search_tx
  verify_rx_data-Entries m s t st es =
      let (found, w) = search_rounds k.tx_msgq (k.tx_msgq.num_used s.world) m s.world in
      let right = crc16_check k.crc16_ansi m in
      let s0 = record s { world = w } in
      let es0 : Entries (node_idx m.addr) s0 t st = record {
        client = es.client;
        of_client = es.of_client;
        of_transactions = es.of_transactions;
        of_states = es.of_states;
      } in
      let (s1, one, same1, es1) = token_check-Entries m.addr found s0 t st es0 in
      let (s2, two, same2, es2) = crc_check-Entries m.addr right s1 _ _ es1 in
      let s3 = record s2 { world = (k.uptime s2.world).1 } in
      let es3 : Entries (node_idx m.addr) s3 (counted found right t) (marked found right st) =
        record {
          client = es2.client;
          of_client = es2.of_client;
          of_transactions = es2.of_transactions;
          of_states = es2.of_states;
        } in
      let (s4, last, es4) = updated-Entries m.addr (k.uptime s2.world).0 s3 _ _ es3 in
      (s4, ground (arith, one, two, last), es4)
