-- ===== src/Tests/Buffers.antt =====
-- The theorems on the queues, at queues of the concrete kernel.
use wbms.Prelude.{ℕ, ◌≡◌, refl, true, [], ◌∷◌, ◌++◌, replicate, ltb→lt}
use wbms.Types.{TxTokPkt, RxCvPkt}
use wbms.Kernel.Simulated.{World, boot, simulated, tx_msgq-IsMsgq, rx_msgq-IsMsgq}
use wbms.NetMgr.Queues.{search_rounds}
use wbms.NetMgr.Queues.Push.{rotate, push_all, push_all-first}
use wbms.NetMgr.Queues.Find.{any_answers, behind_answer, search_rounds_lem}

abbrev token_of : ℕ → TxTokPkt
token_of n = record { addr = 16; ts = 0; token = n; rx_cnt = 0 }

abbrev data_of : ℕ → RxCvPkt
data_of n = record { addr = 16; token = n; cells = []; pec = 0; ts = 0 }

abbrev full_rx : World
full_rx = record (boot) { rx = data_of 1 ∷ data_of 2 ∷ data_of 3 ∷ replicate 3 (data_of 4) }

abbrev three_tokens : World
three_tokens = record (boot) { tx = token_of 5 ∷ token_of 6 ∷ token_of 7 ∷ [] }

-- Eight packets for six places: the last two never get in.
push_all-first_example :
    (push_all simulated.rx_msgq
      (λ w. w.rx)
      6
      rx_msgq-IsMsgq
      ((data_of 1 ∷ data_of 2 ∷ replicate 4 (data_of 3)) ++ (data_of 8 ∷ data_of 9 ∷ []))
      boot).rx
    ≡ replicate 4 (data_of 3) ++ (data_of 1 ∷ data_of 2 ∷ [])
unfolding rotate
push_all-first_example =
    push_all-first simulated.rx_msgq (λ w. w.rx) 6 rx_msgq-IsMsgq
      (data_of 1 ∷ data_of 2 ∷ replicate 4 (data_of 3)) (data_of 8 ∷ data_of 9 ∷ []) boot refl refl
      (ltb→lt 0 6 refl)

search_rounds_lem_example :
    ((search_rounds simulated.tx_msgq 3 (data_of 6) three_tokens).0 ≡ true)
    × ((search_rounds simulated.tx_msgq 3 (data_of 6) three_tokens).1.tx ≡ token_of 7 ∷ [])
unfolding any_answers behind_answer
search_rounds_lem_example =
    search_rounds_lem simulated.tx_msgq (λ w. w.tx) 40 tx_msgq-IsMsgq (data_of 6) three_tokens.tx
      three_tokens refl
