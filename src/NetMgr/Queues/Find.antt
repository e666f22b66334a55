-- ===== src/NetMgr/Queues/Find.antt =====
-- What `message_dev_searchTX` finds, and what it leaves in the queue of sent tokens.
use wbms.Prelude.{
  ℕ, ◌≡◌, refl, Bool, false, ◌&&◌, ◌||◌, List, [], ◌∷◌, length, arith, ◌==◌, if◌then◌else◌,
}
use wbms.Types.{TxTokPkt, RxCvPkt}
use wbms.Kernel.{Msgq}
use wbms.Kernel.Laws.{IsMsgq}
use wbms.NetMgr.Queues.{search_rounds}

-- A token answers a data packet if both name the same token and the same node.
abbrev pub answers : RxCvPkt → TxTokPkt → Bool
answers rx t = t.token == rx.token && t.addr == rx.addr

unfoldable pub any_answers : RxCvPkt → List TxTokPkt → Bool
any_answers rx [] = false
any_answers rx (t ∷ ts) = answers rx t || any_answers rx ts

-- What stands behind the first token that answers; nothing if none does.
unfoldable pub behind_answer : RxCvPkt → List TxTokPkt → List TxTokPkt
behind_answer rx [] = []
behind_answer rx (t ∷ ts) = if answers rx t then ts else behind_answer rx ts

module _ {W : Type 0} (q : Msgq W TxTokPkt) (view : W → List TxTokPkt) (size : ℕ)
    (law : IsMsgq q view size) where
  -- The search, over as many rounds as the queue has packets, says whether a token answers; it
  -- takes off the queue every packet up to that token, and all of them if none answers.
  pub search_rounds_lem :
      (rx : RxCvPkt) (ts : List TxTokPkt) (w : W)
      → view w ≡ ts
      → ((search_rounds q (length ts) rx w).0 ≡ any_answers rx ts)
        × (view (search_rounds q (length ts) rx w).1 ≡ behind_answer rx ts)
  unfolding search_rounds any_answers behind_answer
  search_rounds_lem rx [] w e = (refl, e)
  search_rounds_lem rx (t ∷ ts) w e =
      let (got, left) = law.get_cons w t ts e in
      ground (arith, got, search_rounds_lem rx ts (q.get w).1 left)
