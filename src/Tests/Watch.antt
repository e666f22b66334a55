-- ===== src/Tests/Watch.antt =====
-- The theorems on a node's wait for its address and on the presence check.
use wbms.Prelude.{ℕ, ◌≡◌, false, arith, none, List, [], ◌∷◌, ◌++◌, replicate}
use wbms.Types.{HgNetClient}
use wbms.Kernel.Simulated.{World}
use wbms.Bms.{Bms, done}
use wbms.Samples.{master, free_client}
use wbms.Diag.{presence_loop}
use wbms.App.Presence.{Aged, presence_loop-Aged}
use wbms.Cmb.Address.{Look, look, acquire, Over, Fails, fails_later, acquire-Over}

-- Two requests, and the address 17 in the third second.
abbrev looks : List Look
looks = look 0 1 false ∷ look 900 1 false ∷ look 2000 1 false ∷ look 2010 1 false ∷ []

taken : ¬ Fails (looks ++ (look 2900 17 false ∷ look 2910 17 false ∷ []))
taken (fails_later (fails_later (fails_later (fails_later (fails_later (fails_later f)))))) =
    elim f [ ]

acquire-Over_example :
    Over
      (acquire none 0 (looks ++ (look 2900 17 false ∷ look 2910 17 false ∷ [])))
      (looks ++ (look 2900 17 false ∷ look 2910 17 false ∷ []))
acquire-Over_example =
    acquire-Over none 0 2900 2910 17 17 false false looks (omega arith) (omega arith) taken

-- A node that was last heard at 100.
abbrev heard_at : ℕ → HgNetClient
heard_at t = record (free_client) {
  diag = record (free_client.diag) { last_received_ok = t; is_active = 1 };
}

abbrev watched : Bms World
watched = record (master 2) { client = heard_at 100 ∷ heard_at 6000 ∷ replicate 14 free_client }

presence_loop-Aged_example :
    (s' : Bms World) × (presence_loop 7000 2 0 watched ≡ done tt s') × Aged 7000 2 0 watched s'
presence_loop-Aged_example =
    presence_loop-Aged 7000 2 0 watched (omega arith) (omega arith) (omega arith)
