-- ===== src/Startup/Master.antt =====
-- The start of the master, from the wait for an update to the creation of its threads.
use wbms.Prelude.{
  ℕ, ◌+◌, ◌≤◌, ◌≡◌, ap, ◌∙◌, false, List, ◌∷◌, ◌++◌, length, arith, ◌==◌, if◌then◌else◌, sub_u32,
}
use wbms.Types.{Message}
use wbms.Kernel.{Kernel}
use wbms.Bms.{Bms, done, nodes_num}
use wbms.NetMgr.Clients.Series.{IsSeries}
use wbms.NetMgr.Latency.{init_config_st}
use wbms.Invariant.Events.{Event}
use wbms.App.{bms_init}
use wbms.App.Forming.{Asks, answered, init_state-IsSeries, handle_all-Series, forming-Series}
use wbms.Startup.{DetectRound, ran, master_up, main_bms}
use wbms.Startup.Update.{Silent, detect-Silent}

module _ {W : Type 0} ⦃k : Kernel W⦄ where
  -- The kernel at the end of the forming: the answers are sent, and if all have joined the time is read.
  abbrev pub formed : List ℕ → W → W
  formed ts w = if length ts == 16 then (k.uptime (answered 0 ts w)).1 else answered 0 ts w

  module _ (taken : (m : Message) (w : W) → (k.mesh_send m w).0 ≡ false) where
    master_up-Series :
        (fuel : ℕ) (es : List Event) (ts : List ℕ) (s : Bms W)
        → Asks es ts
        → length ts ≤ 16
        → length s.client ≡ 16
        → nodes_num s ≡ 16
        → s.hm.active ≡ 0
        → (s' : Bms W) × (master_up fuel es s ≡ done (length ts == 16) s')
          × IsSeries (length ts) s'
          × (s'.world ≡ formed ts s.world)
    unfolding master_up bms_init init_config_st
    master_up-Series fuel es ts s asks few clients nodes uncounted =
        let (s0, cleared, h0, w0) = init_state-IsSeries s clients nodes uncounted in
        let s1 = record s0 {
          config = record {
            pkt_size = 22;
            ok_to = 1000;
            cv_to = 1000;
            nodes_num = nodes_num s;
            cells_num = 16;
          };
        } in
        let h1 : IsSeries 0 s1 = record {
          clients = h0.clients;
          nodes = h0.nodes;
          active = h0.active;
          taken_up = h0.taken_up;
          empty = h0.empty;
        } in
        let (s2, all, h2, w2) = handle_all-Series taken fuel 0 es ts s1 asks (omega arith) h1 in
        let (s3, ending, h3, w3) = forming-Series (0 + length ts) s2 h2 in
        let none_more : 0 + length ts ≡ length ts = omega arith in
        (
          s3,
          rw (cleared, all) (rw none_more at ending),
          rw none_more at h3,
          (rw none_more at w3)
              ∙ ap (λ w. if length ts == 16 then (k.uptime w).1 else w)
                  (w2 ∙ ap (λ w. answered 0 ts w) w0),
        )

    -- After a wait for an update in which nothing comes, with tables of 16 entries, no node counted
    -- and a mesh that takes every message: `main` of the master answers up to 16 address requests of
    -- other nodes, with the codes of the requests and the addresses from BASE_ADDR on in order; the
    -- first entries hold these addresses and are PAIRED, the others stay free; and it goes on to its
    -- threads exactly when there were 16.
    pub main_bms-Series :
        (fuel s_time : ℕ) (ls rest : List DetectRound) (l : DetectRound) (buffer : List ℕ)
        (es : List Event) (ts : List ℕ) (s : Bms W)
        → Silent s_time buffer ls
        → 15000 ≤ sub_u32 l.now s_time
        → Asks es ts
        → length ts ≤ 16
        → length s.client ≡ 16
        → nodes_num s ≡ 16
        → s.hm.active ≡ 0
        → (s' : Bms W) × (main_bms fuel s_time (ls ++ l ∷ rest) buffer es s
            ≡ ran (done (length ts == 16) s'))
          × IsSeries (length ts) s'
          × (s'.world ≡ formed ts s.world)
    unfolding main_bms
    main_bms-Series fuel s_time ls rest l buffer es ts s silent late asks few clients nodes
          uncounted =
        let (s', up, h, w) = master_up-Series fuel es ts s asks few clients nodes uncounted in
        (s', rw (detect-Silent s_time ls rest l buffer silent late, main_bms) (ap ran up), h, w)
