-- ===== src/App/Forming.antt =====
-- The network forms: `mercury_netMgr_InitState`, the address requests of the nodes, and the wait of
-- `mercury_mesh_forming` of src/hg_netMgr.c for as many nodes as there are entries.
use wbms.Prelude.{
  ℕ, suc, ◌+◌, ◌≤◌, ◌<◌, ◌≡◌, ◌≢◌, refl, ◌∙◌, ap, false, some, List, [], ◌∷◌, length, length-map,
  get_elem?-some, arith, ◌==◌, if◌then◌else◌, Bool-cases, inl, inr,
}
use wbms.Types.{Message, addr_rp, le32, le16}
use wbms.Kernel.{Kernel}
use wbms.Bms.{Bms, done, nodes_num}
use wbms.NetMgr.Clients.{init_state, clear_client, clear_state}
use wbms.NetMgr.Clients.Init.{init_state-map}
use wbms.NetMgr.Clients.Series.{IsSeries, new_client-next}
use wbms.Mesh.Nodes.{client_addr}
use wbms.Mesh.Send.{message, transmit, send_address}
use wbms.Mesh.Handlers.{token_code, addr_rq_handler}
use wbms.Invariant.Consistent.{get_elem?-map}
use wbms.Invariant.Events.{Event, addr_rq_received, handle, handle_all}
use wbms.App.{forming}

-- Address requests from other nodes, with the codes that they bring.
pub data Asks : List Event → List ℕ → Type 0 where
  asks_nil : Asks [] []
  asks_cons :
      {sender t : ℕ} {buf : List ℕ} {es : List Event} {ts : List ℕ}
      → sender ≢ 224
      → token_code buf ≡ some t
      → Asks es ts
      → Asks (addr_rq_received sender buf ∷ es) (t ∷ ts)

module _ {W : Type 0} where
  -- After `mercury_netMgr_InitState`, as no node has been counted, none has joined.
  pub init_state-IsSeries :
      (s : Bms W)
      → length s.client ≡ 16
      → nodes_num s ≡ 16
      → s.hm.active ≡ 0
      → (s' : Bms W) × (init_state s ≡ done tt s') × IsSeries 0 s' × (s'.world ≡ s.world)
  init_state-IsSeries s clients nodes uncounted = (
    _,
    init_state-map s clients nodes,
    record {
      clients = length-map clear_client s.client ∙ clients;
      nodes = length-map clear_state s.system_state_log ∙ nodes;
      active = uncounted;
      taken_up = λ i below. absurd (omega arith);
      empty = λ i low high.
          let (st, e) = get_elem?-some s.system_state_log i (omega arith) in
          let (c, d) = get_elem?-some s.client i (omega arith) in
          record {
            st = clear_state st;
            of_log = get_elem?-map clear_state s.system_state_log i st e;
            is_node = refl;
            c = clear_client c;
            of_client = get_elem?-map clear_client s.client i c d;
            is_addr = refl;
          };
    },
    refl,
  )

module _ {W : Type 0} ⦃k : Kernel W⦄ where
  -- The kernel when `k` nodes have joined and the next requests, with the codes `ts`, are answered: each
  -- answer repeats the code and gives the next address.
  unfoldable pub answered : ℕ → List ℕ → W → W
  answered i [] w = w
  answered i (t ∷ ts) w =
      answered (suc i) ts
        (k.mesh_send (message addr_rp 1 (le32 t ∷ le16 (16 + i) ∷ [])) (k.uptime w).1).1

  -- The wait is over exactly when there are 16, and keeps the tables.
  pub forming-Series :
      (n : ℕ) (s : Bms W)
      → IsSeries n s
      → (s' : Bms W) × (forming s ≡ done (n == 16) s')
        × IsSeries n s'
        × (s'.world ≡ (if n == 16 then (k.uptime s.world).1 else s.world))
  unfolding forming
  forming-Series n s h =
      let (t, w) = k.uptime s.world in
      elim (Bool-cases (n == 16)) [
        | inl all ↦ (
          record s { session = record (s.session) { startup_ts = t }; world = w },
          rw (h.active, h.nodes, all) refl,
          record {
            clients = h.clients;
            nodes = h.nodes;
            active = h.active;
            taken_up = h.taken_up;
            empty = h.empty;
          },
          rw all refl,
        )
        | inr some_left ↦ (s, rw (h.active, h.nodes, some_left) refl, h, rw some_left refl)
      ]

  module _ (taken : (m : Message) (w : W) → (k.mesh_send m w).0 ≡ false) where
    addr_rq_handler-next :
        (i sender t : ℕ) (buf : List ℕ) (s : Bms W)
        → sender ≢ 224
        → token_code buf ≡ some t
        → i < 16
        → IsSeries i s
        → (s' : Bms W) × (addr_rq_handler sender buf s ≡ done tt s')
          × IsSeries (suc i) s'
          × (s'.world
              ≡ (k.mesh_send
                  (message addr_rp 1 (le32 t ∷ le16 (16 + i) ∷ []))
                  (k.uptime s.world).1).1)
    unfolding addr_rq_handler client_addr send_address transmit
    addr_rq_handler-next i sender t buf s foreign code room h =
        let (s', joined, h', moved) = new_client-next s h room in
        let e = h'.taken_up i (omega arith) in
        let other : (sender == 224) ≡ false = ground arith in
        let reply = message addr_rp 1 (le32 t ∷ le16 (16 + i) ∷ []) in
        (
          record s' { world = (k.mesh_send reply s'.world).1 },
          rw (other, code, joined)
              (rw (e.of_client, client_addr)
                (rw (e.is_addr, transmit) (rw (taken reply s'.world) refl))),
          record {
            clients = h'.clients;
            nodes = h'.nodes;
            active = h'.active;
            taken_up = h'.taken_up;
            empty = h'.empty;
          },
          ap (λ w. (k.mesh_send reply w).1) moved,
        )

    pub handle_all-Series :
        (fuel i : ℕ) (es : List Event) (ts : List ℕ) (s : Bms W)
        → Asks es ts
        → i + length ts ≤ 16
        → IsSeries i s
        → (s' : Bms W) × (handle_all fuel es s ≡ done tt s')
          × IsSeries (i + length ts) s'
          × (s'.world ≡ answered i ts s.world)
    unfolding handle_all handle answered
    handle_all-Series fuel i [] [] s asks_nil few h =
        let same : i + 0 ≡ i = omega arith in (s, refl, rw same h, refl)
    handle_all-Series fuel i [] (t ∷ ts) s asks few h = elim asks [ ]
    handle_all-Series fuel i (e ∷ es) [] s asks few h = elim asks [ ]
    handle_all-Series fuel i (e ∷ es) (t ∷ ts) s (asks_cons {sender} {buf = buf} foreign code asks)
          few h =
        let (s1, once, h1, w1) =
          addr_rq_handler-next i sender t buf s foreign code (omega arith) h in
        let (s2, rest, h2, w2) = handle_all-Series fuel (suc i) es ts s1 asks (omega arith) h1 in
        let count : i + suc (length ts) ≡ suc i + length ts = omega arith in
        (s2, rw once rest, rw count h2, w2 ∙ ap (λ w. answered (suc i) ts w) w1)
