-- ===== src/App/Presence.antt =====
-- What the presence check does to the nodes.
use wbms.Prelude.{
  ℕ, zero, suc, ◌+◌, ◌%◌, ◌<◌, ◌≤◌, ◌≡◌, ◌≢◌, ◌⊎◌, refl, sym, ap, ◌∙◌, Bool, ◌&&◌, Option, none,
  some, List, get_elem?, get_elem?-some, get_elem?-set_self, get_elem?-set_ne, set, length,
  length-set, ltb, ◌==◌, if◌then◌else◌, sub_u32, dec_u8, eq_of_some, arith, Bool-cases, inl, inr,
}
use wbms.Types.{inactive, BmsSt, HgNetClient}
use wbms.Bms.{Bms, done}
use wbms.NetMgr.States.{node_idx, update_node_state}
use wbms.Diag.{drop_node, presence_entry, presence_loop}

-- An active node whose last OK is older than CMB_MSG_TIMEOUT.
abbrev pub silent : ℕ → HgNetClient → Bool
silent now c = ltb 5000 (sub_u32 now c.diag.last_received_ok) && c.diag.is_active == 1

abbrev pub aged : ℕ → HgNetClient → HgNetClient
aged now c = if silent now c then record c { diag = record (c.diag) { is_active = 0 } } else c

abbrev pub left : ℕ → HgNetClient → BmsSt → BmsSt
left now c st =
    if silent now c then record st { prev_node = st.curr_node; curr_node = inactive } else st

-- How many of the `r` nodes from the index `i` on are such.
abbrev pub gone : ℕ → Option HgNetClient → ℕ
gone now o = elim o [ none ↦ 0 | some c ↦ if silent now c then 1 else 0 ]

unfoldable pub lost : ℕ → List HgNetClient → ℕ → ℕ → ℕ
lost now clients i zero = 0
lost now clients i (suc r) = gone now (get_elem? clients i) + lost now clients (i + 1) r

lost-same :
    (now : ℕ) (xs ys : List HgNetClient) (r i : ℕ)
    → ((j : ℕ) → i ≤ j → get_elem? xs j ≡ get_elem? ys j)
    → lost now xs i r ≡ lost now ys i r
unfolding lost
lost-same now xs ys zero i same = refl
lost-same now xs ys (suc r) i same =
    rw (same i (omega arith), lost-same now xs ys r (i + 1) (λ j h. same j (omega arith))) refl

-- Nothing but the clients, the states of the nodes and the number of active nodes is changed.
abbrev pub Within : {W : Type 0} → Bms W → Bms W → Type 0
Within s s' = s' ≡ record s {
  client = s'.client;
  system_state_log = s'.system_state_log;
  hm = record (s.hm) { active = s'.hm.active };
}

Within-trans : {W : Type 0} (a b c : Bms W) → Within a b → Within b c → Within a c
Within-trans {W} a b c first second =
    second
    ∙ ap {A = Bms W} {B = Bms W}
        (λ s. record s {
          client = c.client;
          system_state_log = c.system_state_log;
          hm = record (s.hm) { active = c.hm.active };
        })
        first

node_idx-node : (i : ℕ) → i < 240 → node_idx (i + 16) ≡ i
unfolding node_idx
node_idx-node i h = omega arith

module _ {W : Type 0} (now : ℕ) where
  -- What one round leaves.
  record Rounded (i : ℕ) (s : Bms W) : Type 0 where
    final : Bms W
    ends : presence_entry now i s ≡ done tt final
    within : Within s final
    own :
        (c : HgNetClient)
        → get_elem? s.client i ≡ some c
        → get_elem? final.client i ≡ some (aged now c)
    own_state :
        (c : HgNetClient) (st : BmsSt)
        → get_elem? s.client i ≡ some c
        → get_elem? s.system_state_log i ≡ some st
        → get_elem? final.system_state_log i ≡ some (left now c st)
    others : (j : ℕ) → i ≢ j → get_elem? final.client j ≡ get_elem? s.client j
    other_states :
        (j : ℕ) → i ≢ j → get_elem? final.system_state_log j ≡ get_elem? s.system_state_log j
    active : (final.hm.active + gone now (get_elem? s.client i)) % 256 ≡ s.hm.active % 256
    clients : length final.client ≡ length s.client
    entries : length final.system_state_log ≡ length s.system_state_log

  presence_entry-Rounded :
      (i : ℕ) (s : Bms W)
      → i < length s.client
      → i < length s.system_state_log
      → i < 240
      → Rounded i s
  unfolding presence_entry drop_node update_node_state
  presence_entry-Rounded i s a b small =
      let (c, e) = get_elem?-some s.client i a in
      let (st, g) = get_elem?-some s.system_state_log i b in
      let idx = node_idx-node i small in
      elim (Bool-cases (silent now c)) [
        | inl quiet ↦
            let st' = record st { prev_node = st.curr_node; curr_node = inactive } in
            let d = record c { diag = record (c.diag) { is_active = 0 } } in
            record {
              final = record s {
                system_state_log = set s.system_state_log i st';
                client = set s.client i d;
                hm = record (s.hm) { active = dec_u8 s.hm.active };
              };
              ends = ground (arith, e, g, idx, quiet);
              within = refl;
              own = λ c' e'.
                  let same : c ≡ c' = eq_of_some (sym e ∙ e') in
                  rw (sym same, quiet) (get_elem?-set_self s.client i d a);
              own_state = λ c' u e' f.
                  let same : c ≡ c' = eq_of_some (sym e ∙ e') in
                  let here : st ≡ u = eq_of_some (sym g ∙ f) in
                  rw (sym same, sym here, quiet) (get_elem?-set_self s.system_state_log i st' b);
              others = λ j h. get_elem?-set_ne s.client i j d h;
              other_states = λ j h. get_elem?-set_ne s.system_state_log i j st' h;
              active = rw (e, quiet) (omega arith);
              clients = length-set s.client i d;
              entries = length-set s.system_state_log i st';
            }
        | inr heard ↦ record {
          final = s;
          ends = ground (arith, e, heard);
          within = refl;
          own = λ c' e'. let same : c ≡ c' = eq_of_some (sym e ∙ e') in rw (sym same, heard) e;
          own_state =
              λ c' u e' f. let same : c ≡ c' = eq_of_some (sym e ∙ e') in rw (sym same, heard) f;
          others = λ j h. refl;
          other_states = λ j h. refl;
          active = rw (e, heard) (omega arith);
          clients = refl;
          entries = refl;
        }
      ]

  -- What the loop leaves of the nodes from the index `i` to `i + r`, and of the others.
  pub record Aged (r i : ℕ) (s s' : Bms W) : Type 0 where
    pub within : Within s s'
    pub client_aged :
        (j : ℕ) (c : HgNetClient)
        → i ≤ j
        → j < i + r
        → get_elem? s.client j ≡ some c
        → get_elem? s'.client j ≡ some (aged now c)
    pub state_left :
        (j : ℕ) (c : HgNetClient) (st : BmsSt)
        → i ≤ j
        → j < i + r
        → get_elem? s.client j ≡ some c
        → get_elem? s.system_state_log j ≡ some st
        → get_elem? s'.system_state_log j ≡ some (left now c st)
    pub same_client : (j : ℕ) → (j < i) ⊎ (i + r ≤ j) → get_elem? s'.client j ≡ get_elem? s.client j
    pub same_state :
        (j : ℕ)
        → (j < i) ⊎ (i + r ≤ j)
        → get_elem? s'.system_state_log j ≡ get_elem? s.system_state_log j
    pub active : (s'.hm.active + lost now s.client i r) % 256 ≡ s.hm.active % 256

  -- The loop of the presence check ends when the tables have its entries. Of its nodes, exactly those that
  -- are active and have sent no OK for more than CMB_MSG_TIMEOUT ms are marked as not active, and become
  -- INACTIVE; everything else in the clients and in the states of the nodes, and those of all other nodes,
  -- stay. The number of active nodes falls by as many, modulo 256, and nothing else of the master is
  -- changed.
  pub presence_loop-Aged :
      (r i : ℕ) (s : Bms W)
      → i + r ≤ length s.client
      → i + r ≤ length s.system_state_log
      → i + r ≤ 240
      → (s' : Bms W) × (presence_loop now r i s ≡ done tt s') × Aged r i s s'
  unfolding presence_loop lost
  presence_loop-Aged zero i s a b small = (
    s,
    refl,
    record {
      within = refl;
      client_aged = λ j c low high e. absurd (omega arith);
      state_left = λ j c st low high e f. absurd (omega arith);
      same_client = λ j out. refl;
      same_state = λ j out. refl;
      active = omega arith;
    },
  )
  presence_loop-Aged (suc r) i s a b small =
      let one = presence_entry-Rounded i s (omega arith) (omega arith) (omega arith) in
      let (s', runs, rest) =
        presence_loop-Aged r (i + 1) one.final (omega (arith, one.clients))
          (omega (arith, one.entries)) (omega arith) in
      let later : lost now one.final.client (i + 1) r ≡ lost now s.client (i + 1) r =
        lost-same now one.final.client s.client r (i + 1) (λ j h. one.others j (omega arith)) in
      (
        s',
        ground (arith, one.ends, runs),
        record {
          within = Within-trans s one.final s' one.within rest.within;
          client_aged = λ j c low high e. elim (Bool-cases (j == i)) [
            | inl here ↦
                let same : j ≡ i = ground arith in
                rest.same_client j (inl (omega arith))
                ∙ ap (λ n. get_elem? one.final.client n) same
                ∙ one.own c (ap (λ n. get_elem? s.client n) (sym same) ∙ e)
            | inr after ↦
                let other : i ≢ j = ground arith in
                rest.client_aged j c (ground arith) (omega arith) (one.others j other ∙ e)
          ];
          state_left = λ j c st low high e f. elim (Bool-cases (j == i)) [
            | inl here ↦
                let same : j ≡ i = ground arith in
                rest.same_state j (inl (omega arith))
                ∙ ap (λ n. get_elem? one.final.system_state_log n) same
                ∙ one.own_state c st (ap (λ n. get_elem? s.client n) (sym same) ∙ e)
                    (ap (λ n. get_elem? s.system_state_log n) (sym same) ∙ f)
            | inr after ↦
                let other : i ≢ j = ground arith in
                rest.state_left j c st (ground arith) (omega arith) (one.others j other ∙ e)
                  (one.other_states j other ∙ f)
          ];
          same_client = λ j out. rest.same_client j (ground arith) ∙ one.others j (ground arith);
          same_state =
              λ j out. rest.same_state j (ground arith) ∙ one.other_states j (ground arith);
          active = omega (arith, one.active, rest.active, later);
        },
      )
