-- ===== src/NetMgr/Clients/Init.antt =====
-- `mercury_netMgr_InitState` of src/hg_netMgr.c, with the 16 entries that its loop assumes and with
-- fewer.
use wbms.Prelude.{
  get_elem?-middle, set-middle, snoc-append, length-snoc, ℕ, zero, suc, ◌+◌, ◌≤◌, ◌<◌, ◌≡◌, refl,
  List, [], ◌∷◌, ◌++◌, length, get_elem?, set, some, arith, length-set, lt_of_get_elem?,
  Option-cases, inl, inr, map,
}
use wbms.Types.{startup_nodata, BmsSt, HgNetClient}
use wbms.Bms.{Bms, done, fault, update_at, nodes_num}
use wbms.NetMgr.Clients.{clear_client, clear_state, init_entry, init_loop, init_state}

module _ {A : Type 0} where
  update_at-middle :
      (xs : List A) (a : A) (ys : List A) (f : A → A)
      → update_at (xs ++ a ∷ ys) (length xs) f ≡ some (xs ++ f a ∷ ys)
  update_at-middle xs a ys f = ground (arith, get_elem?-middle xs a ys, set-middle xs a (f a) ys)

module _ {W : Type 0} where
  -- The state with other tables.
  abbrev tables : Bms W → List HgNetClient → List BmsSt → Bms W
  tables s cs l = record s { client = cs; system_state_log = l }

  init_entry-middle :
      (s : Bms W) (cs cs' : List HgNetClient) (c : HgNetClient) (ls ls' : List BmsSt) (st : BmsSt)
      (i : ℕ)
      → length cs ≡ i
      → length ls ≡ i
      → init_entry i (tables s (cs ++ c ∷ cs') (ls ++ st ∷ ls'))
        ≡ done tt (tables s (cs ++ clear_client c ∷ cs') (ls ++ clear_state st ∷ ls'))
  unfolding init_entry
  init_entry-middle s cs cs' c ls ls' st i e d =
      ground (arith, update_at-middle cs c cs' clear_client, update_at-middle ls st ls' clear_state)

  init_loop-map :
      (n i : ℕ) (s : Bms W) (cs cs' : List HgNetClient) (ls ls' : List BmsSt)
      → length cs ≡ i
      → length ls ≡ i
      → length cs' ≡ n
      → length ls' ≡ n
      → init_loop n i (tables s (cs ++ cs') (ls ++ ls'))
        ≡ done tt (tables s (cs ++ map clear_client cs') (ls ++ map clear_state ls'))
  unfolding init_loop
  init_loop-map zero i s cs [] ls [] a b c d = refl
  init_loop-map zero i s cs (x ∷ xs) ls ls' a b c d = absurd (omega arith)
  init_loop-map zero i s cs [] ls (x ∷ xs) a b c d = absurd (omega arith)
  init_loop-map (suc n) i s cs [] ls ls' a b c d = absurd (omega arith)
  init_loop-map (suc n) i s cs (x ∷ xs) ls [] a b c d = absurd (omega arith)
  init_loop-map (suc n) i s cs (x ∷ xs) ls (y ∷ ys) a b c d =
      rw (init_entry-middle s cs xs x ls ys y i a b) (
        rw (snoc-append cs (clear_client x) xs, snoc-append ls (clear_state y) ys)
          (rw
            (
              snoc-append cs (clear_client x) (map clear_client xs),
              snoc-append ls (clear_state y) (map clear_state ys),
            )
            (init_loop-map n (i + 1) s (cs ++ clear_client x ∷ []) xs (ls ++ clear_state y ∷ []) ys
              (omega (arith, length-snoc cs (clear_client x)))
              (omega (arith, length-snoc ls (clear_state y))) (omega arith) (omega arith))))

  -- With 16 entries in both tables `mercury_netMgr_InitState` makes every node INACTIVE, without an
  -- address and without a last packet, puts the system into STARTUP_NODATA, and changes nothing
  -- else.
  pub init_state-map :
      (s : Bms W)
      → length s.client ≡ 16
      → nodes_num s ≡ 16
      → init_state s
        ≡ done tt (record s {
          hm = record (s.hm) { curr_sys = startup_nodata };
          client = map clear_client s.client;
          system_state_log = map clear_state s.system_state_log;
        })
  unfolding init_state
  init_state-map s c d =
      init_loop-map 16 0 (record s { hm = record (s.hm) { curr_sys = startup_nodata } }) [] s.client
        [] s.system_state_log refl refl c d

  init_loop-fault :
      (n i : ℕ) (s : Bms W) → i ≤ nodes_num s → nodes_num s < i + n → init_loop n i s ≡ fault
  unfolding init_loop init_entry
  init_loop-fault zero i s low high = absurd (omega arith)
  init_loop-fault (suc n) i s low high = elim (Option-cases (get_elem? s.client i)) [
    | inl gone ↦ ground arith
    | inr (c, e) ↦ elim (Option-cases (get_elem? s.system_state_log i)) [
      | inl gone ↦ ground arith
      | inr (st, d) ↦
          let s' =
            tables s (set s.client i (clear_client c))
              (set s.system_state_log i (clear_state st)) in
          let same : nodes_num s' ≡ nodes_num s =
            length-set s.system_state_log i (clear_state st) in
          let inside : i < nodes_num s = lt_of_get_elem? s.system_state_log i d in
          ground (arith, init_loop-fault n (i + 1) s' (omega arith) (omega arith))
    ]
  ]

  -- With fewer than 16 nodes, as NODES_NUM = 1 and its comment have it, `mercury_netMgr_InitState`
  -- writes beyond the end of `systemStateLog`.
  pub init_state-fault : (s : Bms W) → nodes_num s < 16 → init_state s ≡ fault
  unfolding init_state
  init_state-fault s h =
      init_loop-fault 16 0 (record s { hm = record (s.hm) { curr_sys = startup_nodata } })
        (omega arith) h
