-- ===== src/NetMgr/Clients/Address/Near.antt =====
-- How far the search of an address in `mercury_netMgr_NewClient` of src/hg_netMgr.c goes: each clash
-- uses up one PAIRED entry, and there are 16.
use wbms.Prelude.{
  get_elem?, ℕ, zero, suc, ◌+◌, ◌≤◌, ◌<◌, ◌≡◌, inl, inr, refl, true, false, none, some, List, arith,
  leb, ltb, ltb→lt, ◌==◌, ==_iff, if◌then◌else◌, Bool-cases, Option-cases,
}
use wbms.Types.{BmsSt, HgNetClient, paired, eq_node}
use wbms.NetMgr.Clients.{address, Round, stop, again, out, taken, round, find_addr}
use wbms.NetMgr.Clients.Address.{address-injective}

module _ (log : List BmsSt) (client : List HgNetClient) where
  -- 1 for an entry that is PAIRED and has an address from `a` on.
  unfoldable pub from : ℕ → ℕ → ℕ
  from i a = elim (get_elem? log i) [
    | none ↦ 0
    | some st ↦ elim (eq_node st.curr_node paired) [
      | false ↦ 0
      | true ↦ elim (get_elem? client i) [ none ↦ 0 | some c ↦ if leb a c.addr then 1 else 0 ]
    ]
  ]

  -- The number of those entries below `k`.
  unfoldable pub count : ℕ → ℕ → ℕ
  count zero a = 0
  count (suc k) a = from k a + count k a

  from-one : (i a : ℕ) → from i a ≤ 1
  unfolding from
  from-one i a = ground arith

  from-suc : (i a : ℕ) → from i (a + 1) ≤ from i a
  unfolding from
  from-suc i a = ground arith

  from-taken : (i a : ℕ) → taken log client i a ≡ some true → from i (a + 1) < from i a
  unfolding from taken
  from-taken i a h = ground arith

  count-bound : (k a : ℕ) → count k a ≤ k
  unfolding count
  count-bound zero a = omega arith
  count-bound (suc k) a = let one = from-one k a in let rest = count-bound k a in omega arith

  -- Where none of them stands from entry `n` on there are at most `n`.
  pub count-front : (n k a : ℕ) → ((i : ℕ) → n ≤ i → i < k → from i a ≡ 0) → count k a ≤ n
  unfolding count
  count-front n zero a bare = omega arith
  count-front n (suc k) a bare = elim (Bool-cases (leb n k)) [
    | inl behind ↦
        let none_here = bare k (ground arith) (omega arith) in
        let rest = count-front n k a (λ i low high. bare i low (omega arith)) in omega arith
    | inr before ↦ let one = from-one k a in let rest = count-bound k a in ground arith
  ]

  count-suc : (k a : ℕ) → count k (a + 1) ≤ count k a
  unfolding count
  count-suc zero a = omega arith
  count-suc (suc k) a = let one = from-suc k a in let rest = count-suc k a in omega arith

  count-taken : (k i a : ℕ) → i < k → taken log client i a ≡ some true → count k (a + 1) < count k a
  unfolding count
  count-taken zero i a below h = absurd (omega arith)
  count-taken (suc k) i a below h = elim (Bool-cases (i == k)) [
    | inl same ↦
        let e : i ≡ k = (==_iff i k).0 same in
        let here : from k (a + 1) < from k a = rw e at (from-taken i a h) in
        let rest = count-suc k a in omega arith
    | inr other ↦
        let one = from-suc k a in let rest = count-taken k i a (ground arith) h in omega arith
  ]

  -- The address and the entries from there on, together.
  abbrev pub reach : ℕ → ℕ
  reach a = a + count 16 a

  abbrev Near : ℕ → Round → Type 0
  Near a (stop r) = r ≤ reach a
  Near a (again j b) = reach b ≤ reach a
  Near a out = Unit {0}

  round-Near : (i a : ℕ) → Near a (round log client i a)
  unfolding round
  round-Near i a = elim (Bool-cases (ltb i 16)) [
    | inr past ↦ rw past (omega arith)
    | inl below ↦ elim (Option-cases (taken log client i a)) [
      | inl gone ↦ rw (below, gone) tt
      | inr (true, e) ↦
          let less = count-taken 16 i a (ltb→lt i 16 below) e in
          rw (below, e)
            (elim (Bool-cases (leb 221 (a + 1))) [
              | inl full ↦ rw full (omega arith)
              | inr room ↦ rw room (omega arith)
            ])
      | inr (false, e) ↦
          rw (below, e)
            (elim (Bool-cases (leb 221 a)) [
              | inl full ↦ rw full (omega arith)
              | inr room ↦ rw room (omega arith)
            ])
    ]
  ]

  find_addr-reach_from :
      (f i a n : ℕ) (r : Round)
      → round log client i a ≡ r
      → Near a r
      → ((j b : ℕ) → find_addr f log client j b ≡ address n → n ≤ reach b)
      → find_addr (suc f) log client i a ≡ address n
      → n ≤ reach a
  unfolding find_addr
  find_addr-reach_from f i a n (stop r) e near ih found =
      let same : r ≡ n = address-injective (rw (e, find_addr) at found) in rw same at near
  find_addr-reach_from f i a n (again j b) e near ih found =
      let rest = ih j b (rw (e, find_addr) at found) in omega arith
  find_addr-reach_from f i a n out e near ih found = cc

  pub find_addr-reach : (f i a n : ℕ) → find_addr f log client i a ≡ address n → n ≤ reach a
  unfolding find_addr
  find_addr-reach zero i a n found = cc
  find_addr-reach (suc f) i a n found =
      find_addr-reach_from f i a n (round log client i a) refl (round-Near i a)
        (λ j b. find_addr-reach f j b n) found

  -- The address that the search yields is at most 16 above the one that it starts from.
  pub find_addr-near : (f i a n : ℕ) → find_addr f log client i a ≡ address n → n ≤ a + 16
  find_addr-near f i a n found =
      let far = find_addr-reach f i a n found in let few = count-bound 16 a in omega arith
