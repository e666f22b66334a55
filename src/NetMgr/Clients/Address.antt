-- ===== src/NetMgr/Clients/Address.antt =====
-- The search of an address in `mercury_netMgr_NewClient` of src/hg_netMgr.c: its end, and the addresses
-- that it avoids.
use wbms.Prelude.{
  ℕ, zero, suc, ◌+◌, ◌-◌, ◌*◌, ◌≤◌, ◌<◌, ◌≡◌, ◌≢◌, inl, inr, refl, Bool, true, false, some, List,
  length, arith, leb, ltb, ltb→lt, ◌==◌, ==_iff, if◌then◌else◌, Bool-cases, Option-cases,
  get_elem?-some,
}
pub mod Near
use wbms.Types.{BmsSt, HgNetClient, paired, eq_node}
use wbms.NetMgr.Clients.{address, Round, stop, again, out, taken, round, find_addr}

-- Entry `i` is PAIRED and has the address `a`.
abbrev pub Clash : List BmsSt → List HgNetClient → ℕ → ℕ → Type 0
Clash log client i a = taken log client i a ≡ some true

pub address-injective : {m n : ℕ} → address m ≡ address n → m ≡ n
address-injective h = ground arith

-- What is left of the loop, in rounds.
abbrev pub rounds_left : ℕ → ℕ → ℕ
rounds_left i a = (221 - a) * 16 + (16 - i)

abbrev Progress : ℕ → ℕ → Round → Type 0
Progress i a (stop r) = (a ≤ r) × (r ≤ 221)
Progress i a (again j b) = (a ≤ b) × (b < 221) × (rounds_left j b < rounds_left i a)
Progress i a out = ⊥

module _ (log : List BmsSt) (client : List HgNetClient) where
  taken-some :
      (i a : ℕ) → i < length log → i < length client → (b : Bool) × (taken log client i a ≡ some b)
  unfolding taken
  taken-some i a h g =
      let (st, e) = get_elem?-some log i h in
      let (c, d) = get_elem?-some client i g in
      elim (Bool-cases (eq_node st.curr_node paired)) [
        | inl p ↦ (c.addr == a, ground arith)
        | inr p ↦ (false, ground arith)
      ]

  module _ (big_log : 16 ≤ length log) (big_client : 16 ≤ length client) where
    round-Progress : (i a : ℕ) → a < 221 → Progress i a (round log client i a)
    unfolding round
    round-Progress i a h = elim (Bool-cases (ltb i 16)) [
      | inr past ↦ rw past (omega arith)
      | inl below ↦
          let i16 : i < 16 = ltb→lt i 16 below in
          let (b, e) = taken-some i a (omega arith) (omega arith) in ground arith
    ]

    find_addr_from :
        (f i a : ℕ) (r : Round)
        → round log client i a ≡ r
        → Progress i a r
        → rounds_left i a < suc f
        → ((j b : ℕ)
            → b < 221
            → rounds_left j b < f
            → (n : ℕ) × (find_addr f log client j b ≡ address n) × (b ≤ n) × (n ≤ 221))
        → (n : ℕ) × (find_addr (suc f) log client i a ≡ address n) × (a ≤ n) × (n ≤ 221)
    unfolding find_addr
    find_addr_from f i a (stop r) e p fuel ih = (r, rw (e, find_addr), p.0, p.1)
    find_addr_from f i a (again j b) e p fuel ih =
        let (n, found, low, high) = ih j b p.1 (omega arith) in
        (n, rw (e, find_addr) found, omega arith, high)
    find_addr_from f i a out e p fuel ih = absurd p

    -- With at least 16 entries in both tables the loop ends: from an address below MAX_ADDR, with
    -- the fuel that its measure asks for, it yields an address from there to MAX_ADDR, and neither
    -- runs out of fuel nor leaves the arrays.
    pub find_addr_ends :
        (f i a : ℕ)
        → a < 221
        → rounds_left i a < f
        → (n : ℕ) × (find_addr f log client i a ≡ address n) × (a ≤ n) × (n ≤ 221)
    find_addr_ends zero i a h fuel = absurd (omega arith)
    find_addr_ends (suc f) i a h fuel =
        find_addr_from f i a (round log client i a) refl (round-Progress i a h) fuel
          (find_addr_ends f)

  -- No entry from 1 to below `i` is PAIRED with the address `a`.
  abbrev pub Cleared : ℕ → ℕ → Type 0
  Cleared i a = (j : ℕ) → 1 ≤ j → j < i → taken log client j a ≢ some true

  -- What a round establishes about the addresses of the entries that it has passed.
  abbrev Clears : Round → Type 0
  Clears (stop r) = r < 221 → Cleared 16 r
  Clears (again j b) = Cleared j b
  Clears out = Unit {0}

  round-Clears : (i a : ℕ) → a < 221 → Cleared i a → Clears (round log client i a)
  unfolding round
  round-Clears i a h cleared = elim (Bool-cases (ltb i 16)) [
    | inr past ↦ rw past (λ low j one below. cleared j one (ground arith))
    | inl below ↦ elim (Option-cases (taken log client i a)) [
      | inl gone ↦ rw (below, gone) tt
      | inr (clash, e) ↦ rw (below, e) (after clash e)
    ]
  ]
    where
      after :
          (clash : Bool)
          → taken log client i a ≡ some clash
          → Clears (
              if clash
              then (if leb 221 (a + 1) then stop (a + 1) else again 1 (a + 1))
              else if leb 221 a
              then stop a
              else again (i + 1) a)
      after true e = elim (Bool-cases (leb 221 (a + 1))) [
        | inl full ↦ rw full (λ low. absurd (ground arith))
        | inr room ↦ rw room (λ j one below. absurd (omega arith))
      ]
      after false e =
          let room : leb 221 a ≡ false = ground arith in
          rw room (λ j one below. elim (Bool-cases (j == i)) [
            | inl same ↦ rw ((==_iff j i).0 same) (λ c. ground arith)
            | inr other ↦ cleared j one (ground arith)
          ])

  -- The loop goes on only with addresses below MAX_ADDR.
  abbrev Low : Round → Type 0
  Low (again j b) = b < 221
  Low _ = Unit {0}

  round-Low : (i a : ℕ) → a < 221 → Low (round log client i a)
  unfolding round
  round-Low i a h = ground arith

  find_addr-Clears_from :
      (f i a n : ℕ) (r : Round)
      → round log client i a ≡ r
      → Clears r
      → ((j b : ℕ)
          → b < 221
          → Cleared j b
          → find_addr f log client j b ≡ address n
          → n < 221
          → Cleared 16 n)
      → Low r
      → find_addr (suc f) log client i a ≡ address n
      → n < 221
      → Cleared 16 n
  unfolding find_addr
  find_addr-Clears_from f i a n (stop r) e c ih g found low =
      let same : r ≡ n = address-injective (rw (e, find_addr) at found) in rw same at c low
  find_addr-Clears_from f i a n (again j b) e c ih g found low =
      ih j b g c (rw (e, find_addr) at found) low
  find_addr-Clears_from f i a n out e c ih g found low = cc

  -- The address that the search yields, when it is below MAX_ADDR, is that of no PAIRED entry from
  -- 1 on. (Entry 0 is not looked at again after a clash.)
  pub find_addr_fresh :
      (f i a n : ℕ)
      → a < 221
      → Cleared i a
      → find_addr f log client i a ≡ address n
      → n < 221
      → Cleared 16 n
  unfolding find_addr
  find_addr_fresh zero i a n h c found low = cc
  find_addr_fresh (suc f) i a n h c found low =
      find_addr-Clears_from f i a n (round log client i a) refl (round-Clears i a h c)
        (λ j b g d. find_addr_fresh f j b n g d) (round-Low i a h) found low

  -- An address that no entry from `i` on clashes with is the one found.
  pub find_addr_free :
      (f i a : ℕ)
      → a < 221
      → i ≤ 16
      → 16 < i + f
      → ((j : ℕ) → i ≤ j → j < 16 → taken log client j a ≡ some false)
      → find_addr f log client i a ≡ address a
  unfolding find_addr round
  find_addr_free zero i a h low fuel free = absurd (omega arith)
  find_addr_free (suc f) i a h low fuel free = elim (Bool-cases (ltb i 16)) [
    | inr past ↦ ground arith
    | inl below ↦
        let i16 : i < 16 = ltb→lt i 16 below in
        ground (
          arith,
          free i (omega arith) i16,
          find_addr_free f (i + 1) a h (omega arith) (omega arith)
              (λ j above under. free j (omega arith) under),
        )
  ]
