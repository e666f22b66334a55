-- ===== src/Cmb/Address.antt =====
-- A node's wait for its address, `mercury_acquire_nodeAddress` of src/app_slave.c. The address is written
-- by a handler meanwhile: the code looks at the clock and at the address in turn, and the model is given
-- what it sees. Where that ends it is still waiting.
use wbms.Prelude.{
  ℕ, ◌+◌, ◌≡◌, ◌≢◌, refl, true, false, Bool, ◌⊎◌, Option, none, some, List, [], ◌∷◌, ◌++◌, ltb,
  ◌==◌, if◌then◌else◌, sub_u32, arith, Bool-cases, inl, inr,
}

-- What is seen in one look: the clock, `mercury_mesh_getMeshAddr`, and whether the mesh fails to take an
-- address request that is sent then.
pub data Look : Type 0 where
  look : ℕ → ℕ → Bool → Look

-- How it goes on: with an address, after so many requests that were sent; stopped for ever by
-- `mercury_led_fatal(3)` in `mercury_mesh_requestAddress`; or still waiting.
pub data Wait : Type 0 where
  acquired : ℕ → ℕ → Wait
  stopped : ℕ → Wait
  waiting : ℕ → Wait

-- Both loops, with the number of requests: `none` at the condition of the outer loop, and in the inner
-- loop the time `t0` at which it started. NODE_CMB_DEFADDR is 1. What a request is, and that a failure is
-- fatal, is `request_address` of Cmb/Node.antt.
unfoldable pub acquire : Option ℕ → ℕ → List Look → Wait
acquire t0 requests [] = waiting requests
acquire none requests (look now addr fails ∷ looks) =
    let rest = acquire (some now) (requests + 1) looks in
    if addr == 1 then (if fails then stopped requests else rest) else acquired addr requests
acquire (some t0) requests (look now addr fails ∷ looks) =
    let again = acquire (some t0) requests looks in
    let over = acquire none requests looks in
    if ltb (sub_u32 now t0) 2000
    then (if addr == 1 then again else acquired addr requests)
    else over

-- The wait is over with an address that was seen, and that is not the one that the node starts with.
pub data Seen (a : ℕ) : List Look → Type 0 where
  seen_here : {now : ℕ} {fails : Bool} {looks : List Look} → Seen a (look now a fails ∷ looks)
  seen_later : {l : Look} {looks : List Look} → Seen a looks → Seen a (l ∷ looks)

abbrev pub Over : Wait → List Look → Type 0
Over w looks = (a : ℕ) × (m : ℕ) × (w ≡ acquired a m) × (a ≢ 1) × Seen a looks

-- The wait is stopped, at a look at which the node has no address and the mesh would fail.
pub data Fails : List Look → Type 0 where
  fails_here : {now : ℕ} {looks : List Look} → Fails (look now 1 true ∷ looks)
  fails_later : {l : Look} {looks : List Look} → Fails looks → Fails (l ∷ looks)

abbrev pub Stopped : Wait → List Look → Type 0
Stopped w looks = (m : ℕ) × (w ≡ stopped m) × Fails looks

abbrev pub Ended : Wait → List Look → Type 0
Ended w looks = Over w looks ⊎ Stopped w looks

Ended-later : {w : Wait} {l : Look} {looks : List Look} → Ended w looks → Ended w (l ∷ looks)
Ended-later (inl (a, m, e, other, seen)) = inl (a, m, e, other, seen_later seen)
Ended-later (inr (m, e, fails)) = inr (m, e, fails_later fails)

outer-Ended :
    (n now a : ℕ) (fails : Bool) (looks : List Look)
    → a ≢ 1
    → Ended (acquire none n (look now a fails ∷ looks)) (look now a fails ∷ looks)
unfolding acquire
outer-Ended n now a fails looks h =
    let other : (a == 1) ≡ false = ground arith in inl (a, n, rw other refl, h, seen_here)

inner-Ended :
    (t0 n now a : ℕ) (fails : Bool) (looks : List Look)
    → a ≢ 1
    → Ended (acquire none n looks) looks
    → Ended (acquire (some t0) n (look now a fails ∷ looks)) (look now a fails ∷ looks)
unfolding acquire
inner-Ended t0 n now a fails looks h next =
    let other : (a == 1) ≡ false = ground arith in
    elim (Bool-cases (ltb (sub_u32 now t0) 2000)) [
      | inl early ↦ rw (early, other) (inl (a, n, refl, h, seen_here))
      | inr late ↦ rw late (Ended-later next)
    ]

-- At a look without an address a request is sent: it stops the node, or the wait goes on.
requested-Ended :
    (n now a : ℕ) (fails : Bool) (looks : List Look)
    → a ≡ 1
    → Ended (acquire (some now) (n + 1) looks) looks
    → Ended (acquire none n (look now a fails ∷ looks)) (look now a fails ∷ looks)
unfolding acquire
requested-Ended n now a true looks same next = rw same (inr (n, refl, fails_here))
requested-Ended n now a false looks same next = rw same (Ended-later next)

-- Whatever was seen before, the wait has ended as soon as two looks in turn see an address that the node
-- does not start with: the first of them can be the one at which the two seconds of a request are over,
-- which leaves the address to the second. It has ended with an address that was seen, and that is not the
-- one that the node starts with; or in `mercury_led_fatal`, and then there was a look at which the node
-- had no address and the mesh would not take a request.
pub acquire-Ended :
    (t0 : Option ℕ) (n x y a b : ℕ) (f g : Bool) (looks : List Look)
    → a ≢ 1
    → b ≢ 1
    → Ended
        (acquire t0 n (looks ++ (look x a f ∷ look y b g ∷ [])))
        (looks ++ (look x a f ∷ look y b g ∷ []))
unfolding acquire
acquire-Ended none n x y a b f g [] h i = outer-Ended n x a f (look y b g ∷ []) h
acquire-Ended (some t0) n x y a b f g [] h i =
    inner-Ended t0 n x a f (look y b g ∷ []) h (outer-Ended n y b g [] i)
acquire-Ended none n x y a b f g (look now addr fails ∷ looks) h i = elim (Bool-cases (addr == 1)) [
  | inl same ↦
      requested-Ended n now addr fails (looks ++ (look x a f ∷ look y b g ∷ [])) (ground arith)
        (acquire-Ended (some now) (n + 1) x y a b f g looks h i)
  | inr other ↦
      outer-Ended n now addr fails (looks ++ (look x a f ∷ look y b g ∷ [])) (ground arith)
]
acquire-Ended (some t0) n x y a b f g (look now addr fails ∷ looks) h i =
    let next = acquire-Ended none n x y a b f g looks h i in
    elim (Bool-cases (addr == 1)) [
      | inr other ↦
          inner-Ended t0 n now addr fails (looks ++ (look x a f ∷ look y b g ∷ [])) (ground arith)
            next
      | inl same ↦ elim (Bool-cases (ltb (sub_u32 now t0) 2000)) [
        | inl early ↦
            rw (early, same) (Ended-later (acquire-Ended (some t0) n x y a b f g looks h i))
        | inr late ↦ rw late (Ended-later next)
      ]
    ]

takes-Over : {w : Wait} {looks : List Look} → Ended w looks → ¬ Fails looks → Over w looks
takes-Over (inl over) takes = over
takes-Over (inr (m, e, fails)) takes = absurd (takes fails)

-- Whatever was seen before, the wait of a node for its address ends as soon as two looks in turn see an
-- address other than NODE_CMB_DEFADDR, with an address that was seen and is not that one, if the mesh
-- takes the requests: at no look at which the node has no address would it fail.
pub acquire-Over :
    (t0 : Option ℕ) (n x y a b : ℕ) (f g : Bool) (looks : List Look)
    → a ≢ 1
    → b ≢ 1
    → ¬ Fails (looks ++ (look x a f ∷ look y b g ∷ []))
    → Over
        (acquire t0 n (looks ++ (look x a f ∷ look y b g ∷ [])))
        (looks ++ (look x a f ∷ look y b g ∷ []))
acquire-Over t0 n x y a b f g looks h i takes =
    takes-Over (acquire-Ended t0 n x y a b f g looks h i) takes
