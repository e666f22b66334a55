-- ===== src/NetMgr/Queues/Push.antt =====
-- What a push leaves in a queue.
use mathlib.Core.List.{append_assoc, append-nil}
use wbms.Prelude.{
  zero, suc, sym, refl, ◌+◌, ◌≤◌, ◌∙◌, length-append, ℕ, ◌≡◌, ◌<◌, ap, List, [], ◌∷◌, ◌++◌, length,
  arith,
}
use wbms.Kernel.{Msgq}
use wbms.Kernel.Laws.{IsMsgq}
use wbms.NetMgr.Queues.{push}

-- The list turned by `n` places.
unfoldable pub rotate : {A : Type 0} → ℕ → List A → List A
rotate zero l = l
rotate (suc n) [] = []
rotate (suc n) (x ∷ xs) = rotate n (xs ++ (x ∷ []))

module _ {W A : Type 0} (q : Msgq W A) (view : W → List A) (size : ℕ)
    (law : IsMsgq q view size) where
  -- With room in the queue the packet is appended.
  pub push_room :
      (m : A) (w : W) → length (view w) < size → view (push q size m w) ≡ view w ++ (m ∷ [])
  unfolding push
  push_room m w h = ground (arith, law.used w, law.put_room w m)

  -- On a full queue the new packet is lost: the oldest one is moved to the end, and the queue
  -- holds what it held.
  pub push_full :
      (m x : A) (xs : List A) (w : W)
      → view w ≡ x ∷ xs
      → length (view w) ≡ size
      → view (push q size m w) ≡ xs ++ (x ∷ [])
  unfolding push
  push_full m x xs w e h = ground (
    arith,
    law.used w,
    law.get_cons w x xs e,
    law.put_room (q.get w).1 x,
    ap (λ (l : List A). length l) e,
    ap (λ (l : List A). length l) (law.get_cons w x xs e).1,
  )

  -- The pushes of a sequence of packets.
  pub push_all : List A → W → W
  push_all [] w = w
  push_all (m ∷ ms) w = push_all ms (push q size m w)

  push_all-rotate :
      (ms l : List A) (w : W)
      → view w ≡ l
      → length l ≡ size
      → 0 < size
      → view (push_all ms w) ≡ rotate (length ms) l
  unfolding push_all rotate
  push_all-rotate [] l w e h some_room = e
  push_all-rotate (m ∷ ms) [] w e h some_room = absurd (omega arith)
  push_all-rotate (m ∷ ms) (x ∷ xs) w e h some_room =
      let turned : view (push q size m w) ≡ xs ++ (x ∷ []) =
        push_full m x xs w e (ap (λ (l : List A). length l) e ∙ h) in
      push_all-rotate ms (xs ++ (x ∷ [])) (push q size m w) turned
        (omega (arith, length-append xs (x ∷ []))) some_room

  push_all-append : (xs ys : List A) (w : W) → push_all (xs ++ ys) w ≡ push_all ys (push_all xs w)
  unfolding push_all
  push_all-append [] ys w = refl
  push_all-append (x ∷ xs) ys w = push_all-append xs ys (push q size x w)

  push_all-room :
      (ms : List A) (w : W)
      → length (view w) + length ms ≤ size
      → view (push_all ms w) ≡ view w ++ ms
  unfolding push_all
  push_all-room [] w h = sym (append-nil (view w))
  push_all-room (m ∷ ms) w h =
      let put : view (push q size m w) ≡ view w ++ (m ∷ []) = push_room m w (omega arith) in
      let grown : length (view (push q size m w)) ≡ length (view w) + 1 =
        ap (λ (l : List A). length l) put ∙ length-append (view w) (m ∷ []) in
      push_all-room ms (push q size m w) (omega arith)
      ∙ ap (λ l. l ++ ms) put
      ∙ append_assoc (view w) (m ∷ []) ms

  -- An empty queue takes the first packets of a sequence, `xs`, until it is full. No packet gets in
  -- any more after that: each further one, of `ys`, only turns what the queue holds by one place.
  pub push_all-first :
      (xs ys : List A) (w : W)
      → view w ≡ []
      → length xs ≡ size
      → 0 < size
      → view (push_all (xs ++ ys) w) ≡ rotate (length ys) xs
  push_all-first xs ys w empty e some_room =
      let none_in : length (view w) ≡ 0 = ap (λ (l : List A). length l) empty in
      let filled : view (push_all xs w) ≡ xs =
        push_all-room xs w (omega arith) ∙ ap (λ l. l ++ xs) empty in
      ap view (push_all-append xs ys w) ∙ push_all-rotate ys xs (push_all xs w) filled e some_room
