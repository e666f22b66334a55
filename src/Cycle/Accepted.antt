-- ===== src/Cycle/Accepted.antt =====
-- What an accepted OK or data packet is in the abstract machine: the last packet of its node, and an
-- entry in a FIFO.
use wbms.Prelude.{
  ℕ, ◌≡◌, refl, ap, ◌∙◌, true, false, Bool, List, [], ◌∷◌, ◌++◌, map, if◌then◌else◌, arith,
}
use wbms.Types.{PktS, rx_ok, tx_token, rx_data, FifoData}
use wbms.Kernel.{Kernel}
use wbms.Bms.{Bms, pure}
use wbms.NetMgr.States.Protocol.{Follows, reply}
use wbms.Mesh.Info.{update_data_info, update_ok_info, take_ok, take_data}
use wbms.Mesh.Handlers.{put_copy}
use wbms.Total.Ready.{Views, IsReliable}
use wbms.Cycle
use wbms.Cycle.{
  Point, addr_of, Last, after, ok_in, data_in, Sends, Step, ok_more, ok_last, data_taken, Steps,
  steps_nil, steps_cons, IsAt, Sees, sees_done, sees_fault, sees_no_fuel, Moves, same-IsAt,
  world-IsAt,
}
use wbms.Cycle.Frames.{write_last_ok-Frame, take_ok-Frame, take_data-Frame}
use wbms.Cycle.Tokens.{states_update-Sees}

map-snoc :
    {A B : Type 0} (f : A → B) (l : List A) (a : A) → map f (l ++ (a ∷ [])) ≡ map f l ++ (f a ∷ [])
map-snoc f [] a = refl
map-snoc f (x ∷ xs) a = ap (λ l. f x ∷ l) (map-snoc f xs a)

module _ {W : Type 0} ⦃k : Kernel W⦄ {v : Views W} (law : IsReliable k v) where
  pub update_ok_info-Sees :
      (buf : List ℕ) (a : ℕ) (p : PktS) (x : Point) (s : Bms W)
      → Last x.packets a p
      → Follows p rx_ok
      → IsAt v x s
      → Sees (λ err s'. (err ≡ false) × IsAt v (after x a rx_ok) s') (update_ok_info buf a s)
  unfolding update_ok_info
  update_ok_info-Sees buf a p x s last f h =
      Cycle.bind (states_update-Sees v a rx_ok p x s last f h) λ err s (right, h).
        Cycle.bind
          (write_last_ok-Frame v a _ (after x a rx_ok) _ (world-IsAt h _ (law.by_uptime s.world)))
          λ _ s h. Cycle.bind (taken err right s h) λ _ s h. sees_done (right, h)
    where
      taken :
          (err : Bool)
          → err ≡ false
          → Moves {W = W} v
              (after x a rx_ok)
              (after x a rx_ok)
              (if err then pure tt else take_ok buf a)
      taken true right s h = absurd (ground (arith, right))
      taken false right s h = take_ok-Frame law buf a (after x a rx_ok) s h

  pub update_data_info-Sees :
      (buf : List ℕ) (a : ℕ) (x : Point) (s : Bms W)
      → Last x.packets a tx_token
      → IsAt v x s
      → Sees (λ err s'. (err ≡ false) × IsAt v (after x a rx_data) s') (update_data_info buf a s)
  unfolding update_data_info
  update_data_info-Sees buf a x s last h =
      Cycle.bind (states_update-Sees v a rx_data tx_token x s last reply h)
        λ err s (right, h). Cycle.bind (taken err right s h) λ _ s h. sees_done (right, h)
    where
      taken :
          (err : Bool)
          → err ≡ false
          → Moves {W = W} v
              (after x a rx_data)
              (after x a rx_data)
              (if err then pure tt else take_data buf a)
      taken true right s h = absurd (ground (arith, right))
      taken false right s h = take_data-Frame law buf a (after x a rx_data) s h

  pub put_addr-Moves :
      (d : FifoData) (x : Point)
      → Moves {W = W} v x
          (record x { waiting = x.waiting ++ (d.addr ∷ []) })
          (put_copy k.addr_fifo d)
  unfolding put_copy
  put_addr-Moves d x s h =
      let w = (k.malloc s.world).1 in
      let h' = world-IsAt h w (law.by_malloc s.world) in
      rw (law.memory s.world, put_copy)
        (sees_done (record {
          at_packets = h'.at_packets;
          at_waiting =
              ap (λ l. map addr_of l) (law.addr_law.put_back w d)
              ∙ map-snoc addr_of (v.addrs w) d
              ∙ ap (λ l. l ++ (d.addr ∷ [])) h'.at_waiting;
          at_given = rw (law.addr_put w d).0 h'.at_given;
          at_counted = h'.at_counted;
          at_active = h'.at_active;
          at_sys = h'.at_sys;
        }))

  pub put_data-Moves :
      (d : FifoData) (x : Point)
      → Moves {W = W} v x
          (record x { given = x.given ++ (d.addr ∷ []) })
          (put_copy k.data_addr_fifo d)
  unfolding put_copy
  put_data-Moves d x s h =
      let w = (k.malloc s.world).1 in
      let h' = world-IsAt h w (law.by_malloc s.world) in
      rw (law.memory s.world, put_copy)
        (sees_done (record {
          at_packets = h'.at_packets;
          at_waiting = rw (law.data_put w d).0 h'.at_waiting;
          at_given =
              ap (λ l. map addr_of l) (law.data_law.put_back w d)
              ∙ map-snoc addr_of (v.datas w) d
              ∙ ap (λ l. l ++ (d.addr ∷ [])) h'.at_given;
          at_counted = h'.at_counted;
          at_active = h'.at_active;
          at_sys = h'.at_sys;
        }))
