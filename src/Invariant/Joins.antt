-- ===== src/Invariant/Joins.antt =====
-- Joining nodes keep the invariant.
use wbms.Prelude.{
  ℕ, zero, suc, ◌+◌, ◌≡◌, refl, none, some, get_elem?, Option-cases, Bool-cases, inl, inr, leb,
}
use wbms.Types.{inactive, paired, eq_node}
use wbms.Kernel.{Kernel}
use wbms.Bms.Post
use wbms.Bms.Post.{Post, at_done, at_halt, at_fault, Keeps}
use wbms.NetMgr.Clients.{
  Search, address, beyond, no_fuel, find_slot, find_addr, write_client, enter_client, assign_addr,
  new_client,
}
use wbms.Invariant.Consistent.{IsConsistent, same_tables, with_client}
use wbms.Invariant.Steps.{update_node_state-Keeps}

module _ {W : Type 0} {n : ℕ} where
  find_slot-Keeps : (r i : ℕ) → Keeps {W = W} (IsConsistent n) (find_slot r i)
  unfolding find_slot
  find_slot-Keeps zero i s h = at_done h
  find_slot-Keeps (suc r) i s h = elim (Option-cases (get_elem? s.system_state_log i)) [
    | inl gone ↦ rw (gone, find_slot) at_fault
    | inr (st, e) ↦ elim (Bool-cases (eq_node st.curr_node inactive)) [
      | inl free ↦
          rw (e, find_slot)
            (rw free (Post.bind (update_node_state-Keeps (i + 16) paired s h) λ _ s h. at_done h))
      | inr busy ↦ rw (e, find_slot) (rw busy (find_slot-Keeps r (i + 1) s h))
    ]
  ]

module _ {W : Type 0} ⦃k : Kernel W⦄ {n : ℕ} where
  write_client-Keeps : (i a t : ℕ) → Keeps {W = W} (IsConsistent n) (write_client i a t)
  unfolding write_client
  write_client-Keeps i a t s h = elim (Option-cases (get_elem? s.client i)) [
    | inl gone ↦ rw (gone, write_client) at_fault
    | inr (c, e) ↦ rw (e, write_client) (at_done (with_client h i c _ e refl))
  ]

  enter_client-Keeps : (i a : ℕ) → Keeps {W = W} (IsConsistent n) (enter_client i a)
  unfolding enter_client
  enter_client-Keeps i a s h =
      write_client-Keeps i a _ _ (same_tables h _ refl refl refl refl refl refl)

  assign_addr-Keeps : (i : ℕ) → Keeps {W = W} (IsConsistent n) (assign_addr i)
  unfolding assign_addr
  assign_addr-Keeps i s h = after (find_addr 3297 s.system_state_log s.client 0 16) refl
    where
      after :
          (r : Search)
          → find_addr 3297 s.system_state_log s.client 0 16 ≡ r
          → Post (IsConsistent n) (assign_addr i s)
      after no_fuel e = rw (e, assign_addr) at_fault
      after beyond e = rw (e, assign_addr) at_fault
      after (address a) e = elim (Bool-cases (leb 221 a)) [
        | inl full ↦ rw (e, assign_addr) (rw full (at_halt h))
        | inr room ↦ rw (e, assign_addr) (rw room (enter_client-Keeps i a s h))
      ]

  pub new_client-Keeps : Keeps {W = W} (IsConsistent n) new_client
  unfolding new_client
  new_client-Keeps s h =
      Post.bind (find_slot-Keeps 16 0 s h)
        (elim [ none ↦ λ s h. at_halt h | some i ↦ assign_addr-Keeps i ])
