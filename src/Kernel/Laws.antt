-- ===== src/Kernel/Laws.antt =====
-- Documented behaviour of Zephyr's message queues and FIFOs, against a view of what they hold.
use wbms.Prelude.{ℕ, ◌<◌, ◌≤◌, ◌≡◌, false, true, none, some, List, [], ◌∷◌, ◌++◌, length}
use wbms.Kernel.{Msgq, Fifo}

-- A message queue of `cap` entries whose contents are `view`: first in, first out, and a `put` on
-- a full queue fails and changes nothing.
pub record IsMsgq {W A : Type 0} (q : Msgq W A) (view : W → List A) (cap : ℕ) : Type 0 where
  pub used : (w : W) → q.num_used w ≡ length (view w)
  pub get_nil : (w : W) → view w ≡ [] → ((q.get w).0 ≡ none) × (view (q.get w).1 ≡ [])
  pub get_cons :
      (w : W) (x : A) (xs : List A)
      → view w ≡ x ∷ xs
      → ((q.get w).0 ≡ some x) × (view (q.get w).1 ≡ xs)
  pub put_room :
      (w : W) (a : A)
      → length (view w) < cap
      → ((q.put a w).0 ≡ false) × (view (q.put a w).1 ≡ view w ++ (a ∷ []))
  pub put_full :
      (w : W) (a : A)
      → cap ≤ length (view w)
      → ((q.put a w).0 ≡ true) × (view (q.put a w).1 ≡ view w)

-- A FIFO of unbounded length whose contents are `view`.
pub record IsFifo {W A : Type 0} (q : Fifo W A) (view : W → List A) : Type 0 where
  pub empty_nil : (w : W) → view w ≡ [] → q.is_empty w ≡ true
  pub empty_cons : (w : W) (x : A) (xs : List A) → view w ≡ x ∷ xs → q.is_empty w ≡ false
  pub get_cons :
      (w : W) (x : A) (xs : List A)
      → view w ≡ x ∷ xs
      → ((q.get w).0 ≡ some x) × (view (q.get w).1 ≡ xs)
  pub put_back : (w : W) (a : A) → view (q.put a w) ≡ view w ++ (a ∷ [])
