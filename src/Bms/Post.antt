-- ===== src/Bms/Post.antt =====
-- A property of the state that a run ends in, whether normally or in `mercury_led_fatal`.
use wbms.Prelude.{ℕ}
use wbms.Bms.{Bms, Run, done, halted, fault, no_fuel, Cmd, and_then}

pub data Post {W A : Type 0} (P : Bms W → Type 0) : Run W A → Type 0 where
  at_done : {a : A} {s : Bms W} → P s → Post P (done a s)
  at_halt : {n : ℕ} {s : Bms W} → P s → Post P (halted n s)
  at_fault : Post P fault
  at_no_fuel : Post P no_fuel

module _ {W A : Type 0} {P : Bms W → Type 0} where
  pub bind :
      {B : Type 0} {r : Run W A} {k : A → Cmd W B}
      → Post P r
      → ((a : A) (s : Bms W) → P s → Post P (k a s))
      → Post P (and_then r k)
  bind (at_done p) next = next _ _ p
  bind (at_halt p) next = at_halt p
  bind at_fault next = at_fault
  bind at_no_fuel next = at_no_fuel

  -- What holds at a normal end.
  pub at_end : {a : A} {s : Bms W} → Post P (done a s) → P s
  at_end (at_done p) = p

-- A command that keeps a property.
abbrev pub Keeps : {W A : Type 0} → (Bms W → Type 0) → Cmd W A → Type 0
Keeps {W} P m = (s : Bms W) → P s → Post P (m s)
