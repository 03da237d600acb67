-- ===== src/RunClock.antt =====
-- `RunClock` of src/replica.rs.
use cola.Prelude.{ℕ, add, saturating_sub}

pub record RunClock : Type 0 where
  pub value : ℕ

abbrev pub new : RunClock
new = record { value = 0 }

unfoldable pub last : RunClock → ℕ
last c = saturating_sub c.value 1

unfoldable pub next : RunClock → ℕ × RunClock
next c = (c.value, record { value = add c.value 1 })
