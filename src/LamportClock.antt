-- ===== src/LamportClock.antt =====
-- `LamportClock` of src/replica.rs. A method on `&mut self` returns the result and the changed
-- clock.
use cola.Prelude.{ℕ, ◌-◌, ◌^◌, ◌≤◌, ◌<◌, ◌≡◌, leb, if◌then◌else◌, add, saturating_sub, arith}

pub record LamportClock : Type 0 where
  pub value : ℕ

abbrev pub new : LamportClock
new = record { value = 0 }

unfoldable pub highest : LamportClock → ℕ
highest c = saturating_sub c.value 1

unfoldable pub merge : LamportClock → ℕ → LamportClock
merge c remote_ts = if leb c.value remote_ts then record { value = add remote_ts 1 } else c

unfoldable pub next : LamportClock → ℕ × LamportClock
next c = (c.value, record { value = add c.value 1 })

-- For a clock and a remote timestamp below the largest ones: once the timestamp is merged, the next
-- local one is above it, it is no smaller than the clock was, it is then the highest one, and the
-- one given after it is above it.
pub next-merge :
    (c : LamportClock) (ts : ℕ)
    → c.value < 2 ^ 64 - 1
    → ts < 2 ^ 64 - 2
    → (ts < (next (merge c ts)).0)
      × (c.value ≤ (next (merge c ts)).0)
      × (highest (next (merge c ts)).1 ≡ (next (merge c ts)).0)
      × ((next (merge c ts)).0 < (next (next (merge c ts)).1).0)
unfolding next merge highest
next-merge c ts h k = (ground arith, ground arith, ground arith, ground arith)
