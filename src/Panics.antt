-- ===== src/Panics.antt =====
-- How a call may panic (`panic_messages` of src/utils.rs, and the `unwrap`s that can fail), and the
-- bounds of a range argument (src/utils.rs).
use cola.Prelude.{ℕ, add}

pub data Panic : Type 0 where
  offset_out_of_bounds : ℕ → ℕ → Panic
  replica_id_equal_to_forked replica_id_is_zero : Panic
  start_greater_than_end : ℕ → ℕ → Panic
  -- `unwrap_err` in the backlog, on an edit that is there already
  already_backlogged : Panic
  -- an `unwrap` inside the run tree
  in_run_tree : Panic
  -- an index beyond a slice, and `unreachable!`
  index_out_of_bounds unreachable : Panic
  -- an `unwrap` or `expect` on `None`
  none_unwrapped : Panic
  -- a loop that is not over after as many rounds as the model gives it
  out_of_rounds : Panic

-- `core::ops::Bound<Length>`
pub data Bound : Type 0 where
  included excluded : ℕ → Bound
  unbounded : Bound

abbrev start_of : Bound → ℕ → ℕ
start_of (included n) lo = n
start_of (excluded n) lo = add n 1
start_of unbounded lo = lo

abbrev end_of : Bound → ℕ → ℕ
end_of (included n) hi = add n 1
end_of (excluded n) hi = n
end_of unbounded hi = hi

unfoldable pub range_bounds_to_start_end : Bound × Bound → ℕ → ℕ → ℕ × ℕ
range_bounds_to_start_end (s, e) lo hi = (start_of s lo, end_of e hi)
