-- ===== src/Examples/Runs.antt =====
-- Runs and clocks.
use Prim.Native.Nat.{Ordering}
use cola.Prelude.{ℕ, ◌+◌, ◌<◌, ◌≤◌, ◌≡◌, ◌↔◌, refl, false, some, ok, arith}
use cola.Text
use cola.EditRun.{EditRun, replica_id, start, end, len, split, append, prepend, cmp, delete_range}
use cola.EditRun.Order.{cmp_iff, Before}
use cola.EditRun.Cells.{cells, mark}
use cola.EditRun.Deletes.{pieces, pieces3, pieces-split, pieces-delete_range}
use cola.EditRun.Joins.{join-split}
use cola.LamportClock.{LamportClock, next, merge, highest, next-merge}

abbrev run : ℕ → ℕ → EditRun
run start end = record {
  text = record { inserted_by = 1; range = record { start = start; end = end } };
  run_ts = 0;
  lamport_ts = start;
  is_deleted = false;
}

run-IsValid : Text.IsValid (run 2 9).text
run-IsValid = record { id_fits = omega arith; ordered = omega arith; end_fits = omega arith }

next_run-IsValid : Text.IsValid (run 9 11).text
next_run-IsValid = record { id_fits = omega arith; ordered = omega arith; end_fits = omega arith }

pieces-split_example : pieces (split (run 2 9) 3) ≡ cells (run 2 9)
pieces-split_example = pieces-split (run 2 9) run-IsValid 3 (omega arith)

pieces-delete_range_example :
    pieces3 (delete_range (run 2 9) (record { start = 2; end = 5 })) ≡ mark 2 3 (cells (run 2 9))
pieces-delete_range_example =
    pieces-delete_range (run 2 9) run-IsValid 2 5 (omega arith) (omega arith)

join-split_example :
    (a b : EditRun) × (split (run 2 9) 3 ≡ (a, some b))
    × (len a ≡ 3)
    × (len b + 3 ≡ len (run 2 9))
    × (append a b ≡ ok (run 2 9))
    × (prepend b a ≡ ok (run 2 9))
join-split_example = join-split (run 2 9) 3 run-IsValid (omega arith) (omega arith)

joined : append (run 2 9) (record (run 9 11) { lamport_ts = 2 }) ≡ ok (run 2 11)
unfolding append
joined = refl

cmp_iff_example :
    ((cmp (run 2 9) (run 9 11) ≡ Ordering.lt) ↔ Before (run 2 9) (run 9 11))
    × ((cmp (run 2 9) (run 9 11) ≡ Ordering.eq)
        ↔ ((run 2 9).lamport_ts ≡ (run 9 11).lamport_ts)
          × (replica_id (run 2 9) ≡ replica_id (run 9 11)))
cmp_iff_example = cmp_iff (run 2 9) (run 9 11)

clock : LamportClock
clock = record { value = 6 }

six : clock.value ≡ 6
unfolding clock
six = refl

next-merge_example :
    (9 < (next (merge clock 9)).0)
    × (clock.value ≤ (next (merge clock 9)).0)
    × (highest (next (merge clock 9)).1 ≡ (next (merge clock 9)).0)
    × ((next (merge clock 9)).0 < (next (next (merge clock 9)).1).0)
next-merge_example = next-merge clock 9 (omega (arith, six)) (omega arith)
