-- ===== src/EditRun/Joins.antt =====
-- Joining runs, extending a run, and the visible length that the tree counts for a run.
use cola.Prelude.{
  ℕ, zero, suc, ◌+◌, ◌-◌, ◌*◌, ◌<◌, ◌≡◌, not, Bool, true, false, some, List, [], ◌∷◌, ◌++◌, IsU64,
  add, arith, ok,
}
use cola.Text
use cola.EditRun.{
  EditRun, replica_id, start, end, len, split, append, prepend, extend, with_range, visible_len,
  as_length,
}
use cola.EditRun.Cells.{Cell, cells_from, cells, cells_from_cut}

-- Splitting a run strictly inside gives two parts of lengths `o` and the rest, and appending the
-- second part to the first, or prepending the first to the second, gives the run back.
pub join-split :
    (r : EditRun) (o : ℕ)
    → Text.IsValid r.text
    → 0 < o
    → o < len r
    → (a b : EditRun) × (split r o ≡ (a, some b))
      × (len a ≡ o)
      × (len b + o ≡ len r)
      × (append a b ≡ ok r)
      × (prepend b a ≡ ok r)
unfolding split append prepend
join-split r o v h k = (
  with_range r (start r) (start r + o),
  with_range r (start r + o) (end r),
  ground (arith, v),
  ground (arith, v),
  ground (arith, v),
  ground (arith, v),
  ground (arith, v),
)

-- What a successful `append` says of its operands.
append-ok :
    (a b : EditRun) {c : EditRun}
    → append a b ≡ ok c
    → (c ≡ with_range a (start a) (end b))
      × (end a ≡ start b)
      × (replica_id a ≡ replica_id b)
      × (a.is_deleted ≡ b.is_deleted)
unfolding append
append-ok a b h = (ground arith, ground arith, ground arith, ground arith)

-- If one run of valid text can be appended to another, the result has the cells of both, in order.
pub cells-append :
    (a b : EditRun) {c : EditRun}
    → Text.IsValid a.text
    → Text.IsValid b.text
    → append a b ≡ ok c
    → cells c ≡ cells a ++ cells b
unfolding cells
cells-append a b v w h =
    let (e, f, g, d) = append-ok a b h in
    rw (e, ← f, ← g, ← d)
      (cells_from_cut _ _ (start a) (end a) (end b) v.ordered (omega (arith, w.ordered)))

-- How many cells are not deleted.
abbrev count_live : Bool → ℕ → ℕ
count_live true n = n
count_live false n = suc n

unfoldable pub live : List Cell → ℕ
live [] = 0
live (c ∷ l) = count_live c.deleted (live l)

live-cells_from : (id : ℕ) (d : Bool) (a n : ℕ) → live (cells_from id d a n) ≡ n * as_length (not d)
unfolding live cells_from
live-cells_from id d a zero = omega arith
live-cells_from id true a (suc n) = rw (live-cells_from id true (suc a) n) (omega arith)
live-cells_from id false a (suc n) = rw (live-cells_from id false (suc a) n) (omega arith)

-- The length that the tree counts for a run of valid text is the number of its cells that are not
-- deleted.
pub visible_len-eq-live : (r : EditRun) → Text.IsValid r.text → visible_len r ≡ live (cells r)
unfolding visible_len cells
visible_len-eq-live r v = rw live-cells_from (ground (arith, v))

-- Extending a run by `n`, where the clock does not pass 2 ^ 64, adds the next `n` cells at its end
-- and nothing else.
pub cells-extend :
    (r : EditRun) (n : ℕ)
    → Text.IsValid r.text
    → IsU64 (end r + n)
    → cells (extend r n) ≡ cells r ++ cells_from (replica_id r) r.is_deleted (end r) n
unfolding extend cells
cells-extend r n v h =
    let e : add (end r) n ≡ end r + n = omega arith in
    let f : end r + n - end r ≡ n = omega arith in
    rw (
      e,
      cells_from_cut (replica_id r) r.is_deleted (start r) (end r) (end r + n) v.ordered
          (omega arith),
      f,
    )
