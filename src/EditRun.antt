-- ===== src/EditRun.antt =====
-- The runs of `src/run_tree.rs`: `EditRun`, its order, and the operations that split, join and
-- delete runs. A method on `&mut self` returns the changed run first.
pub mod Order
pub mod Cells
pub mod Deletes
pub mod Joins
use Prim.Native.Nat.{compare, Ordering}
use cola.Prelude.{
  ℕ, ◌≤◌, ◌<◌, ◌≡◌, Bool, true, false, Option, none, some, Result, ok, err, ltb, leb, ◌==◌, ◌&&◌,
  ◌||◌, not, if◌then◌else◌, IsU64, add, sub, mul,
}
use cola.Text
use cola.Text.{Text, Range}

pub record EditRun : Type 0 where
  pub text : Text
  pub run_ts : ℕ
  pub lamport_ts : ℕ
  pub is_deleted : Bool

abbrev pub replica_id : EditRun → ℕ
replica_id r = r.text.inserted_by

abbrev pub start : EditRun → ℕ
start r = r.text.range.start

abbrev pub end : EditRun → ℕ
end r = r.text.range.end

abbrev pub len : EditRun → ℕ
len r = Text.len r.text

-- `!self.is_deleted as Length`
abbrev pub as_length : Bool → ℕ
as_length true = 1
as_length false = 0

unfoldable pub visible_len : EditRun → ℕ
visible_len r = mul (len r) (as_length (not r.is_deleted))

abbrev pub new : Text → ℕ → ℕ → Bool → EditRun
new t run_ts lamport_ts is_deleted = record {
  text = t;
  run_ts = run_ts;
  lamport_ts = lamport_ts;
  is_deleted = is_deleted;
}

abbrev pub new_visible : Text → ℕ → ℕ → EditRun
new_visible t run_ts lamport_ts = new t run_ts lamport_ts false

abbrev pub with_range : EditRun → ℕ → ℕ → EditRun
with_range r a b = record r { text = record (r.text) { range = record { start = a; end = b } } }

unfoldable pub extend : EditRun → ℕ → EditRun
extend r extend_by = with_range r (start r) (add (end r) extend_by)

abbrev pub delete : EditRun → EditRun
delete r = record r { is_deleted = true }

-- `Ordering::reverse` and `Ordering::then`
abbrev pub reverse : Ordering → Ordering
reverse Ordering.lt = Ordering.gt
reverse Ordering.eq = Ordering.eq
reverse Ordering.gt = Ordering.lt

abbrev pub then_order : Ordering → Ordering → Ordering
then_order Ordering.lt o = Ordering.lt
then_order Ordering.eq o = o
then_order Ordering.gt o = Ordering.gt

unfoldable pub cmp : EditRun → EditRun → Ordering
cmp a b =
    then_order (reverse (compare a.lamport_ts b.lamport_ts)) (compare (replica_id a) (replica_id b))

-- `a.is_deleted == b.is_deleted`
abbrev pub same_bool : Bool → Bool → Bool
same_bool true b = b
same_bool false b = not b

unfoldable pub can_append : EditRun → EditRun → Bool
can_append a b =
    end a == start b
    && (replica_id a == replica_id b
        && (a.lamport_ts == b.lamport_ts
            && (a.run_ts == b.run_ts && same_bool a.is_deleted b.is_deleted)))

unfoldable pub can_prepend : EditRun → EditRun → Bool
can_prepend a b =
    start a == end b
    && (replica_id a == replica_id b
        && (a.lamport_ts == b.lamport_ts
            && (a.run_ts == b.run_ts && same_bool a.is_deleted b.is_deleted)))

-- `Join::append` and `Join::prepend`: the other run comes back if the two cannot be joined.
unfoldable pub append : EditRun → EditRun → Result EditRun EditRun
unfolding can_append
append a b = if can_append a b then ok (with_range a (start a) (end b)) else err b

unfoldable pub prepend : EditRun → EditRun → Result EditRun EditRun
unfolding can_prepend
prepend a b = if can_prepend a b then ok (with_range a (start b) (end a)) else err b

unfoldable pub split : EditRun → ℕ → EditRun × Option EditRun
split r at_offset = if at_offset == len r || at_offset == 0 then (r, none) else (
  with_range r (start r) (add (start r) at_offset),
  some (with_range r (add (start r) at_offset) (end r)),
)

-- `let mut del = self.split(offset)?; del.delete(); Some(del)`
abbrev delete_second : EditRun × Option EditRun → EditRun × Option EditRun
delete_second (r, none) = (r, none)
delete_second (r, some del) = (r, some (delete del))

unfoldable pub delete_from : EditRun → ℕ → EditRun × Option EditRun
unfolding split
delete_from r offset =
    if offset == 0
    then (delete r, none)
    else if ltb offset (len r)
    then delete_second (split r offset)
    else (r, none)

-- `let rest = self.split(offset); self.delete(); rest`
abbrev delete_first : EditRun × Option EditRun → EditRun × Option EditRun
delete_first (r, rest) = (delete r, rest)

unfoldable pub delete_up_to : EditRun → ℕ → EditRun × Option EditRun
unfolding split
delete_up_to r offset =
    if offset == 0
    then (r, none)
    else if ltb offset (len r)
    then delete_first (split r offset)
    else (delete r, none)

abbrev with_none : EditRun × Option EditRun → EditRun × Option EditRun × Option EditRun
with_none (r, o) = (r, o, none)

-- The last branch: what `split(end)` left in `self` is split again.
abbrev with_rest :
    EditRun × Option EditRun → Option EditRun → EditRun × Option EditRun × Option EditRun
with_rest (r, deleted) rest = (r, deleted, rest)

abbrev split_again : EditRun × Option EditRun → ℕ → EditRun × Option EditRun × Option EditRun
split_again (r, rest) from = with_rest (delete_second (split r from)) rest

unfoldable pub delete_range : EditRun → Range → EditRun × Option EditRun × Option EditRun
unfolding split delete_from delete_up_to
delete_range r range =
    if range.start == range.end
    then (r, none, none)
    else if range.start == 0
    then with_none (delete_up_to r range.end)
    else if leb (len r) range.end
    then with_none (delete_from r range.start)
    else split_again (split r range.end) range.start
