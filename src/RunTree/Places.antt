-- ===== src/RunTree/Places.antt =====
-- Where a remote run belongs among the leaves behind its anchor (the loops of `merge_insertion` and
-- `insert_run_at_zero`, src/run_tree.rs).
use cola.Prelude.{
  ℕ, zero, suc, Bool, true, false, none, some, List, [], ◌∷◌, Result, ok, err, ◌>>=◌, length,
  if◌then◌else◌,
}
use Prim.Native.Nat.{Ordering}
use cola.Panics.{Panic, out_of_rounds, none_unwrapped}
use cola.Insertion.{Insertion}
use cola.EditRun
use cola.EditRun.{EditRun}
use cola.Fragments.Tree.{unwrap}
use cola.Gtree.{Gtree, leaf}
use cola.Gtree.Iter.{LeavesFrom, leaves_from, leaves_from_first, next}

abbrev pub from_insertion : Insertion → EditRun
from_insertion i = record {
  text = i.text;
  run_ts = i.run_ts;
  lamport_ts = i.lamport_ts;
  is_deleted = false;
}

abbrev pub is_gt : Ordering → Bool
is_gt Ordering.gt = true
is_gt Ordering.eq = false
is_gt Ordering.lt = false

abbrev pub is_lt : Ordering → Bool
is_lt Ordering.lt = true
is_lt Ordering.eq = false
is_lt Ordering.gt = false

-- The last of the leaves in front of the first one that the run is not greater than.
unfoldable pub last_smaller : Gtree EditRun → EditRun → ℕ → ℕ → LeavesFrom → Result Panic ℕ
unfolding next EditRun.cmp
last_smaller g run prev_idx zero it = err out_of_rounds
last_smaller g run prev_idx (suc k) it = do
  found ← next g it
  elim found [
    | none ↦ ok prev_idx
    | some ((idx, sibling), it') ↦
        let rest = last_smaller g run idx k it' in
        if is_gt (EditRun.cmp run sibling) then rest else ok prev_idx
  ]

unfoldable pub last_smaller_after : Gtree EditRun → EditRun → ℕ → Result Panic ℕ
unfolding leaves_from last_smaller
last_smaller_after g run prev_idx = do
  it ← leaves_from false prev_idx g
  last_smaller g run prev_idx (suc (length g.lnodes)) it

-- The same among siblings; if the run is greater than all of them, the search goes on behind them.
unfoldable pub last_smaller_sibling : Gtree EditRun → EditRun → ℕ → List ℕ → Result Panic ℕ
unfolding leaf EditRun.cmp last_smaller_after
last_smaller_sibling g run prev_idx [] = last_smaller_after g run prev_idx
last_smaller_sibling g run prev_idx (idx ∷ rest) = do
  sibling ← leaf idx g
  let further = last_smaller_sibling g run idx rest
  if is_gt (EditRun.cmp run sibling) then further else ok prev_idx

abbrev pub first_and_rest : Gtree EditRun → Result Panic ((ℕ × EditRun) × LeavesFrom)
unfolding leaves_from_first next
first_and_rest g = do it ← leaves_from_first g; found ← next g it; unwrap found

-- The run is cut off at an offset, with the inserted one in between.
abbrev pub split_around : EditRun → ℕ → EditRun → Result Panic (EditRun × EditRun × EditRun)
unfolding EditRun.split
split_around run at_offset splitting =
    let (left, split) = EditRun.split splitting at_offset in
    elim split [ none ↦ err none_unwrapped | some right ↦ ok (left, run, right) ]
